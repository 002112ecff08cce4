-- ===== src/Index.antt =====
-- index/object_index.py: the catalog of objects, kept as blocks of a storage backend. The JSON form
-- of an entry is pydantic's; the time of an entry is an argument.
use model_db.Prelude.{
  ℕ, String, ◌≡◌, Bool, true, false, Option, none, some, List, [], ◌∷◌, arith, if◌then◌else◌,
  has_prefix, Result, ok, err, ◌>>=◌, map_ok, str_eq, ◌+ˢ◌, str_eq-prefix, codes,
}
use model_db.Dict
use model_db.Dict.{Dict}
use model_db.Errors.{Error, key_error}
use model_db.Vocabulary.{
  Representation, CompressionAlgorithm, StorageTier, DataType, type_value, tier_value,
}
use model_db.Storage.Interface.{Bytes, Metadata, text, StorageBackend, IsLawful}

pub record IndexEntry : Type 0 where
  pub object_id : String
  pub object_type : DataType
  pub storage_backend : String
  pub storage_tier : StorageTier
  pub location : String
  pub size : ℕ
  pub compressed_size : Option ℕ
  pub checksum : String
  pub compression : CompressionAlgorithm
  pub representation : Representation
  pub tensor_id : Option String
  pub tensor_name : Option String
  pub block_id : Option String
  pub indexed_at : ℕ

-- `entry.model_dump_json().encode("utf-8")` and `IndexEntry.model_validate_json`
pub record EntryJson : Type 0 where
  pub dump : IndexEntry → Bytes
  pub validate : Bytes → Result Error IndexEntry

-- What is written is read back as it was.
pub record IsFaithful (json : EntryJson) : Type 0 where
  pub validate-dump : (e : IndexEntry) → json.validate (json.dump e) ≡ ok e

-- `_INDEX_PREFIX + object_id`
abbrev pub index_id : String → String
index_id object_id = "__index__:" +ˢ object_id

-- `if value is not None: metadata[key] = value`
abbrev pub with_text : String → Option String → Metadata → Metadata
with_text key none metadata = metadata
with_text key (some value) metadata = Dict.put metadata key (text value)

unfoldable pub entry_metadata : IndexEntry → Metadata
entry_metadata entry = with_text "tensor_name" entry.tensor_name (
    with_text "tensor_id" entry.tensor_id (
      ("object_id", text entry.object_id)
      ∷ ("object_type", text (type_value entry.object_type))
      ∷ ("storage_tier", text (tier_value entry.storage_tier))
      ∷ []))

-- `block_id.startswith(_INDEX_PREFIX)`
abbrev pub is_index_id : String → Bool
is_index_id block_id = has_prefix (codes "__index__:") (codes block_id)

abbrev pub is_key_error : Error → Bool
is_key_error key_error = true
is_key_error _ = false

module _ (b : StorageBackend) (json : EntryJson) where
  unfoldable pub register : b.Store → ℕ → IndexEntry → b.Store
  register s now entry =
      (b.put s now (index_id entry.object_id) (json.dump entry) (entry_metadata entry)).0

  unfoldable pub get : b.Store → String → Result Error (Option IndexEntry)
  get s object_id = elim (b.get s (index_id object_id)) [
    | ok payload ↦ map_ok some (json.validate payload)
    | err e ↦ if is_key_error e then ok none else err e
  ]

  unfoldable pub delete : b.Store → String → b.Store
  delete s object_id = b.delete s (index_id object_id)

  -- the loop of `search` over the block ids that the backend lists
  unfoldable pub entries_of : b.Store → List String → Result Error (List IndexEntry)
  entries_of s [] = ok []
  entries_of s (block_id ∷ ids) =
      let rest = entries_of s ids in
      if is_index_id block_id
      then (do
        payload ← b.get s block_id
        entry ← json.validate payload
        map_ok (λ entries. entry ∷ entries) rest)
      else rest

  -- the values of the filters are texts here, an enumeration's its value
  unfoldable pub search : b.Store → Dict String → Result Error (List IndexEntry)
  search s filters = entries_of s (b.search s filters)

module _ (sha256 : Bytes → String) (b : StorageBackend) (law : IsLawful sha256 b) (json : EntryJson)
    (f : IsFaithful json) where
  -- A registered entry is what the index returns for its object, whatever was there before; the
  -- entries of other objects stay.
  pub get-register :
      (s : b.Store) (now : ℕ) (entry : IndexEntry) (j : String)
      → get b json (register b json s now entry) j
        ≡ (if str_eq entry.object_id j then ok (some entry) else get b json s j)
  unfolding get register
  get-register s now entry j = ground (
    arith,
    law.get-put s now (index_id entry.object_id) (index_id j) (json.dump entry)
        (entry_metadata entry),
    str_eq-prefix "__index__:" entry.object_id j,
    f.validate-dump entry,
  )

  -- A deleted object is not in the index; the entries of other objects stay.
  pub get-delete_index :
      (s : b.Store) (i j : String)
      → get b json (delete b json s i) j ≡ (if str_eq i j then ok none else get b json s j)
  unfolding get delete
  get-delete_index s i j =
      ground (arith, law.get-delete s (index_id i) (index_id j), str_eq-prefix "__index__:" i j)
