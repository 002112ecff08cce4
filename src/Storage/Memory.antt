-- ===== src/Storage/Memory.antt =====
-- `MemoryStorageBackend` of storage/memory_store.py: four dicts with the same keys. `sha256` is
-- hashlib's, any function here; `repr` is Python's text of a nested metadata dict.
pub mod Consistent
pub mod Lawful
use model_db.Prelude.{
  ◌>>=◌, ◌>>◌, guard, ℕ, String, Bool, ◌&&◌, Option, none, some, List, [], ◌∷◌, str_eq, Result, ok,
  err, all_of, if◌then◌else◌,
}
use model_db.Dict
use model_db.Dict.{Dict, contains}
use model_db.Errors.{Error, key_error}
use model_db.Storage.Interface.{
  Bytes, MetaValue, text, nested, MetaFields, Metadata, BlockInfo, StorageBackend,
}

pub record MemoryStorageBackend : Type 0 where
  pub blocks : Dict Bytes
  pub metadata : Dict Metadata
  pub checksums : Dict String
  pub created_at : Dict ℕ

abbrev pub empty : MemoryStorageBackend
empty = record { blocks = []; metadata = []; checksums = []; created_at = [] }

-- `d[k]`
abbrev pub item : {V : Type 0} → Option V → Result Error V
item none = err key_error
item (some v) = ok v

unfoldable pub put :
    (Bytes → String)
    → MemoryStorageBackend
    → ℕ
    → String
    → Bytes
    → Metadata
    → MemoryStorageBackend × String
put sha256 s now block_id payload metadata =
    let checksum = sha256 payload in
    (
      record {
        blocks = Dict.put s.blocks block_id payload;
        metadata = Dict.put s.metadata block_id metadata;
        checksums = Dict.put s.checksums block_id checksum;
        created_at = Dict.set_default s.created_at block_id now;
      },
      checksum,
    )

unfoldable pub get : MemoryStorageBackend → String → Result Error Bytes
get s block_id = item (Dict.get s.blocks block_id)

unfoldable pub exists : MemoryStorageBackend → String → Bool
exists s block_id = contains s.blocks block_id

unfoldable pub delete : MemoryStorageBackend → String → MemoryStorageBackend
delete s block_id = record {
  blocks = Dict.remove s.blocks block_id;
  metadata = Dict.remove s.metadata block_id;
  checksums = Dict.remove s.checksums block_id;
  created_at = Dict.remove s.created_at block_id;
}

unfoldable pub block_metadata : MemoryStorageBackend → String → Result Error BlockInfo
block_metadata s block_id = do
  guard (contains s.blocks block_id) key_error
  metadata ← item (Dict.get s.metadata block_id)
  checksum ← item (Dict.get s.checksums block_id)
  created_at ← item (Dict.get s.created_at block_id)
  ok (record { metadata = metadata; checksum = checksum; created_at = created_at })

module _ (repr : MetaFields → String) where
  -- `str(meta.get(key))`: a missing key reads "None".
  abbrev pub str_of : Option MetaValue → String
  str_of none = "None"
  str_of (some (text t)) = t
  str_of (some (nested d)) = repr d

  -- `all(str(meta.get(key)) == str(value) for key, value in filters.items())`
  abbrev pub fits : Dict String → Metadata → Bool
  fits filters meta = all_of (λ f. str_eq (str_of (Dict.get meta f.0)) f.1) filters

  unfoldable pub search : MemoryStorageBackend → Dict String → List String
  search s [] = Dict.keys s.blocks
  search s (f ∷ filters) = Dict.select (fits (f ∷ filters)) s.metadata

-- The class as a backend.
abbrev pub backend : (Bytes → String) → (MetaFields → String) → StorageBackend
backend sha256 repr = record {
  Store = MemoryStorageBackend;
  put = put sha256;
  get = get;
  exists = exists;
  delete = delete;
  metadata = block_metadata;
  search = search repr;
}
