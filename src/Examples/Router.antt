-- ===== src/Examples/Router.antt =====
-- The router over an in-memory durable store: an object that is stored, and one that is there.
use model_db.Prelude.{
  ◌<◌, String, ◌≡◌, refl, sym, ap, ◌∙◌, inl, inr, true, false, none, some, [], arith, if◌then◌else◌,
  Bool-cases, some_injective, length, ok, err, ◌>>=◌, ok-injective, str_eq, str_eq_iff,
}
use model_db.Dict
use model_db.Dna.Ecc
use model_db.Dna.Crypto.{encrypt, nonce_len}
use model_db.Router.Backends.{IsStorable}
use model_db.Compression
use model_db.Router.Frame.{retrieve-entry}
use model_db.Router.{content_of}
use model_db.Router.Stored.{bytes_read, content_read}
use model_db.Errors.{object_not_found}
use model_db.Vocabulary.{StorageTier, DataType, CompressionAlgorithm, Representation, CachePolicy}
use model_db.Storage.Interface.{Bytes, StorageBackend, IsLawful}
use model_db.Storage.Memory
use model_db.Storage.Memory.{backend}
use model_db.Storage.Memory.Lawful.{backend_laws}
use model_db.Strategy.{StorageStrategy}
use model_db.Compression.{compress, decompress, is_missing, decompress-compress}
use model_db.Index
use model_db.Index.{
  index_id, entry_metadata, IndexEntry, IsFaithful, get-register, get-delete_index,
}
use model_db.Location.{location_of}
use model_db.Dna.Storage.{DnaStorageBackend}
use model_db.Vocabulary.{type_value}
use model_db.Router.{
  StorageRouter, MdcObject, Moment, Settings, backend_get, store, move, delete, retrieve,
}
use model_db.Router.Stored.{IsCataloged, IsWell, Leaves}
use model_db.Router.Outcome.{store-Leaves}
use model_db.Router.Removed.{delete-Leaves}
use model_db.Router.Move.{IsMoved, move-Leaves}
use model_db.Router.Failures.{retrieve-checksum}
use model_db.Router.Backends.{IsSound}
use model_db.Examples.Cipher.{toy, toy-IsAuthenticated, toy-IsLossless}
use model_db.Examples.Storage.{printed, empty-IsConsistent}
use model_db.Examples.Entries.{toy_json, toy_json-IsFaithful}
use model_db.Examples.Dna.{message, old_key, nonce}

abbrev disk : StorageBackend
disk = backend toy.sha256 printed

abbrev laws : IsLawful toy.sha256 disk
laws = backend_laws toy.sha256 printed

abbrev settings : Settings
settings = record { default_key = old_key; durable_name = "DuckDBStore" }

abbrev new_archive : DnaStorageBackend Memory.MemoryStorageBackend
new_archive = record {
  ecc_copies = 3;
  explicit_key = none;
  persist = none;
  sequences = [];
  metadata = [];
  checksums = [];
  created_at = [];
}

abbrev start : StorageRouter disk
start = record { hot = Memory.empty; durable = Memory.empty; archive = new_archive }

start-IsSound : IsSound toy disk laws start
unfolding backend_laws Ecc.repetition_ecc
start-IsSound = record { valid = empty-IsConsistent; odd = refl; few = omega arith }

start-IsWell : IsWell toy disk laws toy_json settings start
unfolding Index.get Memory.get Dict.get
start-IsWell = (start-IsSound, λ j e h. absurd (cc))

abbrev moment : Moment
moment = record { supply = record { now = 3; nonce = nonce }; indexed_at = 4; registered = 5 }

message-IsStorable : (12 ≡ nonce_len) × (length (encrypt toy old_key nonce message) < 4294967296)
unfolding encrypt
message-IsStorable = (refl, omega arith)

zlib_message-IsStorable :
    (physical : Bytes)
    → compress toy message CompressionAlgorithm.zlib ≡ ok physical
    → IsStorable toy disk toy_json settings start moment.supply StorageTier.archive physical
unfolding Compression.compress Compression.get_compressor Compression.registry
zlib_message-IsStorable physical h =
    let e : message ≡ physical = ok-injective h in rw (← e) message-IsStorable

abbrev photo : MdcObject
photo = record {
  object_id = "p1";
  object_type = DataType.image;
  schema_version = "1.0";
  size = 2;
  created_at = 1;
  updated_at = 1;
  metadata = [];
  storage_strategy = none;
}

abbrev to_archive : StorageStrategy
to_archive = record {
  representation = Representation.raw;
  compression = CompressionAlgorithm.zlib;
  chunking = false;
  chunk_size = none;
  indexing = false;
  encryption = false;
  error_correction = false;
  storage_tier = StorageTier.archive;
  cache_policy = CachePolicy.no_cache;
}

store-Leaves_example :
    (r' : StorageRouter disk) × (entry : IndexEntry) × (store toy disk toy_json settings start
        moment photo message to_archive none none none
      ≡ ok (r', entry))
    × (entry.storage_tier ≡ StorageTier.archive)
    × Leaves toy disk laws toy_json settings start r' "p1" (λ _. ok message)
store-Leaves_example =
    store-Leaves toy toy-IsAuthenticated toy-IsLossless disk laws toy_json toy_json-IsFaithful
      settings start start-IsWell moment photo message to_archive none none none refl
      zlib_message-IsStorable

-- an object in the HOT tier
abbrev entry : IndexEntry
entry = record {
  object_id = "p1";
  object_type = DataType.image;
  storage_backend = "MemoryStorageBackend";
  storage_tier = StorageTier.hot;
  location = location_of DataType.image "p1";
  size = 2;
  compressed_size = none;
  checksum = "digest";
  compression = CompressionAlgorithm.none_algorithm;
  representation = Representation.raw;
  tensor_id = none;
  tensor_name = none;
  block_id = none;
  indexed_at = 4;
}

abbrev stocked : StorageRouter disk
stocked = record {
  hot = (Memory.put toy.sha256 Memory.empty 3 entry.location message []).0;
  durable = Index.register disk toy_json Memory.empty 5 entry;
  archive = new_archive;
}

stocked_entry :
    (j : String)
    → Index.get disk toy_json stocked.durable j
      ≡ (if str_eq "p1" j then ok (some entry) else Index.get disk toy_json Memory.empty j)
stocked_entry j =
    get-register toy.sha256 disk laws toy_json toy_json-IsFaithful Memory.empty 5 entry j

entry_there : Index.get disk toy_json stocked.durable "p1" ≡ ok (some entry)
entry_there = stocked_entry "p1"

stocked-IsSound : IsSound toy disk laws stocked
unfolding Index.register Ecc.repetition_ecc
stocked-IsSound = record {
  valid =
      laws.put-IsValid Memory.empty 5 (index_id "p1") (toy_json.dump entry) (entry_metadata entry)
        start-IsSound.valid;
  odd = refl;
  few = omega arith;
}

stocked-IsCataloged : IsCataloged disk toy_json stocked
stocked-IsCataloged j e h = elim (Bool-cases (str_eq "p1" j)) [
  | inl this ↦
      let is_j : "p1" ≡ j = ground (arith, str_eq_iff "p1" j) in
      let found : Index.get disk toy_json stocked.durable j ≡ ok (some entry) =
        stocked_entry j ∙ rw this refl in
      let same : entry ≡ e = some_injective (ok-injective (sym found ∙ h)) in
      rw (← same) (is_j, ap (location_of DataType.image) is_j)
  | inr other ↦ start-IsWell.1 j e (sym (stocked_entry j ∙ rw other refl) ∙ h)
]

stocked-IsWell : IsWell toy disk laws toy_json settings stocked
stocked-IsWell = (stocked-IsSound, stocked-IsCataloged)

bytes_there :
    backend_get toy disk toy_json settings stocked StorageTier.hot entry.location ≡ ok message
unfolding backend_get Memory.get Memory.put Dict.put Dict.get type_value
bytes_there = refl

move-Leaves_example :
    (r' : StorageRouter disk) × (e : IndexEntry) × (move toy disk toy_json settings stocked moment
        "p1" StorageTier.archive
      ≡ ok (r', e))
    × IsMoved toy disk toy_json settings r' entry e "p1" StorageTier.archive message
    × Leaves toy disk laws toy_json settings stocked r' "p1"
        (λ v. retrieve toy disk toy_json settings stocked "p1" v)
move-Leaves_example =
    move-Leaves toy toy-IsAuthenticated toy-IsLossless disk laws toy_json toy_json-IsFaithful
      settings stocked stocked-IsWell "p1" entry message moment StorageTier.archive entry_there
      bytes_there message-IsStorable

delete-Leaves_example :
    (r' : StorageRouter disk) × (delete toy disk toy_json settings stocked "p1" ≡ ok r')
    × Leaves toy disk laws toy_json settings stocked r' "p1" (λ _. err (object_not_found "p1"))
delete-Leaves_example =
    delete-Leaves toy toy-IsAuthenticated toy-IsLossless disk laws toy_json toy_json-IsFaithful
      settings stocked stocked-IsWell "p1" entry entry_there

unpacked : decompress toy message CompressionAlgorithm.none_algorithm ≡ ok message
unfolding Compression.decompress Compression.get_compressor Compression.registry
unpacked = refl

stocked_content : retrieve toy disk toy_json settings stocked "p1" true ≡ ok message
stocked_content =
    retrieve-entry toy disk toy_json settings stocked "p1" true entry entry_there
    ∙ ap (λ m. m >>= content_of toy disk toy_json settings "p1" true entry)
        (bytes_read toy disk laws toy_json settings stocked "p1" entry message bytes_there)
    ∙ content_read toy disk laws toy_json settings "p1" true entry message message unpacked refl

retrieve-checksum_example : toy.sha256 message ≡ "digest"
retrieve-checksum_example =
    retrieve-checksum toy disk toy_json settings stocked "p1" entry entry_there message
      stocked_content
