-- ===== src/Router.antt =====
-- `StorageRouter` of storage_intelligence/router.py, as build_default_router sets it up: HOT is an
-- in-memory store, WARM and COLD are the durable store, ARCHIVE is the DNA archive that writes
-- through to the same durable store, and the object index lies on it too. The one durable store is
-- kept once; `attach` and `detach` hand it to the archive and take it back. A call that raises
-- has changed nothing. With it `MDCObject` of model/object.py.
pub mod Backends
pub mod Effects
pub mod Frame
pub mod Stored
pub mod Outcome
pub mod Removed
pub mod Relocated
pub mod Move
pub mod Failures
use model_db.Prelude.{
  ℕ, String, Bool, true, false, not, ◌&&◌, Option, none, some, [], ◌∷◌, if◌then◌else◌, length,
  Result, ok, err, ◌>>=◌, map_ok, str_eq,
}
use model_db.Errors.{Error, compression_error, object_not_found, object_unavailable, data_integrity}
use model_db.Vocabulary.{StorageTier, DataType, type_value, tier_eq, is_none_algorithm}
use model_db.Storage.Interface.{Bytes, Metadata, text, StorageBackend}
use model_db.Storage.Memory
use model_db.Storage.Memory.{MemoryStorageBackend}
use model_db.Platform.{Platform}
use model_db.Compression.{compress, decompress}
use model_db.Strategy.{StorageStrategy}
use model_db.Index
use model_db.Index.{IndexEntry, EntryJson, is_key_error}
use model_db.Location.{location_of}
use model_db.Dna.Storage
use model_db.Dna.Storage.{DnaStorageBackend, Supply}

pub record MdcObject : Type 0 where
  pub object_id : String
  pub object_type : DataType
  pub schema_version : String
  pub size : ℕ
  pub created_at : ℕ
  pub updated_at : ℕ
  pub metadata : Metadata
  pub storage_strategy : Option String

pub record StorageRouter (b : StorageBackend) : Type 0 where
  pub hot : MemoryStorageBackend
  pub durable : b.Store
  pub archive : DnaStorageBackend b.Store

-- what the machine supplies to one call: the write's time and nonce, `utcnow()`, and the time of the write to the index
pub record Moment : Type 0 where
  pub supply : Supply
  pub indexed_at : ℕ
  pub registered : ℕ

-- `old_backend is new_backend`
abbrev pub same_backend : StorageTier → StorageTier → Bool
same_backend StorageTier.warm StorageTier.cold = true
same_backend StorageTier.cold StorageTier.warm = true
same_backend t u = tier_eq t u

-- `except CompressionError`
abbrev pub is_compression_error : Error → Bool
is_compression_error compression_error = true
is_compression_error _ = false

-- the package's own settings: the key that a new archive loads, the class name of the durable store
pub record Settings : Type 0 where
  pub default_key : Bytes
  pub durable_name : String

module _ (p : Platform) (b : StorageBackend) (json : EntryJson) (settings : Settings) where
  abbrev pub attach : StorageRouter b → DnaStorageBackend b.Store
  attach r = record r.archive { persist = some r.durable }

  abbrev pub detach : StorageRouter b → DnaStorageBackend b.Store → StorageRouter b
  detach r d = record r { archive = d; durable = elim d.persist [ none ↦ r.durable | some s ↦ s ] }

  -- `self.backends[tier].put(location, payload, metadata=metadata)`
  unfoldable pub backend_put :
      StorageRouter b
      → Supply
      → StorageTier
      → String
      → Bytes
      → Metadata
      → Result Error (StorageRouter b)
  backend_put r supply StorageTier.hot location payload metadata =
      ok (record r { hot = (Memory.put p.sha256 r.hot supply.now location payload metadata).0 })
  backend_put r supply StorageTier.archive location payload metadata =
      map_ok (λ w. detach r w.0)
        (Storage.put p b settings.default_key (attach r) supply location payload metadata)
  backend_put r supply _ location payload metadata =
      ok (record r { durable = (b.put r.durable supply.now location payload metadata).0 })

  unfoldable pub backend_get : StorageRouter b → StorageTier → String → Result Error Bytes
  backend_get r StorageTier.hot location = Memory.get r.hot location
  backend_get r StorageTier.archive location =
      Storage.get p b settings.default_key (attach r) location
  backend_get r _ location = b.get r.durable location

  unfoldable pub backend_delete : StorageRouter b → StorageTier → String → StorageRouter b
  backend_delete r StorageTier.hot location = record r { hot = Memory.delete r.hot location }
  backend_delete r StorageTier.archive location = detach r (Storage.delete p b (attach r) location)
  backend_delete r _ location = record r { durable = b.delete r.durable location }

  -- `type(backend).__name__`
  unfoldable pub backend_name : StorageTier → String
  backend_name StorageTier.hot = "MemoryStorageBackend"
  backend_name StorageTier.archive = "DNAStorageBackend"
  backend_name _ = settings.durable_name

  abbrev pub object_metadata : String → DataType → Metadata
  object_metadata object_id object_type =
      ("object_id", text object_id) ∷ ("object_type", text (type_value object_type)) ∷ []

  -- the entry that `store` builds
  abbrev pub entry_for :
      MdcObject
      → Bytes
      → Bytes
      → StorageStrategy
      → Option String
      → Option String
      → Option String
      → ℕ
      → IndexEntry
  entry_for obj content physical_bytes strategy tensor_id tensor_name block_id indexed_at = record {
    object_id = obj.object_id;
    object_type = obj.object_type;
    storage_backend = backend_name strategy.storage_tier;
    storage_tier = strategy.storage_tier;
    location = location_of obj.object_type obj.object_id;
    size = length content;
    compressed_size =
        if not (is_none_algorithm strategy.compression) then some (length physical_bytes) else none;
    checksum = p.sha256 content;
    compression = strategy.compression;
    representation = strategy.representation;
    tensor_id = tensor_id;
    tensor_name = tensor_name;
    block_id = block_id;
    indexed_at = indexed_at;
  }

  -- `self.index.register(entry)`
  abbrev pub register_entry : StorageRouter b → ℕ → IndexEntry → StorageRouter b
  register_entry r now entry = record r { durable = Index.register b json r.durable now entry }

  unfoldable pub store :
      StorageRouter b
      → Moment
      → MdcObject
      → Bytes
      → StorageStrategy
      → Option String
      → Option String
      → Option String
      → Result Error (StorageRouter b × IndexEntry)
  store r moment obj content strategy tensor_id tensor_name block_id = do
    physical_bytes ← compress p content strategy.compression
    r' ←
        backend_put r moment.supply strategy.storage_tier
          (location_of obj.object_type obj.object_id) physical_bytes
          (object_metadata obj.object_id obj.object_type)
    let entry =
        entry_for obj content physical_bytes strategy tensor_id tensor_name block_id
          moment.indexed_at
    ok (register_entry r' moment.registered entry, entry)

  -- `_require_entry`
  unfoldable pub require_entry : StorageRouter b → String → Result Error IndexEntry
  require_entry r object_id = Index.get b json r.durable object_id >>= λ found. elim found [
    | none ↦ err (object_not_found object_id)
    | some entry ↦ ok entry
  ]

  -- `try: backend.get(...) except KeyError: raise ObjectUnavailableError(...)`
  unfoldable pub stored_bytes : StorageRouter b → String → IndexEntry → Result Error Bytes
  stored_bytes r object_id entry = elim (backend_get r entry.storage_tier entry.location) [
    | ok physical_bytes ↦ ok physical_bytes
    | err e ↦
        if is_key_error e then err (object_unavailable object_id entry.storage_tier) else err e
  ]

  -- the rest of `retrieve`: decompression and the comparison of the checksums
  unfoldable pub content_of : String → Bool → IndexEntry → Bytes → Result Error Bytes
  content_of object_id verify_integrity entry physical_bytes =
      elim (decompress p physical_bytes entry.compression) [
        | ok content ↦
            if verify_integrity && not (str_eq (p.sha256 content) entry.checksum)
            then err (data_integrity object_id)
            else ok content
        | err e ↦ if is_compression_error e then err (data_integrity object_id) else err e
      ]

  unfoldable pub retrieve : StorageRouter b → String → Bool → Result Error Bytes
  unfolding stored_bytes content_of
  retrieve r object_id verify_integrity = do
    entry ← require_entry r object_id
    physical_bytes ← stored_bytes r object_id entry
    content_of object_id verify_integrity entry physical_bytes

  unfoldable pub delete : StorageRouter b → String → Result Error (StorageRouter b)
  delete r object_id = do
    entry ← require_entry r object_id
    let r' = backend_delete r entry.storage_tier entry.location
    ok (record r' { durable = Index.delete b json r'.durable object_id })

  -- the part of `move` under `if old_backend is not new_backend`
  unfoldable pub relocate :
      StorageRouter b → Supply → String → IndexEntry → StorageTier → Result Error (StorageRouter b)
  relocate r supply object_id entry new_tier =
      if same_backend entry.storage_tier new_tier then ok r else (do
        physical_bytes ← stored_bytes r object_id entry
        r' ←
            backend_put r supply new_tier entry.location physical_bytes
              (object_metadata object_id entry.object_type)
        ok (backend_delete r' entry.storage_tier entry.location))

  -- `entry.model_copy(update={...})`
  abbrev pub moved_entry : IndexEntry → StorageTier → ℕ → IndexEntry
  moved_entry entry new_tier indexed_at = record entry {
    storage_tier = new_tier;
    storage_backend = backend_name new_tier;
    indexed_at = indexed_at;
  }

  unfoldable pub move :
      StorageRouter b → Moment → String → StorageTier → Result Error (StorageRouter b × IndexEntry)
  move r moment object_id new_tier = require_entry r object_id >>= λ entry.
      if tier_eq entry.storage_tier new_tier then ok (r, entry) else (do
        r' ← relocate r moment.supply object_id entry new_tier
        let moved = moved_entry entry new_tier moment.indexed_at
        ok (register_entry r' moment.registered moved, moved))
