-- ===== src/Engine/Records.antt =====
-- engine/data_engine.py: how one record is written, found and read, in a block of its own or by a
-- backend that keeps records itself.
use model_db.Prelude.{
  ℕ, String, Bool, Option, none, some, List, [], ◌∷◌, if◌then◌else◌, Result, ok, err, ◌>>=◌, ◌>>◌,
  guard, map_ok, ◌+ˢ◌,
}
use model_db.Dict.{Dict}
use model_db.Errors.{Error}
use model_db.Index.{is_key_error}
use model_db.Storage.Interface.{Bytes, Metadata, text, StorageBackend}
use model_db.Schema.{SchemaError, collection_not_found, Values, has_collection}
use model_db.Engine.{
  EngineError, schema_error, validation_error, storage_error, Comparisons, Filter, Record, Row,
  FoundRow, RecordBackend, Texts, MdcDataEngine, Method,
}
use model_db.Engine.Filters.{matches, matching_of}

-- `_block_id`
unfoldable pub block_id : String → String → String
block_id collection record_id = collection +ˢ (":" +ˢ record_id)

abbrev pub lift_schema : {A : Type 0} → Result SchemaError A → Result EngineError A
lift_schema (ok a) = ok a
lift_schema (err x) = err (schema_error x)

abbrev pub or_invalid : {A : Type 0} → Option A → Result EngineError A
or_invalid none = err validation_error
or_invalid (some a) = ok a

module _ {b : StorageBackend} where
  abbrev pub stored : MdcDataEngine b → b.Store → MdcDataEngine b
  stored s storage = record s { storage = storage }

  abbrev pub inserted :
      MdcDataEngine b
      → b.Store × Result EngineError (Unit {0})
      → MdcDataEngine b × Result EngineError (Unit {0})
  inserted s (storage, done) = (stored s storage, done)

module _ {v : Values} (x : Texts v) where
  -- `_row` and `_record_from_row`
  abbrev pub row_of : Record v → Row
  row_of r = record {
    collection = r.collection;
    record_id = r.record_id;
    version = r.version;
    created = r.created_at;
    updated = r.updated_at;
    fields_json = x.to_json r.fields;
    checksum = r.checksum;
  }

  abbrev pub record_of_row : String → FoundRow → Dict v.Value → Record v
  record_of_row collection row fields = record {
    record_id = row.record_id;
    collection = collection;
    version = row.version;
    created_at = row.created;
    updated_at = row.updated;
    fields = fields;
    checksum = some (x.hex row.checksum);
  }

  abbrev pub record_from_row : String → FoundRow → Result EngineError (Record v)
  record_from_row collection row =
      map_ok (record_of_row collection row) (or_invalid (x.from_json row.fields_json))

module _ (b : StorageBackend) {v : Values} (w : Comparisons v) (x : Texts v)
    (records : Option (RecordBackend v b.Store)) where
  abbrev pub require_collection : String → MdcDataEngine b → Result EngineError (Unit {0})
  require_collection collection s =
      guard (has_collection s.schema collection) (schema_error (collection_not_found collection))

  abbrev pub block_metadata : Record v → Metadata
  block_metadata r = ("collection", text r.collection) ∷ ("record_id", text r.record_id) ∷ []

  -- `_put`; the block is stamped with the time of the record
  unfoldable pub put_record : Bool → Record v → Method b (Unit {0})
  put_record replace r s = elim records [
    | none ↦ (
      stored s
          (b.put s.storage r.updated_at (block_id r.collection r.record_id) (x.dump r)
            (block_metadata r)).0,
      ok tt,
    )
    | some k ↦ inserted s (k.record_insert_many s.storage (row_of x r ∷ []) replace)
  ]

  -- `_remove`
  unfoldable pub remove_record : String → String → MdcDataEngine b → MdcDataEngine b
  remove_record collection record_id s = elim records [
    | none ↦ stored s (b.delete s.storage (block_id collection record_id))
    | some k ↦ stored s (k.record_delete s.storage collection record_id).0
  ]

  unfoldable pub has_record : MdcDataEngine b → String → String → Bool
  has_record s collection record_id = elim records [
    | none ↦ b.exists s.storage (block_id collection record_id)
    | some k ↦ k.record_exists s.storage collection record_id
  ]

  -- `except KeyError: return None`
  abbrev pub found : Result Error Bytes → Result EngineError (Option (Record v))
  found (ok payload) = map_ok some (or_invalid (x.load payload))
  found (err e) = if is_key_error e then ok none else err (storage_error e)

  abbrev pub found_row : String → Option FoundRow → Result EngineError (Option (Record v))
  found_row collection none = ok none
  found_row collection (some row) = map_ok some (record_from_row x collection row)

  unfoldable pub get_record :
      MdcDataEngine b → String → String → Result EngineError (Option (Record v))
  get_record s collection record_id = require_collection collection s >> elim records [
    | none ↦ found (b.get s.storage (block_id collection record_id))
    | some k ↦ found_row collection (k.record_get s.storage collection record_id)
  ]

  abbrev pub opened : Result Error Bytes → Result EngineError (Record v)
  opened (ok payload) = or_invalid (x.load payload)
  opened (err e) = err (storage_error e)

  -- `[Record.model_validate_json(self.storage.get(block_id)) for block_id in block_ids]`
  unfoldable pub open_all : b.Store → List String → Result EngineError (List (Record v))
  open_all s [] = ok []
  open_all s (i ∷ ids) = opened (b.get s i) >>= λ r. open_all s ids >>= λ rest. ok (r ∷ rest)

  -- the loop over the rows
  unfoldable pub matching_rows :
      String → List (Filter v) → List FoundRow → Result EngineError (List (Record v))
  matching_rows collection filters [] = ok []
  matching_rows collection filters (row ∷ rows) =
      or_invalid (x.from_json row.fields_json) >>= λ fields. matches w fields filters >>= λ hit.
      matching_rows collection filters rows >>= λ rest.
      ok (if hit then record_of_row x collection row fields ∷ rest else rest)

  -- `_matching`
  unfoldable pub matching :
      String → List (Filter v) → Option ℕ → MdcDataEngine b → Result EngineError (List (Record v))
  matching collection filters limit s = require_collection collection s >> elim records [
    | none ↦
        open_all s.storage (b.search s.storage (("collection", collection) ∷ []))
        >>= matching_of w filters
    | some k ↦
        matching_rows collection filters (k.record_query s.storage collection filters limit).0
  ]
