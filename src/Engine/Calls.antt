-- ===== src/Engine/Calls.antt =====
-- MDCDataEngine of engine/data_engine.py: its methods, over a storage that keeps a block for each
-- record, or over one that keeps records itself.
use model_db.Engine.Records.{
  lift_schema, require_collection, stored, put_record, remove_record, has_record, matching,
}
use model_db.Prelude.{
  ℕ, ◌+◌, String, Bool, true, false, not, ◌&&◌, Option, none, some, List, [], ◌∷◌, if◌then◌else◌,
  is_some, length, take, Result, ok, err, ◌>>=◌, ◌>>◌, guard, map_ok, ◌>>=ᴹ◌, pure, reads,
}
use model_db.Dict
use model_db.Dict.{Dict}
use model_db.Storage.Interface.{StorageBackend}
use model_db.Schema.{Values, validate_record, delete_collection}
use model_db.Engine.{
  EngineError, record_not_found, value_error, Comparisons, Filter, Record, CreateOperation,
  ReadOperation, UpdateOperation, DeleteOperation, CountOperation, OperationResult, RecordBackend,
  Texts, Moment, MdcDataEngine, Method,
}
use model_db.Engine.Filters.{sort_all}
use model_db.Engine.Creating.{create}

-- no `if` of the code asks more of a list than this
abbrev pub is_empty : {A : Type 0} → List A → Bool
is_empty [] = true
is_empty (_ ∷ _) = false

module _ {v : Values} where
  -- `_require_at_least_one_filter`, of an update and of a deletion
  unfoldable pub update_operation :
      String → List (Filter v) → Dict v.Value → Result EngineError (UpdateOperation v)
  update_operation collection filters given =
      if is_empty filters
      then err value_error
      else ok (record { collection = collection; filters = filters; data_fields = given })

  unfoldable pub delete_operation :
      String → List (Filter v) → Result EngineError (DeleteOperation v)
  delete_operation collection filters =
      if is_empty filters
      then err value_error
      else ok (record { collection = collection; filters = filters })

module _ (b : StorageBackend) {v : Values} (w : Comparisons v) (x : Texts v)
    (records : Option (RecordBackend v b.Store)) where
  abbrev pub limited : Option ℕ → List (Record v) → List (Record v)
  limited none rs = rs
  limited (some n) rs = take n rs

  unfoldable pub read : ReadOperation v → MdcDataEngine b → Result EngineError (OperationResult v)
  read op s = do
    rs ←
        matching b w x records op.collection op.filters
          (if is_empty op.sort then op.limit else none) s
    in_order ← sort_all w op.sort rs
    ok (record {
      kind = "READ";
      collection = op.collection;
      records = limited op.limit in_order;
      count = length (limited op.limit in_order);
    })

  -- `record.model_copy(update=...)`
  unfoldable pub updated_record : ℕ → Dict v.Value → Record v → Record v
  updated_record now validated r = record r {
    fields = Dict.merge r.fields validated;
    version = r.version + 1;
    updated_at = now;
    checksum = some (x.checksum (Dict.merge r.fields validated));
  }

  -- the loop of `update`
  unfoldable pub update_all : ℕ → Dict v.Value → List (Record v) → Method b (List (Record v))
  update_all now validated [] = pure []
  update_all now validated (r ∷ rs) =
      put_record b w x records true (updated_record now validated r) >>=ᴹ λ _.
      update_all now validated rs >>=ᴹ λ rest. pure (updated_record now validated r ∷ rest)

  -- `if not matches: raise`
  abbrev pub some_match : String → List (Record v) → Result EngineError (Unit {0})
  some_match collection rs = guard (not (is_empty rs)) (record_not_found collection)

  unfoldable pub update : ℕ → UpdateOperation v → Method b (OperationResult v)
  update now op = reads (matching b w x records op.collection op.filters none) >>=ᴹ λ rs.
      reads (λ _. some_match op.collection rs) >>=ᴹ λ _.
      reads (λ s. lift_schema (validate_record v s.schema op.collection op.data_fields true))
      >>=ᴹ λ validated. update_all now validated rs >>=ᴹ λ updated. pure (record {
        kind = "UPDATE";
        collection = op.collection;
        records = updated;
        count = length updated;
      })

  -- the loop of `delete`
  unfoldable pub remove_all : List (Record v) → MdcDataEngine b → MdcDataEngine b
  remove_all [] s = s
  remove_all (r ∷ rs) s = remove_all rs (remove_record b w x records r.collection r.record_id s)

  unfoldable pub delete : DeleteOperation v → Method b (OperationResult v)
  delete op = reads (matching b w x records op.collection op.filters none) >>=ᴹ λ rs.
      reads (λ _. some_match op.collection rs) >>=ᴹ λ _. (λ s. (
        remove_all rs s,
        ok (record {
          kind = "DELETE";
          collection = op.collection;
          records = rs;
          count = length rs;
        }),
      ))

  unfoldable pub count_records : String → MdcDataEngine b → Result EngineError ℕ
  count_records collection s = require_collection b w x records collection s >> elim records [
    | none ↦ ok (length (b.search s.storage (("collection", collection) ∷ [])))
    | some k ↦ ok (k.record_count s.storage collection)
  ]

  abbrev pub counted : String → ℕ → OperationResult v
  counted collection n = record { kind = "COUNT"; collection = collection; records = []; count = n }

  unfoldable pub count : CountOperation v → MdcDataEngine b → Result EngineError (OperationResult v)
  count op s =
      if is_empty op.filters && is_some records
      then map_ok (counted op.collection) (count_records op.collection s)
      else map_ok (λ rs. counted op.collection (length rs))
          (matching b w x records op.collection op.filters none s)

  unfoldable pub delete_record : String → String → Method b (Unit {0})
  delete_record collection record_id = reads (require_collection b w x records collection) >>=ᴹ λ _.
      reads
        (λ s. guard (has_record b w x records s collection record_id) (record_not_found collection))
      >>=ᴹ λ _. (λ s. (remove_record b w x records collection record_id s, ok tt))

  unfoldable pub delete_blocks : b.Store → List String → b.Store
  delete_blocks s [] = s
  delete_blocks s (i ∷ ids) = delete_blocks (b.delete s i) ids

  -- the blocks, or the records, of a collection
  abbrev pub remove_collection : String → MdcDataEngine b → MdcDataEngine b × ℕ
  remove_collection collection s = elim records [
    | none ↦
        let ids = b.search s.storage (("collection", collection) ∷ []) in
        (stored s (delete_blocks s.storage ids), length ids)
    | some k ↦
        let gone = k.record_delete_collection s.storage collection in (stored s gone.0, gone.1)
  ]

  unfoldable pub drop_collection : String → Method b ℕ
  drop_collection collection = reads (require_collection b w x records collection) >>=ᴹ λ _. (λ s.
      let gone = remove_collection collection s in
      (record gone.0 { schema = delete_collection gone.0.schema collection }, ok gone.1))

-- `MDCOperation` by its kind, and `DataEngine.execute`
pub data MdcOperation (v : Values) : Type 0 where
  create_op : CreateOperation v → MdcOperation v
  read_op : ReadOperation v → MdcOperation v
  update_op : UpdateOperation v → MdcOperation v
  delete_op : DeleteOperation v → MdcOperation v
  count_op : CountOperation v → MdcOperation v

unfoldable pub execute :
    (b : StorageBackend) {v : Values}
    → Comparisons v
    → Texts v
    → Option (RecordBackend v b.Store)
    → Moment
    → MdcOperation v
    → Method b (OperationResult v)
execute b w x records m (create_op op) = create b w x records m op
execute b w x records m (read_op op) = reads (read b w x records op)
execute b w x records m (update_op op) = update b w x records m.now op
execute b w x records m (delete_op op) = delete b w x records op
execute b w x records m (count_op op) = reads (count b w x records op)
