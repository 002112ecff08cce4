-- ===== src/Engine/Creating.antt =====
-- `create` and `create_many` of engine/data_engine.py.
use model_db.Engine.Records.{lift_schema, row_of, inserted, put_record, has_record}
use model_db.Prelude.{
  ℕ, suc, String, Bool, false, not, ◌&&◌, Option, none, some, List, [], ◌∷◌, ◌++◌, map,
  if◌then◌else◌, is_some, keep, any_of, Result, ok, err, ◌>>=◌, ◌>>◌, guard, str_eq, ◌+ˢ◌, codes,
  ◌>>=ᴹ◌, pure, reads, sorted, is_id,
}
use model_db.Dict
use model_db.Dict.{Dict}
use model_db.Storage.Interface.{StorageBackend, Outage, next_write}
use model_db.Schema.{Values, validate_record}
use model_db.Engine.{
  EngineError, duplicate_record, invalid_record_id, Comparisons, Record, CreateOperation,
  OperationResult, RecordBackend, Texts, Moment, MdcDataEngine, Method,
}

module _ (b : StorageBackend) {v : Values} (w : Comparisons v) (x : Texts v)
    (records : Option (RecordBackend v b.Store)) where
  -- `_generate_record_id`
  unfoldable pub generate_record_id : Moment → String → String
  generate_record_id m collection =
      let letters = x.first_letters collection in
      (if str_eq letters "" then "REC" else letters) +ˢ ("-" +ˢ m.random)

  abbrev pub chosen_id : Moment → String → Option String → Result EngineError String
  chosen_id m collection none = ok (generate_record_id m collection)
  chosen_id m collection (some i) = guard (is_id (codes i)) (invalid_record_id i) >> ok i

  -- `_new_record`
  unfoldable pub new_record :
      Moment → CreateOperation v → MdcDataEngine b → Result EngineError (Record v)
  new_record m op s = do
    validated ← lift_schema (validate_record v s.schema op.collection op.data_fields false)
    record_id ← chosen_id m op.collection op.record_id
    ok (record {
      record_id = record_id;
      collection = op.collection;
      version = 1;
      created_at = m.now;
      updated_at = m.now;
      fields = validated;
      checksum = some (x.checksum validated);
    })

  unfoldable pub create : Moment → CreateOperation v → Method b (OperationResult v)
  create m op = reads (new_record m op) >>=ᴹ λ r.
      reads (λ s.
        guard (not (is_some op.record_id && has_record b w x records s op.collection r.record_id))
          (duplicate_record op.collection r.record_id))
      >>=ᴹ λ _. put_record b w x records false r >>=ᴹ λ _.
          pure (record { kind = "CREATE"; collection = op.collection; records = r ∷ []; count = 1 })

  -- `[self._new_record(op) for op in operations]`, each at its own moment
  unfoldable pub new_records :
      (ℕ → Moment)
      → ℕ
      → List (CreateOperation v)
      → MdcDataEngine b
      → Result EngineError (List (Record v))
  new_records moments n [] s = ok []
  new_records moments n (op ∷ operations) s = new_record (moments n) op s >>= λ r.
      new_records moments (suc n) operations s >>= λ rest. ok (r ∷ rest)

  -- `key in seen`
  abbrev pub is_seen : List (String × String) → Record v → Bool
  is_seen seen r = any_of (λ key. str_eq key.0 r.collection && str_eq key.1 r.record_id) seen

  -- the first loop of `create_many`
  unfoldable pub check_repeats :
      List (String × String) → List (Record v) → Result EngineError (Unit {0})
  check_repeats seen [] = ok tt
  check_repeats seen (r ∷ rest) =
      let later = check_repeats ((r.collection, r.record_id) ∷ seen) rest in
      if is_seen seen r then err (duplicate_record r.collection r.record_id) else later

  abbrev pub or_none : Option (List String) → List String
  or_none none = []
  or_none (some ids) = ids

  -- one round of the second loop: `explicit.setdefault(collection, []).append(record_id)`
  abbrev pub noted : Dict (List String) → CreateOperation v → Record v → Dict (List String)
  noted explicit op r =
      if is_some op.record_id
      then Dict.put explicit r.collection
          (or_none (Dict.get explicit r.collection) ++ (r.record_id ∷ []))
      else explicit

  unfoldable pub explicit_ids :
      Dict (List String) → List (CreateOperation v) → List (Record v) → Dict (List String)
  explicit_ids explicit (op ∷ operations) (r ∷ rest) =
      explicit_ids (noted explicit op r) operations rest
  explicit_ids explicit _ _ = explicit

  -- the third loop; of a set, `sorted` gives the same first text as of the list
  abbrev pub existing_ids : MdcDataEngine b → String → List String → List String
  existing_ids s collection ids = elim records [
    | none ↦ keep (has_record b w x none s collection) ids
    | some k ↦ k.record_existing_ids s.storage collection ids
  ]

  abbrev pub none_existing : String → List String → Result EngineError (Unit {0})
  none_existing collection [] = ok tt
  none_existing collection (i ∷ ids) = err (duplicate_record collection i)

  unfoldable pub check_existing :
      Dict (List String) → MdcDataEngine b → Result EngineError (Unit {0})
  check_existing [] s = ok tt
  check_existing ((collection, ids) ∷ explicit) s =
      none_existing collection (sorted x.text_lt (existing_ids s collection ids))
      >> check_existing explicit s

  -- `for record in records: self._put(record, replace=False)`
  unfoldable pub put_records : Outage EngineError → List (Record v) → Method b (Unit {0})
  put_records outage [] = pure tt
  put_records outage (r ∷ rest) = reads (λ _. next_write outage) >>=ᴹ λ left.
      put_record b w x records false r >>=ᴹ λ _. put_records left rest

  -- the outage is of a storage with a block for each record; what a backend that keeps records itself
  -- raises is in its `record_insert_many`
  unfoldable pub write_many : Outage EngineError → List (Record v) → Method b (Unit {0})
  write_many outage rs = elim records [
    | none ↦ put_records outage rs
    | some k ↦ λ s. inserted s (k.record_insert_many s.storage (map (row_of x) rs) false)
  ]

  unfoldable pub create_many :
      (ℕ → Moment) → Outage EngineError → List (CreateOperation v) → Method b (List (Record v))
  create_many moments outage operations = reads (new_records moments 0 operations) >>=ᴹ λ rs.
      reads (λ _. check_repeats [] rs) >>=ᴹ λ _.
      reads (check_existing (explicit_ids [] operations rs)) >>=ᴹ λ _.
      write_many outage rs >>=ᴹ λ _. pure rs
