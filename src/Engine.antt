-- ===== src/Engine.antt =====
-- engine/data_engine.py, with model/operation.py and model/record.py: records of a collection, kept
-- as one block each, or by a backend that keeps records itself. A Python value is of any type with
-- the tests that the code makes of it; a limit is a natural number. Time and random text of a new
-- record are arguments.
pub mod Creating
pub mod Filters
pub mod Records
pub mod Calls
pub mod Sorted
pub mod Satisfied
pub mod Answered
pub mod Effects
pub mod Created
pub mod Updated
pub mod Changed
pub mod Names
pub mod Explicit
pub mod Repeats
pub mod Imported
use model_db.Prelude.{
  ℕ, zero, suc, ◌+◌, ◌-◌, ◌*◌, ◌/◌, ◌%◌, ◌^◌, ◌≤◌, ◌<◌, String, ◌≡◌, refl, sym, ap, ◌∙◌, fun_ext,
  ◌≢◌, ◌↔◌, ◌⊎◌, inl, inr, Bool, true, false, not, ◌&&◌, ◌||◌, Option, none, some, List, [], ◌∷◌,
  ◌++◌, map, arith, ltb, leb, ◌==◌, ==_iff, if◌then◌else◌, leb→le, ltb→lt, Bool-cases, Option-cases,
  is_some, is_some-some, some_injective, length, get_elem?, take, drop, replicate, keep, all_of,
  any_of, All, length-append, take-length-append, drop-length-append, length-replicate, list_eq,
  list_eq_iff, get_or, has_prefix, has_prefix-append, Result, ok, err, ◌>>=◌, ◌>>◌, guard, map_ok,
  is_ok, is_ok-ok, Result-cases, >>=-eq-ok, ok-injective, map_ok-eq-ok, str_eq, str_eq_iff,
  str_eq_refl, ◌+ˢ◌, +ˢ_cancel_left, str_eq-prefix, codes, codes-append, codes_injective, ◌+ᶜ◌,
  Action, resume, ◌>>=ᴹ◌, pure, reads, sorted, insert_sorted, sorted-Perm, sorted-IsSorted,
  IsSorted, IsWeakOrder, All-sorted,
}
use model_db.Dict.{Dict}
use model_db.Errors.{Error}
use model_db.Storage.Interface.{Bytes, StorageBackend}
use model_db.Schema.{SchemaError, SchemaRegistry, Values}

pub data EngineError : Type 0 where
  -- schema/registry.py, CollectionNotFoundError among them
  schema_error : SchemaError → EngineError
  -- engine/errors.py, with the collection
  record_not_found : String → EngineError
  duplicate_record : String → String → EngineError
  invalid_record_id : String → EngineError
  -- Python's TypeError and ValueError, and pydantic's ValidationError
  type_error value_error validation_error : EngineError
  -- what the storage raises
  storage_error : Error → EngineError

-- The values of fields and filters: `None`, the comparisons, and the tests of `_matches_one`, `none`
-- where they raise TypeError.
pub record Comparisons (v : Values) : Type 0 where
  pub null : v.Value
  pub equal : v.Value → v.Value → Bool
  -- `a > b`, `a < b`, `a >= b` and `a <= b`
  pub above : v.Value → v.Value → Option Bool
  pub below : v.Value → v.Value → Option Bool
  pub at_least : v.Value → v.Value → Option Bool
  pub at_most : v.Value → v.Value → Option Bool
  -- `a in b`
  pub among : v.Value → v.Value → Option Bool
  -- `low, high = b`
  pub unpack : v.Value → Option (v.Value × v.Value)
  -- `str(b).replace("%", "").lower() in str(a).lower()`
  pub like : v.Value → v.Value → Bool

-- "=", "!=", ">", "<", ">=", "<=", "IN", "NOT IN", "BETWEEN", "LIKE", "IS NULL" and "IS NOT NULL"
pub data FilterOperator : Type 0 where
  eq ne gt lt ge le is_in not_in between like is_null is_not_null : FilterOperator

pub data Direction : Type 0 where
  asc desc : Direction

pub record Sort : Type 0 where
  pub field : String
  pub direction : Direction

module _ (v : Values) where
  pub record Filter : Type 0 where
    pub field : String
    pub operator : FilterOperator
    pub value : v.Value

  pub record Record : Type 0 where
    pub record_id : String
    pub collection : String
    pub version : ℕ
    pub created_at : ℕ
    pub updated_at : ℕ
    pub fields : Dict v.Value
    pub checksum : Option String

  pub record CreateOperation : Type 0 where
    pub collection : String
    pub data_fields : Dict v.Value
    pub record_id : Option String

  pub record ReadOperation : Type 0 where
    pub collection : String
    pub filters : List Filter
    pub sort : List Sort
    pub limit : Option ℕ

  pub record UpdateOperation : Type 0 where
    pub collection : String
    pub filters : List Filter
    pub data_fields : Dict v.Value

  pub record DeleteOperation : Type 0 where
    pub collection : String
    pub filters : List Filter

  pub record CountOperation : Type 0 where
    pub collection : String
    pub filters : List Filter

  pub record OperationResult : Type 0 where
    pub kind : String
    pub collection : String
    pub records : List Record
    pub count : ℕ

-- the tuple of `_row`, and the one that a backend returns, whose checksum is bytes
pub record Row : Type 0 where
  pub collection : String
  pub record_id : String
  pub version : ℕ
  pub created : ℕ
  pub updated : ℕ
  pub fields_json : String
  pub checksum : Option String

pub record FoundRow : Type 0 where
  pub record_id : String
  pub version : ℕ
  pub created : ℕ
  pub updated : ℕ
  pub fields_json : String
  pub checksum : Bytes

-- `RecordBackend` of storage/interface.py, on the state of the storage
pub record RecordBackend (v : Values) (Store : Type 0) : Type 0 where
  pub record_insert_many : Store → List Row → Bool → Store × Result EngineError (Unit {0})
  pub record_get : Store → String → String → Option FoundRow
  pub record_exists : Store → String → String → Bool
  pub record_existing_ids : Store → String → List String → List String
  pub record_count : Store → String → ℕ
  pub record_delete : Store → String → String → Store × Bool
  pub record_delete_collection : Store → String → Store × ℕ
  pub record_query : Store → String → List (Filter v) → Option ℕ → List FoundRow × Bool

-- What is Python's own and other modules': the JSON texts, SHA-256 and the letters of a name.
pub record Texts (v : Values) : Type 0 where
  -- `record.model_dump_json().encode("utf-8")` and `Record.model_validate_json`
  pub dump : Record v → Bytes
  pub load : Bytes → Option (Record v)
  -- `to_json(fields).decode("utf-8")` and `json.loads`
  pub to_json : Dict v.Value → String
  pub from_json : String → Option (Dict v.Value)
  -- `hashlib.sha256(json.dumps(fields, ...).encode("utf-8")).hexdigest()`
  pub checksum : Dict v.Value → String
  -- `value.hex()`
  pub hex : Bytes → String
  -- `"".join(ch for ch in collection.upper() if ch.isalpha())[:3]`
  pub first_letters : String → String
  -- `s < t` on texts
  pub text_lt : String → String → Bool

-- the time of a call, and the random hexadecimal text
pub record Moment : Type 0 where
  pub now : ℕ
  pub random : String

-- `self.storage` and `self.schema`
pub record MdcDataEngine (b : StorageBackend) : Type 0 where
  pub storage : b.Store
  pub schema : SchemaRegistry

abbrev pub Method : StorageBackend → Type 0 → Type 0
Method b A = Action (MdcDataEngine b) EngineError A
