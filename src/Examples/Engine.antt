-- ===== src/Examples/Engine.antt =====
-- A data engine on the memory store with a collection of people.
use model_db.Prelude.{
  ℕ, zero, suc, String, ◌≡◌, refl, ◌↔◌, Bool, true, false, not, Option, none, some, List, [], ◌∷◌,
  ◌++◌, arith, ltb, leb, ◌==◌, if◌then◌else◌, length, take, keep, All, ok, str_eq, sorted,
  insert_sorted, IsSorted, IsWeakOrder, id_rest,
}
use mathlib.Core.List.{Perm}
use model_db.Engine.{
  EngineError, value_error, Comparisons, eq, asc, desc, Sort, Filter, Record, Texts, Moment,
  MdcDataEngine, CreateOperation, ReadOperation, UpdateOperation, DeleteOperation, OperationResult,
}
use model_db.Engine.Filters.{
  matches_one, matches, matching_of, sort_by, sort_all, are_comparable, lacks, key_of,
}
use model_db.Engine.Records.{
  block_id, put_record, remove_record, has_record, get_record, matching, open_all,
}
use model_db.Engine.Calls.{read, count, updated_record, update, update_all, delete, remove_all}
use model_db.Engine.Creating.{new_record, create}
use model_db.Engine.Satisfied.{Meets}
use model_db.Engine.Sorted.{key_below, sort_by-IsSorted}
use model_db.Engine.Answered.{read-selects}
use model_db.Engine.Effects.{id_of, IsOther, AreDistinct, is_one_of}
use model_db.Engine.Created.{IsPlain, create-Stores}
use model_db.Engine.Updated.{AreUpdated}
use model_db.Engine.Changed.{IsFound, update-Changes, delete-Removes}
use model_db.Dict
use model_db.Dict.{Dict}
use model_db.Schema.{
  has_collection, validate_record, coerce, coerce_all, missing, coercers, get_collection,
}
use model_db.Storage.Interface.{Bytes, StorageBackend, IsLawful, Outage}
use model_db.Storage.Memory
use model_db.Storage.Memory.{MemoryStorageBackend, empty, backend}
use model_db.Storage.Memory.Lawful.{backend_laws}
use model_db.Examples.Cipher.{toy}
use model_db.Examples.Storage.{printed}
use model_db.Examples.Schema.{people, numbers}

-- numbers as they compare in Python, and 0 for None
abbrev arithmetic : Comparisons numbers
arithmetic = record {
  null = 0;
  equal = λ m n. m == n;
  above = λ m n. some (ltb n m);
  below = λ m n. some (ltb m n);
  at_least = λ m n. some (leb n m);
  at_most = λ m n. some (leb m n);
  among = λ m n. none;
  unpack = λ n. none;
  like = λ m n. m == n;
}

abbrev moment : Moment
moment = record { now = 7; random = "0A1B2C3D4E" }

abbrev ada_record : Record numbers
ada_record = record {
  record_id = "p1";
  collection = "people";
  version = 1;
  created_at = 7;
  updated_at = 7;
  fields = ("name", 5) ∷ [];
  checksum = some "sum";
}

-- a record after an update of its age
abbrev aged : Record numbers
aged = record ada_record { fields = ("name", 5) ∷ ("age", 36) ∷ []; version = 2; updated_at = 9 }

-- A record is read from its version and its time.
abbrev toy_load : Bytes → Option (Record numbers)
toy_load (suc zero ∷ _) = some ada_record
toy_load (suc (suc zero) ∷ _) = some aged
toy_load _ = none

abbrev engine_texts : Texts numbers
engine_texts = record {
  dump = λ r. r.version ∷ [];
  load = toy_load;
  to_json = λ d. "{}";
  from_json = λ s. none;
  checksum = λ d. "sum";
  hex = λ b. "";
  first_letters = λ s. "PEO";
  text_lt = λ s t. false;
}

abbrev memory : StorageBackend
memory = backend toy.sha256 printed

abbrev law : IsLawful toy.sha256 memory
law = backend_laws toy.sha256 printed

abbrev fresh : MdcDataEngine memory
fresh = record { storage = empty; schema = people }

abbrev ada_operation : CreateOperation numbers
ada_operation = record {
  collection = "people";
  data_fields = ("name", 5) ∷ [];
  record_id = some "p1";
}

-- the engine with one record
abbrev with_ada : MdcDataEngine memory
with_ada = (create memory arithmetic engine_texts none moment ada_operation fresh).0

abbrev created : OperationResult numbers
created = record { kind = "CREATE"; collection = "people"; records = ada_record ∷ []; count = 1 }

ada_created :
    create memory arithmetic engine_texts none moment ada_operation fresh ≡ (with_ada, ok created)
unfolding create new_record validate_record coerce coerce_all missing coercers get_collection
    Dict.get Dict.put id_rest has_record Memory.exists put_record
ada_created = refl

create-Stores_example :
    (r : Record numbers) × (created.records ≡ r ∷ [])
    × (r.collection ≡ "people")
    × (r.version ≡ 1)
    × (validate_record numbers people "people" (("name", 5) ∷ []) false ≡ ok r.fields)
    × ((i : String)
        → some "p1" ≡ some i
        → (r.record_id ≡ i)
          × (has_record memory arithmetic engine_texts none fresh "people" i ≡ false))
    × (IsPlain engine_texts r
        → (collection i : String) → has_collection people collection ≡ true
        → get_record memory arithmetic engine_texts none with_ada collection i ≡ (
            if str_eq (id_of r) (block_id collection i)
            then ok (some r)
            else get_record memory arithmetic engine_texts none fresh collection i))
create-Stores_example =
    create-Stores law arithmetic engine_texts moment ada_operation fresh with_ada created
      ada_created

abbrev named_five : List (Filter numbers)
named_five = record { field = "name"; operator = eq; value = 5 } ∷ []

abbrev birthday : UpdateOperation numbers
birthday = record { collection = "people"; filters = named_five; data_fields = ("age", 36) ∷ [] }

abbrev with_aged : MdcDataEngine memory
with_aged = (update memory arithmetic engine_texts none 9 birthday with_ada).0

abbrev updated : OperationResult numbers
updated = record { kind = "UPDATE"; collection = "people"; records = aged ∷ []; count = 1 }

ada_updated :
    update memory arithmetic engine_texts none 9 birthday with_ada ≡ (with_aged, ok updated)
unfolding create update delete update_all remove_all remove_record matching open_all matching_of
    matches matches_one new_record validate_record coerce coerce_all missing coercers get_collection
    Dict.get Dict.put Dict.merge Dict.remove Dict.select Dict.keys id_rest has_record put_record
    updated_record Memory.exists Memory.put Memory.get Memory.search Memory.delete block_id sort_all
    sort_by are_comparable read sorted insert_sorted
ada_updated = refl

update-Changes_example :
    (rs : List (Record numbers)) × (validated : Dict ℕ) × (matching memory arithmetic engine_texts
        none "people" named_five none with_ada
      ≡ ok rs)
    × (validate_record numbers with_ada.schema "people" (("age", 36) ∷ []) true ≡ ok validated)
    × AreUpdated engine_texts 9 validated rs updated.records
    × (AreDistinct updated.records
        → All (IsPlain engine_texts) updated.records
        → All (IsFound law arithmetic engine_texts with_ada with_aged) updated.records)
    × ((collection i : String)
        → IsOther (block_id collection i) updated.records
        → get_record memory arithmetic engine_texts none with_aged collection i
          ≡ get_record memory arithmetic engine_texts none with_ada collection i)
update-Changes_example =
    update-Changes law arithmetic engine_texts 9 birthday with_ada with_aged updated ada_updated

abbrev farewell : DeleteOperation numbers
farewell = record { collection = "people"; filters = named_five }

abbrev without_ada : MdcDataEngine memory
without_ada = (delete memory arithmetic engine_texts none farewell with_ada).0

abbrev deleted : OperationResult numbers
deleted = record { kind = "DELETE"; collection = "people"; records = ada_record ∷ []; count = 1 }

ada_deleted :
    delete memory arithmetic engine_texts none farewell with_ada ≡ (without_ada, ok deleted)
unfolding create update delete update_all remove_all remove_record matching open_all matching_of
    matches matches_one new_record validate_record coerce coerce_all missing coercers get_collection
    Dict.get Dict.put Dict.merge Dict.remove Dict.select Dict.keys id_rest has_record put_record
    updated_record Memory.exists Memory.put Memory.get Memory.search Memory.delete block_id sort_all
    sort_by are_comparable read sorted insert_sorted
ada_deleted = refl

delete-Removes_example :
    (matching memory arithmetic engine_texts none "people" named_five none with_ada
      ≡ ok deleted.records)
    × ((collection i : String)
        → has_collection with_ada.schema collection ≡ true
        → get_record memory arithmetic engine_texts none without_ada collection i ≡ (
            if is_one_of law arithmetic engine_texts (block_id collection i) deleted.records
            then ok none
            else get_record memory arithmetic engine_texts none with_ada collection i))
delete-Removes_example =
    delete-Removes law arithmetic engine_texts farewell with_ada without_ada deleted ada_deleted

abbrev by_age : Sort
by_age = record { field = "age"; direction = asc }

abbrev question : ReadOperation numbers
question = record {
  collection = "people";
  filters = named_five;
  sort = by_age ∷ [];
  limit = some 5;
}

abbrev answer : OperationResult numbers
answer = record { kind = "READ"; collection = "people"; records = ada_record ∷ []; count = 1 }

ada_read : read memory arithmetic engine_texts none question with_ada ≡ ok answer
unfolding create update delete update_all remove_all remove_record matching open_all matching_of
    matches matches_one new_record validate_record coerce coerce_all missing coercers get_collection
    Dict.get Dict.put Dict.merge Dict.remove Dict.select Dict.keys id_rest has_record put_record
    updated_record Memory.exists Memory.put Memory.get Memory.search Memory.delete block_id sort_all
    sort_by are_comparable read sorted insert_sorted
ada_read = refl

read-selects_example :
    (p : Record numbers → Bool) × ((r : Record numbers)
      → (p r ≡ true) ↔ All (Meets arithmetic r.fields) named_five)
    × (all : List (Record numbers)) × (t : List (Record numbers)) × (open_all memory arithmetic
          engine_texts none with_ada.storage
          (memory.search with_ada.storage (("collection", "people") ∷ []))
        ≡ ok all)
    × Perm t (keep p all)
    × (◌≡◌ {A = Option ℕ} (some 5) none → answer.records ≡ t)
    × ((n : ℕ) → some 5 ≡ some n → answer.records ≡ take n t)
    × (count memory arithmetic engine_texts none
          (record { collection = "people"; filters = named_five })
          with_ada
        ≡ ok (record {
          kind = "COUNT";
          collection = "people";
          records = [];
          count = length (keep p all);
        }))
read-selects_example = read-selects memory arithmetic engine_texts question with_ada answer ada_read

by_age_sorted : sort_by arithmetic by_age (ada_record ∷ aged ∷ []) ≡ ok (aged ∷ ada_record ∷ [])
unfolding create update delete update_all remove_all remove_record matching open_all matching_of
    matches matches_one new_record validate_record coerce coerce_all missing coercers get_collection
    Dict.get Dict.put Dict.merge Dict.remove Dict.select Dict.keys id_rest has_record put_record
    updated_record Memory.exists Memory.put Memory.get Memory.search Memory.delete block_id sort_all
    sort_by are_comparable read sorted insert_sorted
by_age_sorted = refl

-- the order of the natural numbers
below-IsWeakOrder : IsWeakOrder (key_below arithmetic) (λ n. Unit {0})
below-IsWeakOrder = record {
  asymmetric = λ m n _ _ h. ground arith;
  transitive = λ l m n _ _ _ h k. ground arith;
}

sort_by-IsSorted_example :
    (keyed : List (Record numbers)) × ((aged ∷ ada_record ∷ [])
      ≡ keyed ++ keep (lacks arithmetic by_age) (ada_record ∷ aged ∷ []))
    × Perm keyed (keep (λ r. not (lacks arithmetic by_age r)) (ada_record ∷ aged ∷ []))
    × (asc ≡ asc
        → IsSorted
            (λ r t. key_below arithmetic (key_of arithmetic by_age r) (key_of arithmetic by_age t))
            keyed)
    × (asc ≡ desc
        → IsSorted
            (λ r t. key_below arithmetic (key_of arithmetic by_age t) (key_of arithmetic by_age r))
            keyed)
unfolding Dict.get
sort_by-IsSorted_example =
    sort_by-IsSorted arithmetic (λ n. Unit {0}) by_age (ada_record ∷ aged ∷ [])
      (aged ∷ ada_record ∷ []) below-IsWeakOrder (tt, tt) by_age_sorted

-- a storage that takes one more write
abbrev outage : Outage EngineError
outage = some (1, value_error)

abbrev batch : List (CreateOperation numbers)
batch = ada_operation ∷ record ada_operation { record_id = some "p2" } ∷ []
