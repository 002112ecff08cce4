-- ===== src/Engine/Imported.antt =====
-- What `create_many` leaves, whether it refuses, ends, or is broken off by an outage.
use model_db.Prelude.{
  ℕ, ◌≤◌, ◌<◌, String, ◌≡◌, ◌⊎◌, false, none, some, List, [], length, take, All, ok, err,
}
use model_db.Schema.{Values}
use model_db.Engine.{
  EngineError, Comparisons, Texts, Record, CreateOperation, Moment, MdcDataEngine,
}
use model_db.Engine.Records.{block_id, has_record, get_record}
use model_db.Engine.Creating.{new_records, check_repeats, explicit_ids, check_existing, create_many}
use model_db.Engine.Effects.{IsOther}
use model_db.Engine.Created.{IsPlain}
use model_db.Engine.Explicit.{WhereAsked}
use model_db.Engine.Changed.{IsFound}
use model_db.Storage.Interface.{Bytes, StorageBackend, IsLawful, Outage}
use model_db.Engine.Repeats.{AreNamed}

module _ {sha256 : Bytes → String} {b : StorageBackend} (law : IsLawful sha256 b) {v : Values}
    (w : Comparisons v) (x : Texts v) where
  -- what is so once some of the new records, `done`, are written
  abbrev pub AreStored :
      (ℕ → Moment)
      → List (CreateOperation v)
      → MdcDataEngine b
      → MdcDataEngine b
      → List (Record v)
      → List (Record v)
      → Type 0
  AreStored moments operations s s' rs done =
      (new_records b w x none moments 0 operations s ≡ ok rs)
      × WhereAsked b w x (λ r. has_record b w x none s r.collection r.record_id ≡ false) operations
          rs
      × (AreNamed b w x moments → All (IsPlain x) done → All (IsFound law w x s s') done)
      × ((collection i : String)
          → IsOther (block_id collection i) done
          → get_record b w x none s' collection i ≡ get_record b w x none s collection i)

  -- the ways in which `create_many` ends
  abbrev pub IsRefused :
      (ℕ → Moment) → Outage EngineError → List (CreateOperation v) → MdcDataEngine b → Type 0
  IsRefused moments outage operations s =
      (e : EngineError) × (create_many b w x none moments outage operations s ≡ (s, err e))
      × ((new_records b w x none moments 0 operations s ≡ err e)
          ⊎ ((rs : List (Record v)) × (new_records b w x none moments 0 operations s ≡ ok rs)
              × ((check_repeats b w x none [] rs ≡ err e)
                  ⊎ (check_existing b w x none (explicit_ids b w x none [] operations rs) s
                      ≡ err e))))

  abbrev pub IsDone :
      (ℕ → Moment) → Outage EngineError → List (CreateOperation v) → MdcDataEngine b → Type 0
  IsDone moments outage operations s =
      (s' : MdcDataEngine b) × (rs : List (Record v)) × (create_many b w x none moments outage
          operations s
        ≡ (s', ok rs))
      × ((n : ℕ) (e : EngineError) → outage ≡ some (n, e) → length rs ≤ n)
      × AreStored moments operations s s' rs rs

  abbrev pub IsBroken :
      (ℕ → Moment) → Outage EngineError → List (CreateOperation v) → MdcDataEngine b → Type 0
  IsBroken moments outage operations s =
      (s' : MdcDataEngine b) × (rs : List (Record v)) × (n : ℕ) × (e : EngineError) × (outage
        ≡ some (n, e))
      × (n < length rs)
      × (create_many b w x none moments outage operations s ≡ (s', err e))
      × AreStored moments operations s s' rs (take n rs)
