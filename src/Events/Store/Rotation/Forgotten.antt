-- ===== src/Events/Store/Rotation/Forgotten.antt =====
-- A rotation with no stream left does not write the key check again.
use model_db.Prelude.{
  ℕ, String, ◌≡◌, refl, sym, ◌∙◌, Bool, true, false, [], length, list_eq, Result, ok, err,
}
use model_db.Storage.Interface.{Bytes, StorageBackend, Outage}
use model_db.Events.Errors.{EventError, wrong_key, stream_corrupt}
use model_db.Events.Store.{Environment, EventStore}
use model_db.Events.Store.Listing.{list_streams_in}
use model_db.Events.Store.Writing.{open_keycheck, check_key}
use model_db.Events.Store.Requests.{keycheck_id, rename_corrupt}
use model_db.Events.Store.Rotation.{
  finished_under, is_open, plan_streams, write_plan, write_check, carry_out, rotate_key,
}

-- the object of a process that starts later, on the same storage, with this key
abbrev pub reopened : {b : StorageBackend} → b.Store → Bytes → EventStore b
reopened s master = record { storage = s; master = master; key_verified = false; tails = [] }

rename_corrupt-unopened :
    (r : Result EventError Bytes) → is_open r ≡ ok false → rename_corrupt r ≡ err wrong_key
rename_corrupt-unopened (ok _) h = absurd (cc)
rename_corrupt-unopened (err (stream_corrupt _)) h = refl
rename_corrupt-unopened (err _) h = absurd (cc)

module _ (b : StorageBackend) (e : Environment) (now : ℕ) (nonces : String → Bytes)
    (outage : Outage EventError) where
  -- a key check that does not open under the key is the wrong key
  check_key-unopened :
      (s : EventStore b) (first : Bool)
      → s.key_verified ≡ false
      → b.exists s.storage keycheck_id ≡ true
      → is_open (open_keycheck b e s.master s) ≡ ok false
      → (check_key b e now nonces first s).1 ≡ err wrong_key
  unfolding check_key
  check_key-unopened s first fresh there shut =
      rw (fresh, there, rename_corrupt-unopened _ shut) refl

  finished_under-there :
      (s : EventStore b) (master : Bytes)
      → b.exists s.storage keycheck_id ≡ true
      → finished_under b e master s ≡ is_open (open_keycheck b e master s)
  unfolding finished_under
  finished_under-there s master there = rw there refl

  rotated :
      (s : EventStore b) (new_master : Bytes)
      → length new_master ≡ 32
      → list_eq new_master s.master ≡ false
      → s.key_verified ≡ true
      → list_streams_in b e s.storage ≡ []
      → finished_under b e new_master s ≡ ok false
      → rotate_key b e now nonces outage new_master s ≡ (
        record s { master = new_master; key_verified = true; tails = [] },
        ok (record { streams = 0; records = 0; already_current = 0 }),
      )
  unfolding rotate_key check_key plan_streams carry_out write_plan write_check
  rotated s new_master sized other verified' no_streams shut =
      rw (sized, other, shut, no_streams, verified') refl

  -- If the store has its own key verified, and its database holds a key check and no stream any more,
  -- and the key check does not open under a new key of 32 bytes that differs from the old one, then a
  -- rotation to that key succeeds, with nothing to do; and whoever opens the same storage later with
  -- the new key, as the rotation asks, is told that the key is wrong.
  pub rotate_key-forgets_keycheck :
      (s : EventStore b) (new_master : Bytes) (first : Bool)
      → length new_master ≡ 32
      → list_eq new_master s.master ≡ false
      → s.key_verified ≡ true
      → list_streams_in b e s.storage ≡ []
      → b.exists s.storage keycheck_id ≡ true
      → finished_under b e new_master s ≡ ok false
      → ((rotate_key b e now nonces outage new_master s).1
          ≡ ok (record { streams = 0; records = 0; already_current = 0 }))
        × ((rotate_key b e now nonces outage new_master s).0.master ≡ new_master)
        × ((check_key b e now nonces first
              (reopened (rotate_key b e now nonces outage new_master s).0.storage new_master)).1
            ≡ err wrong_key)
  rotate_key-forgets_keycheck s new_master first sized other verified' no_streams there shut =
      let shut' : is_open (open_keycheck b e new_master s) ≡ ok false =
        sym (finished_under-there s new_master there) ∙ shut in
      let done = rotated s new_master sized other verified' no_streams shut in
      rw done
        (refl, refl, check_key-unopened (reopened s.storage new_master) first refl there shut')
