-- ===== src/Events/Store/Rotation/Stopped.antt =====
-- What a change of key that raises has written.
use model_db.Prelude.{
  ℕ, ◌≤◌, String, ◌≡◌, refl, ap, ◌∙◌, ◌⊎◌, inl, inr, Bool, true, false, some, List, [], ◌==◌,
  Bool-cases, length, take, list_eq, Result, ok, err, Result-cases, resume,
}
use model_db.Storage.Interface.{Bytes, StorageBackend, Outage}
use model_db.Events.Errors.{EventError}
use model_db.Events.Store.{Environment, EventStore}
use model_db.Events.Store.Listing.{list_streams_in}
use model_db.Events.Store.Requests.{keycheck_id, rename_corrupt}
use model_db.Events.Store.Writing.{verified, open_keycheck, check_key}
use model_db.Events.Store.Rotation.{
  Plan, finished_under, plan_streams, plan_and_write, rotate_from, rotate_key,
}
use model_db.Events.Store.Rotation.Interrupted.{Keeps, raised, written, IsPartly, carry_out-raises}

module _ (b : StorageBackend) (e : Environment) (now : ℕ) (nonces : String → Bytes) where
  verified-Keeps :
      (s : EventStore b) (r : Result EventError Bytes) → Keeps b e now nonces s (verified b e s r).0
  verified-Keeps s (ok _) = (refl, refl)
  verified-Keeps s (err _) = (refl, refl)

  -- the check of the key writes nothing, if it is not for a first stream
  check_key-Keeps : (s : EventStore b) → Keeps b e now nonces s (check_key b e now nonces false s).0
  unfolding check_key
  check_key-Keeps s = elim (Bool-cases s.key_verified) [
    | inl sure ↦ rw sure (refl, refl)
    | inr unsure ↦ elim (Bool-cases (b.exists s.storage keycheck_id)) [
      | inl there ↦
          rw (unsure, there)
            (verified-Keeps (record s { key_verified = false })
              (rename_corrupt (open_keycheck b e s.master s)))
      | inr absent ↦ rw (unsure, absent) (refl, refl)
    ]
  ]

  -- what a rotation that raises leaves: the storage as it was, or the plan in part
  abbrev pub IsStopped :
      Bytes
      → Bytes
      → List (String × ℕ)
      → EventStore b
      → EventStore b
      → Outage EventError
      → EventError
      → Type 0
  IsStopped old_master new_master streams s s' outage x =
      Keeps b e now nonces s s'
      ⊎ ((plan : Plan) × (plan_streams b e now nonces old_master new_master s.storage ([], 0)
              streams
            ≡ ok plan)
          × IsPartly b e now nonces s s' outage plan.0 x)

  module _ (old_master new_master : Bytes) (streams : List (String × ℕ))
      (outage : Outage EventError) (s s' : EventStore b) (x : EventError) where
    plan_and_write-IsStopped :
        plan_and_write b e now nonces old_master new_master outage streams s ≡ (s', err x)
        → IsStopped old_master new_master streams s s' outage x
    plan_and_write-IsStopped h =
        elim (Result-cases
          (plan_streams b e now nonces old_master new_master s.storage ([], 0) streams)) [
            | inl (plan, made) ↦ inr (
              plan,
              made,
              carry_out-raises b e now nonces old_master new_master outage streams plan s s' x
                  (rw made at h),
            )
            | inr (f, failed) ↦ inl (raised b e now nonces s s' (rw failed at h))
          ]

  rotate_from-IsStopped :
      (old_master new_master : Bytes) (streams : List (String × ℕ)) (outage : Outage EventError)
      (finished : Bool) (s s' : EventStore b) (x : EventError)
      → rotate_from b e now nonces old_master new_master outage streams finished s ≡ (s', err x)
      → IsStopped old_master new_master streams s s' outage x
  rotate_from-IsStopped old_master new_master streams outage true s s' x h = absurd (cc)
  rotate_from-IsStopped old_master new_master streams outage false s s' x h =
      checked (check_key b e now nonces false s) (check_key-Keeps s) h
    where
      checked :
          (p : EventStore b × Result EventError (Unit {0}))
          → Keeps b e now nonces s p.0
          → resume (λ _. plan_and_write b e now nonces old_master new_master outage streams) p
            ≡ (s', err x)
          → IsStopped old_master new_master streams s s' outage x
      checked (t, ok _) (stored, kept) g =
          elim (plan_and_write-IsStopped old_master new_master streams outage t s' x g) [
            | inl (stored', kept') ↦ inl (stored' ∙ stored, kept' ∙ kept)
            | inr (plan, made, part) ↦
                let (n, begun, few, stored', kept') = part in
                inr (
                  plan,
                  rw (← stored) made,
                  (
                    n,
                    begun,
                    few,
                    stored' ∙ ap (written b e now nonces (take n plan.0)) stored,
                    kept' ∙ kept,
                  ),
                )
          ]
      checked (t, err f) (stored, kept) g =
          let (stored', kept') = raised b e now nonces t s' g in
          inl (stored' ∙ stored, kept' ∙ kept)

  rotate_key-IsStopped :
      (s s' : EventStore b) (outage : Outage EventError) (new_master : Bytes) (x : EventError)
      → rotate_key b e now nonces outage new_master s ≡ (s', err x)
      → IsStopped s.master new_master (list_streams_in b e s.storage) s s' outage x
  unfolding rotate_key
  rotate_key-IsStopped s s' outage new_master x h = elim (Bool-cases (length new_master == 32)) [
    | inr short ↦ inl (raised b e now nonces s s' (rw (rotate_key, short) at h))
    | inl sized ↦ elim (Bool-cases (list_eq new_master s.master)) [
      | inl same ↦ inl (raised b e now nonces s s' (rw (rotate_key, sized, same) at h))
      | inr other ↦ elim (Result-cases (finished_under b e new_master s)) [
        | inr (f, failed) ↦
            inl (raised b e now nonces s s' (rw (rotate_key, sized, other, failed) at h))
        | inl (finished, found) ↦
            rotate_from-IsStopped s.master new_master (list_streams_in b e s.storage) outage
              finished s s' x (rw (rotate_key, sized, other, found) at h)
      ]
    ]
  ]

  -- A rotation that raises goes on with the old key. It leaves the storage as it was; or the plan was
  -- made, which opens and seals every record, and a write raised: then it was the write at which the
  -- outage of the storage begins, and the storage has the writes of the plan before it, in order, and
  -- no others. So without an outage, a rotation that raises has written nothing.
  pub rotate_key-Keeps :
      (s s' : EventStore b) (outage : Outage EventError) (new_master : Bytes) (x : EventError)
      → rotate_key b e now nonces outage new_master s ≡ (s', err x)
      → (s'.master ≡ s.master)
        × ((s'.storage ≡ s.storage)
            ⊎ ((plan : Plan) × (n : ℕ) × (plan_streams b e now nonces s.master new_master s.storage
                    ([], 0)
                    (list_streams_in b e s.storage)
                  ≡ ok plan)
                × (outage ≡ some (n, x))
                × (n ≤ length plan.0)
                × (s'.storage ≡ written b e now nonces (take n plan.0) s.storage)))
  rotate_key-Keeps s s' outage new_master x h =
      elim (rotate_key-IsStopped s s' outage new_master x h) [
        | inl (stored, kept) ↦ (kept, inl stored)
        | inr (plan, made, part) ↦
            let (n, begun, few, stored, kept) = part in
            (kept, inr (plan, n, made, begun, few, stored))
      ]
