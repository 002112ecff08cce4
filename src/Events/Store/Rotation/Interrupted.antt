-- ===== src/Events/Store/Rotation/Interrupted.antt =====
-- What the writes of a change of key leave when one of them raises.
use model_db.Prelude.{
  ℕ, zero, suc, ◌+◌, ◌≤◌, String, ◌≡◌, refl, sym, ap, ◌∙◌, Bool, true, false, not, none, some, List,
  [], ◌∷◌, arith, ◌==◌, some_injective, length, take, Result, ok, err, ok-injective, resume,
}
use model_db.Storage.Interface.{Bytes, StorageBackend, Outage}
use model_db.Events.Errors.{EventError}
use model_db.Events.Store.{Environment, EventStore}
use model_db.Events.Store.Rotation.{Planned, Plan, write_plan, write_check, finish, carry_out}

take-all : {A : Type 0} (xs : List A) → take (length xs) xs ≡ xs
take-all [] = refl
take-all (x ∷ xs) = ap (λ t. x ∷ t) (take-all xs)

module _ (b : StorageBackend) (e : Environment) (now : ℕ) (nonces : String → Bytes) where
  -- what a call must leave: the blocks and the key
  abbrev pub Keeps : EventStore b → EventStore b → Type 0
  Keeps s s' = (s'.storage ≡ s.storage) × (s'.master ≡ s.master)

  pub raised :
      {R : Type 0} (s s' : EventStore b) {f x : EventError}
      → ◌≡◌ {A = EventStore b × Result EventError R} (s, err f) (s', err x)
      → Keeps s s'
  raised s s' h = (ap (λ p. p.0.storage) (sym h), ap (λ p. p.0.master) (sym h))

  -- the storage after the writes of a plan
  abbrev pub written : List Planned → b.Store → b.Store
  written [] s = s
  written ((x, meta, sealed) ∷ plan) s = written plan (b.put s now x sealed meta).0

  -- the writes of a plan before the outage, and none after it
  abbrev pub IsPartly :
      EventStore b → EventStore b → Outage EventError → List Planned → EventError → Type 0
  IsPartly s s' outage plan x =
      (n : ℕ) × (outage ≡ some (n, x))
      × (n ≤ length plan)
      × (s'.storage ≡ written (take n plan) s.storage)
      × (s'.master ≡ s.master)

  module _ (old_master new_master : Bytes) where
    -- `write_plan` raises where the outage begins
    write_plan-raises :
        (outage : Outage EventError) (plan : List Planned) (s s' : EventStore b) (x : EventError)
        → write_plan b e now nonces old_master new_master outage plan s ≡ (s', err x)
        → IsPartly s s' outage plan x
    unfolding write_plan
    write_plan-raises outage [] s s' x h = absurd (cc)
    write_plan-raises none ((i, meta, sealed) ∷ plan) s s' x h =
        let part = write_plan-raises none plan _ s' x h in let begun = part.1 in absurd (cc)
    write_plan-raises (some (zero, f)) ((i, meta, sealed) ∷ plan) s s' x h =
        let (stored, kept) = raised s s' h in (0, cc, omega arith, stored, kept)
    write_plan-raises (some (suc n, f)) ((i, meta, sealed) ∷ plan) s s' x h =
        let (k, begun, few, stored, kept) = write_plan-raises (some (n, f)) plan _ s' x h in
        (suc k, cc, omega (arith, few), stored, kept)

    -- `write_plan` that gets to the end has written the plan
    write_plan-written :
        (outage rest : Outage EventError) (plan : List Planned) (s s' : EventStore b)
        → write_plan b e now nonces old_master new_master outage plan s ≡ (s', ok rest)
        → (s'.storage ≡ written plan s.storage)
          × (s'.master ≡ s.master)
          × ((n : ℕ) (x : EventError) → rest ≡ some (n, x) → outage ≡ some (length plan + n, x))
    unfolding write_plan
    write_plan-written outage rest [] s s' h = (
      ap (λ q. q.0.storage) (sym h),
      ap (λ q. q.0.master) (sym h),
      λ n x left. ok-injective (ap (λ q. q.1) h) ∙ left ∙ ap (λ k. some (k, x)) (omega arith),
    )
    write_plan-written none rest ((i, meta, sealed) ∷ plan) s s' h =
        let (stored, kept, later) = write_plan-written none rest plan _ s' h in
        (stored, kept, λ n x left. let never = later n x left in absurd (cc))
    write_plan-written (some (zero, f)) rest ((i, meta, sealed) ∷ plan) s s' h = absurd (cc)
    write_plan-written (some (suc n, f)) rest ((i, meta, sealed) ∷ plan) s s' h =
        let (stored, kept, later) = write_plan-written (some (n, f)) rest plan _ s' h in
        (
          stored,
          kept,
          λ k x left.
              let both = some_injective (later k x left) in
              rw (← ap (λ q. q.1) both) (ap (λ m. some (m, f)) (omega (arith, ap (λ q. q.0) both))),
        )

    -- after the plan, only the write of the key check raises
    write_check-raises :
        (outage : Outage EventError) (streams : List (String × ℕ)) (writes : Bool) (plan : Plan)
        (s s' : EventStore b) (x : EventError)
        → resume
            (λ _. finish b e now nonces old_master new_master streams plan)
            (write_check b e now nonces old_master new_master outage writes s)
          ≡ (s', err x)
        → (outage ≡ some (0, x)) × Keeps s s'
    unfolding write_check
    write_check-raises outage streams false plan s s' x h = absurd (cc)
    write_check-raises none streams true plan s s' x h = absurd (cc)
    write_check-raises (some (zero, f)) streams true plan s s' x h = (cc, raised s s' h)
    write_check-raises (some (suc n, f)) streams true plan s s' x h = absurd (cc)

    pub carry_out-raises :
        (outage : Outage EventError) (streams : List (String × ℕ)) (plan : Plan)
        (s s' : EventStore b) (x : EventError)
        → carry_out b e now nonces old_master new_master outage streams plan s ≡ (s', err x)
        → IsPartly s s' outage plan.0 x
    unfolding carry_out
    carry_out-raises outage streams plan s s' x h =
        from (write_plan b e now nonces old_master new_master outage plan.0 s) refl h
      where
        from :
            (p : EventStore b × Result EventError (Outage EventError))
            → write_plan b e now nonces old_master new_master outage plan.0 s ≡ p
            → resume
                (λ rest t.
                  resume
                    (λ _. finish b e now nonces old_master new_master streams plan)
                    (write_check b e now nonces old_master new_master rest
                      (not (length streams == 0))
                      t))
                p
              ≡ (s', err x)
            → IsPartly s s' outage plan.0 x
        from (t, err f) done g =
            let (stored, kept) = raised t s' g in
            let (n, begun, few, stored', kept') = write_plan-raises outage plan.0 s t f done in
            (n, cc, few, stored ∙ stored', kept ∙ kept')
        from (t, ok rest) done g =
            let (begun, same) =
              write_check-raises rest streams (not (length streams == 0)) plan t s' x g in
            let (stored, kept) = same in
            let (stored', kept', later) = write_plan-written outage rest plan.0 s t done in
            (
              length plan.0,
              later 0 x begun ∙ ap (λ n. some (n, x)) (omega arith),
              omega arith,
              stored ∙ stored' ∙ ap (λ l. written l s.storage) (sym (take-all plan.0)),
              kept ∙ kept',
            )
