-- ===== src/Engine/Repeats.antt =====
-- The ids of the records of `create_many`: none of those made up has a colon, and none repeats.
use model_db.Prelude.{
  ℕ, suc, String, ◌≡◌, sym, inl, inr, false, Option, none, some, List, [], ◌∷◌, arith, Bool-cases,
  All, ok, >>=-eq-ok, ok-injective, str_eq, str_eq_iff, codes, is_id,
}
use model_db.Schema.{Values}
use model_db.Engine.{Comparisons, Texts, Record, CreateOperation, Moment, MdcDataEngine}
use model_db.Engine.Creating.{
  generate_record_id, chosen_id, new_record, new_records, is_seen, check_repeats,
}
use model_db.Engine.Effects.{id_of, IsOther, AreDistinct}
use model_db.Engine.Created.{new_record-fields, chosen_id-some}
use model_db.Storage.Interface.{StorageBackend}
use model_db.Engine.Names.{has_colon, block_id_injective, is_id-NoColon}

-- the id of the record has no colon
abbrev pub HasName : {v : Values} → Record v → Type 0
HasName r = has_colon (codes r.record_id) ≡ false

module _ (b : StorageBackend) {v : Values} (w : Comparisons v) (x : Texts v) where
  -- no id that is made up has a colon
  abbrev pub AreNamed : (ℕ → Moment) → Type 0
  AreNamed moments =
      (n : ℕ) (collection : String)
      → has_colon (codes (generate_record_id b w x none (moments n) collection)) ≡ false

  chosen_id-NoColon :
      (m : Moment) (collection : String) (given : Option String) (i : String)
      → has_colon (codes (generate_record_id b w x none m collection)) ≡ false
      → chosen_id b w x none m collection given ≡ ok i
      → has_colon (codes i) ≡ false
  chosen_id-NoColon m collection none i h e = rw (← ok-injective e) h
  chosen_id-NoColon m collection (some j) i h e = elim (Bool-cases (is_id (codes j))) [
    | inl good ↦ rw (chosen_id-some b w x m collection j i e) (is_id-NoColon (codes j) good)
    | inr bad ↦ absurd (cc (rw bad at e))
  ]

  pub new_records-HasName :
      (moments : ℕ → Moment) (n : ℕ) (operations : List (CreateOperation v)) (s : MdcDataEngine b)
      (rs : List (Record v))
      → AreNamed moments
      → new_records b w x none moments n operations s ≡ ok rs
      → All HasName rs
  unfolding new_records
  new_records-HasName moments n [] s rs named h = rw (← ok-injective h) tt
  new_records-HasName moments n (op ∷ operations) s rs named h =
      let (r, made, h1) = >>=-eq-ok (new_record b w x none (moments n) op s) _ h in
      let (rest, more, h2) = >>=-eq-ok (new_records b w x none moments (suc n) operations s) _ h1 in
      let fields = new_record-fields b w x (moments n) op s r made in
      rw (← ok-injective h2) (
        chosen_id-NoColon (moments n) op.collection op.record_id r.record_id (named n op.collection)
            fields.3,
        new_records-HasName moments (suc n) operations s rest named more,
      )

  unseen :
      (key : String × String) (seen : List (String × String)) (rs : List (Record v))
      → All (λ r. is_seen b w x none (key ∷ seen) r ≡ false) rs
      → All (λ r. is_seen b w x none seen r ≡ false) rs
  unseen key seen [] h = tt
  unseen key seen (r ∷ rs) (h, hs) = (ground arith, unseen key seen rs hs)

  -- what passes the check of repeats repeats nothing that was seen
  check_repeats-unseen :
      (seen : List (String × String)) (rs : List (Record v))
      → check_repeats b w x none seen rs ≡ ok tt
      → All (λ r. is_seen b w x none seen r ≡ false) rs
  unfolding check_repeats
  check_repeats-unseen seen [] h = tt
  check_repeats-unseen seen (r ∷ rs) h = elim (Bool-cases (is_seen b w x none seen r)) [
    | inl again ↦ absurd (cc (rw again at h))
    | inr first ↦ (
      first,
      unseen (r.collection, r.record_id) seen rs
          (check_repeats-unseen ((r.collection, r.record_id) ∷ seen) rs (rw first at h)),
    )
  ]

  IsOther-unseen :
      (r : Record v) (seen : List (String × String)) (rs : List (Record v))
      → HasName r
      → All HasName rs
      → All (λ t. is_seen b w x none ((r.collection, r.record_id) ∷ seen) t ≡ false) rs
      → IsOther (id_of r) rs
  IsOther-unseen r seen [] name names h = tt
  IsOther-unseen r seen (t ∷ rs) name (named, names) (h, hs) = (
    elim (Bool-cases (str_eq (id_of t) (id_of r))) [
      | inr other ↦ other
      | inl same ↦
          let both =
            block_id_injective r.collection t.collection r.record_id t.record_id name named
              (sym ((str_eq_iff (id_of t) (id_of r)).0 same)) in
          absurd (
            ground (
              arith,
              h,
              (str_eq_iff r.collection t.collection).1 both.0,
              (str_eq_iff r.record_id t.record_id).1 both.1,
            ))
    ],
    IsOther-unseen r seen rs name names hs,
  )

  pub check_repeats-AreDistinct :
      (seen : List (String × String)) (rs : List (Record v))
      → All HasName rs
      → check_repeats b w x none seen rs ≡ ok tt
      → AreDistinct rs
  unfolding check_repeats
  check_repeats-AreDistinct seen [] names h = tt
  check_repeats-AreDistinct seen (r ∷ rs) (name, names) h =
      elim (Bool-cases (is_seen b w x none seen r)) [
        | inl again ↦ absurd (cc (rw again at h))
        | inr first ↦
            let later : check_repeats b w x none ((r.collection, r.record_id) ∷ seen) rs ≡ ok tt =
              rw first at h in
            (
              IsOther-unseen r seen rs name names
                  (check_repeats-unseen ((r.collection, r.record_id) ∷ seen) rs later),
              check_repeats-AreDistinct ((r.collection, r.record_id) ∷ seen) rs names later,
            )
      ]
