-- ===== src/Engine/Sorted.antt =====
-- What a sort and a filter of engine/data_engine.py leave of the records.
use mathlib.Core.List.{Perm, perm_middle}
use mathlib.Core.List.Perm
use model_db.Prelude.{
  ◌≡◌, refl, sym, inl, inr, Bool, false, not, List, [], ◌∷◌, ◌++◌, Bool-cases, keep, All, ok, err,
  >>=-eq-ok, ok-injective, sorted, sorted-Perm, sorted-IsSorted, IsSorted, IsWeakOrder,
}
use model_db.Schema.{Values}
use model_db.Engine.{Comparisons, Sort, Filter, Record, Direction, asc, desc}
use model_db.Engine.Filters.{
  matches, matching_of, lacks, key_of, is_true, in_direction, comes_before, are_comparable, sort_by,
  sort_all,
}

keep-Perm :
    {A : Type 0} (p : A → Bool) (xs : List A) → Perm (keep (λ a. not (p a)) xs ++ keep p xs) xs
keep-Perm p [] = Perm.nil
keep-Perm p (a ∷ xs) = elim (Bool-cases (p a)) [
  | inl kept ↦ rw kept (
      Perm.trans (perm_middle (keep (λ c. not (p c)) xs) (keep p xs))
        (Perm.cons a (keep-Perm p xs)))
  | inr left ↦ rw left (Perm.cons a (keep-Perm p xs))
]

module _ {v : Values} (w : Comparisons v) where
  sort_by-Perm :
      (s : Sort) (rs : List (Record v)) (t : List (Record v)) → sort_by w s rs ≡ ok t → Perm t rs
  unfolding sort_by
  sort_by-Perm s rs t h =
      let non_null = keep (λ r. not (lacks w s r)) rs in
      elim (Bool-cases (are_comparable w s non_null)) [
        | inl alike ↦
            let same : sorted (comes_before w s) non_null ++ keep (lacks w s) rs ≡ t =
              ok-injective (rw alike at h) in
            rw (← same) (
              Perm.trans
                (Perm.append_right (keep (lacks w s) rs) (sorted-Perm (comes_before w s) non_null))
                (keep-Perm (lacks w s) rs))
        | inr unlike ↦ absurd (cc (rw unlike at h))
      ]

  pub sort_all-Perm :
      (sorts : List Sort) (rs : List (Record v)) (t : List (Record v))
      → sort_all w sorts rs ≡ ok t
      → Perm t rs
  unfolding sort_all
  sort_all-Perm [] rs t h = rw (ok-injective h) (Perm.refl t)
  sort_all-Perm (s ∷ sorts) rs t h =
      let (u, first, last) = >>=-eq-ok (sort_all w sorts rs) _ h in
      Perm.trans (sort_by-Perm s u t last) (sort_all-Perm sorts rs u first)

  -- a record that passes every filter
  abbrev pub passes : List (Filter v) → Record v → Bool
  passes filters r = elim (matches w r.fields filters) [ err _ ↦ false | ok hit ↦ hit ]

  pub matching_of-keep :
      (filters : List (Filter v)) (rs t : List (Record v))
      → matching_of w filters rs ≡ ok t
      → t ≡ keep (passes filters) rs
  unfolding matching_of
  matching_of-keep filters [] t h = sym (ok-injective h)
  matching_of-keep filters (r ∷ rs) t h =
      let (hit, first, h1) = >>=-eq-ok (matches w r.fields filters) _ h in
      let (rest, next, last) = >>=-eq-ok (matching_of w filters rs) _ h1 in
      let hit_eq : passes filters r ≡ hit = rw (first, passes) refl in
      rw (hit_eq, ← matching_of-keep filters rs rest next) (sym (ok-injective last))

  -- `a < c` on keys, where it does not raise
  abbrev pub key_below : v.Value → v.Value → Bool
  key_below a c = is_true w (w.below a c)

  in_direction-IsWeakOrder :
      (P : v.Value → Type 0) (direction : Direction)
      → IsWeakOrder key_below P
      → IsWeakOrder (in_direction w direction) P
  in_direction-IsWeakOrder P asc o = record { asymmetric = o.asymmetric; transitive = o.transitive }
  in_direction-IsWeakOrder P desc o = record {
    asymmetric = λ a c pa pc h. o.asymmetric c a pc pa h;
    transitive = λ a c d pa pc pd h k. o.transitive d c a pd pc pa k h;
  }

  -- a list in the order of `in_direction`, read in the order of the keys
  in_order :
      (key : Record v → v.Value) (direction : Direction) (rs : List (Record v))
      → IsSorted (λ r t. in_direction w direction (key r) (key t)) rs
      → (direction ≡ asc → IsSorted (λ r t. key_below (key r) (key t)) rs)
        × (direction ≡ desc → IsSorted (λ r t. key_below (key t) (key r)) rs)
  in_order key asc rs h = (λ _. h, λ other. absurd (cc))
  in_order key desc rs h = (λ other. absurd (cc), λ _. h)

  -- If a sort by one key returns, and `<` is a weak order on the keys that there are, then it
  -- gives the records that have a key, and after them those that have none, as they came: for ASC
  -- no key in front is followed by a key that is below it, for DESC none by a key that it is below.
  pub sort_by-IsSorted :
      (P : v.Value → Type 0) (s : Sort) (rs t : List (Record v))
      → IsWeakOrder key_below P
      → All (λ r. P (key_of w s r)) (keep (λ r. not (lacks w s r)) rs)
      → sort_by w s rs ≡ ok t
      → (keyed : List (Record v)) × (t ≡ keyed ++ keep (lacks w s) rs)
        × Perm keyed (keep (λ r. not (lacks w s r)) rs)
        × (s.direction ≡ asc → IsSorted (λ r u. key_below (key_of w s r) (key_of w s u)) keyed)
        × (s.direction ≡ desc → IsSorted (λ r u. key_below (key_of w s u) (key_of w s r)) keyed)
  unfolding sort_by
  sort_by-IsSorted P s rs t o kinds h =
      let non_null = keep (λ r. not (lacks w s r)) rs in
      let weak = in_direction-IsWeakOrder P s.direction o in
      elim (Bool-cases (are_comparable w s non_null)) [
        | inl alike ↦
            let (rising, falling) =
              in_order (key_of w s) s.direction (sorted (comes_before w s) non_null) (
                sorted-IsSorted (comes_before w s) (λ r. P (key_of w s r))
                  (record {
                    asymmetric = λ a c. weak.asymmetric (key_of w s a) (key_of w s c);
                    transitive =
                        λ a c d. weak.transitive (key_of w s a) (key_of w s c) (key_of w s d);
                  })
                  non_null kinds) in
            (
              sorted (comes_before w s) non_null,
              sym (ok-injective (rw alike at h)),
              sorted-Perm (comes_before w s) non_null,
              rising,
              falling,
            )
        | inr unlike ↦ absurd (cc (rw unlike at h))
      ]
