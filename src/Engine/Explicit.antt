-- ===== src/Engine/Explicit.antt =====
-- The second and the third loop of `create_many`: no id that was asked for is taken.
use model_db.Prelude.{
  String, ◌≡◌, refl, ◌∙◌, ◌≢◌, inl, inr, Bool, true, false, ◌&&◌, ◌||◌, none, List, [], ◌∷◌, ◌++◌,
  arith, Bool-cases, is_some, keep, ok, >>-eq-ok, str_eq, str_eq_iff, str_eq_refl, sorted,
  insert_sorted,
}
use model_db.Dict
use model_db.Dict.{Dict, get-put}
use model_db.Dict.Keys.{mem}
use model_db.Schema.{Values}
use model_db.Storage.Interface.{StorageBackend}
use model_db.Engine.{Comparisons, Texts, Record, CreateOperation, MdcDataEngine}
use model_db.Engine.Records.{has_record}
use model_db.Engine.Creating.{or_none, noted, explicit_ids, none_existing, check_existing}

mem-append : (i : String) (xs ys : List String) → mem i (xs ++ ys) ≡ (mem i xs || mem i ys)
mem-append i [] ys = refl
mem-append i (j ∷ xs) ys = ground (arith, mem-append i xs ys)

insert_sorted-nil :
    {A : Type 0} (before : A → A → Bool) (a : A) (cs : List A) → insert_sorted before a cs ≢ []
unfolding insert_sorted
insert_sorted-nil before a [] h = cc
insert_sorted-nil before a (c ∷ cs) h = elim (Bool-cases (before c a)) [
  | inl first ↦ cc (rw first at h)
  | inr second ↦ cc (rw second at h)
]

sorted-nil : {A : Type 0} (before : A → A → Bool) (xs : List A) → sorted before xs ≡ [] → xs ≡ []
unfolding sorted
sorted-nil before [] h = refl
sorted-nil before (a ∷ xs) h = absurd (insert_sorted-nil before a (sorted before xs) h)

-- what a selection that is empty says of a listed element
keep-nil :
    (p : String → Bool) (i : String) (ids : List String)
    → keep p ids ≡ []
    → mem i ids ≡ true
    → p i ≡ false
keep-nil p i [] h m = absurd (cc)
keep-nil p i (j ∷ ids) h m = elim (Bool-cases (p j)) [
  | inl kept ↦ absurd (cc (rw kept at h))
  | inr left ↦ elim (Bool-cases (str_eq j i)) [
    | inl same ↦ rw (← (str_eq_iff j i).0 same) left
    | inr other ↦ keep-nil p i ids (rw left at h) (rw other at m)
  ]
]

module _ (b : StorageBackend) {v : Values} (w : Comparisons v) (x : Texts v) where
  abbrev pub listed : Dict (List String) → String → String → Bool
  listed d c i = mem i (or_none b w x none (Dict.get d c))

  listed-put :
      (d : Dict (List String)) (c j c' i : String)
      → listed (Dict.put d c (or_none b w x none (Dict.get d c) ++ (j ∷ []))) c' i
        ≡ (listed d c' i || (str_eq c c' && str_eq j i))
  listed-put d c j c' i = elim (Bool-cases (str_eq c c')) [
    | inl same ↦
        let e : c ≡ c' = (str_eq_iff c c').0 same in
        rw (get-put d c c' (or_none b w x none (Dict.get d c) ++ (j ∷ [])), same)
          (mem-append i (or_none b w x none (Dict.get d c)) (j ∷ []) ∙ rw e (ground arith))
    | inr other ↦
        rw (get-put d c c' (or_none b w x none (Dict.get d c) ++ (j ∷ [])), other) (ground arith)
  ]

  listed-noted :
      (d : Dict (List String)) (op : CreateOperation v) (r : Record v) (c i : String)
      → listed d c i ≡ true
      → listed (noted b w x none d op r) c i ≡ true
  listed-noted d op r c i h = elim (Bool-cases (is_some op.record_id)) [
    | inl asked ↦ rw asked (listed-put d r.collection r.record_id c i ∙ rw h refl)
    | inr free ↦ rw free h
  ]

  noted-listed :
      (d : Dict (List String)) (op : CreateOperation v) (r : Record v)
      → is_some op.record_id ≡ true
      → listed (noted b w x none d op r) r.collection r.record_id ≡ true
  noted-listed d op r asked = rw asked (
      listed-put d r.collection r.record_id r.collection r.record_id
      ∙ ground (arith, str_eq_refl r.collection, str_eq_refl r.record_id))

  -- what is listed stays listed
  listed-explicit_ids :
      (d : Dict (List String)) (operations : List (CreateOperation v)) (rs : List (Record v))
      (c i : String)
      → listed d c i ≡ true
      → listed (explicit_ids b w x none d operations rs) c i ≡ true
  unfolding explicit_ids
  listed-explicit_ids d [] rs c i h = h
  listed-explicit_ids d (op ∷ operations) [] c i h = h
  listed-explicit_ids d (op ∷ operations) (r ∷ rs) c i h =
      listed-explicit_ids (noted b w x none d op r) operations rs c i (listed-noted d op r c i h)

  -- `P` of every record whose id was asked for
  abbrev pub WhereAsked : (Record v → Type 0) → List (CreateOperation v) → List (Record v) → Type 0
  WhereAsked P (op ∷ operations) (r ∷ rs) =
      (is_some op.record_id ≡ true → P r) × WhereAsked P operations rs
  WhereAsked P _ _ = Unit

  explicit_ids-listed :
      (d : Dict (List String)) (operations : List (CreateOperation v)) (rs : List (Record v))
      → WhereAsked
          (λ r. listed (explicit_ids b w x none d operations rs) r.collection r.record_id ≡ true)
          operations
          rs
  unfolding explicit_ids
  explicit_ids-listed d [] rs = tt
  explicit_ids-listed d (op ∷ operations) [] = tt
  explicit_ids-listed d (op ∷ operations) (r ∷ rs) = (
    λ asked.
        listed-explicit_ids (noted b w x none d op r) operations rs r.collection r.record_id
          (noted-listed d op r asked),
    explicit_ids-listed (noted b w x none d op r) operations rs,
  )

  check_existing-Absent :
      (d : Dict (List String)) (s : MdcDataEngine b) (c i : String)
      → check_existing b w x none d s ≡ ok tt
      → listed d c i ≡ true
      → has_record b w x none s c i ≡ false
  unfolding check_existing Dict.get
  check_existing-Absent [] s c i h m = absurd (cc)
  check_existing-Absent ((c0, ids) ∷ d) s c i h m =
      let (none_here, rest) = >>-eq-ok _ _ h in
      elim (Bool-cases (str_eq c0 c)) [
        | inl same ↦ rw (← (str_eq_iff c0 c).0 same) (
            keep-nil (has_record b w x none s c0) i ids
              (sorted-nil x.text_lt _ (nothing c0 _ none_here)) (rw same at m))
        | inr other ↦ check_existing-Absent d s c i rest (rw other at m)
      ]
    where
      nothing : (c : String) (ids : List String) → none_existing b w x none c ids ≡ ok tt → ids ≡ []
      nothing c [] h = refl
      nothing c (i ∷ ids) h = absurd (cc)

  WhereAsked-map :
      (P Q : Record v → Type 0) (operations : List (CreateOperation v)) (rs : List (Record v))
      → ((r : Record v) → P r → Q r)
      → WhereAsked P operations rs
      → WhereAsked Q operations rs
  WhereAsked-map P Q [] rs f h = tt
  WhereAsked-map P Q (op ∷ operations) [] f h = tt
  WhereAsked-map P Q (op ∷ operations) (r ∷ rs) f (h, hs) =
      (λ asked. f r (h asked), WhereAsked-map P Q operations rs f hs)

  -- If the check passes, then no record has an id that was asked for.
  pub check_existing-explicit_ids :
      (operations : List (CreateOperation v)) (rs : List (Record v)) (s : MdcDataEngine b)
      → check_existing b w x none (explicit_ids b w x none [] operations rs) s ≡ ok tt
      → WhereAsked (λ r. has_record b w x none s r.collection r.record_id ≡ false) operations rs
  check_existing-explicit_ids operations rs s h =
      WhereAsked-map _ _ operations rs
        (λ r m.
          check_existing-Absent (explicit_ids b w x none [] operations rs) s r.collection
            r.record_id h m)
        (explicit_ids-listed [] operations rs)
