-- ===== src/Prelude/Sorting.antt =====
-- Python's stable `sorted`, by insertion for a strict order, and what it leaves.
use mathlib.Core.Path.{◌≡◌}
use mathlib.Core.Logic.{inl, inr}
use mathlib.Core.Bool.{Bool, true, false}
use mathlib.Core.List.{List, [], ◌∷◌, Perm}
use mathlib.Core.List.Perm
use model_db.Prelude.Tests.{if◌then◌else◌, Bool-cases}
use model_db.Prelude.Lists.{All}

module _ {A : Type 0} (before : A → A → Bool) where
  unfoldable pub insert_sorted : A → List A → List A
  insert_sorted a [] = a ∷ []
  insert_sorted a (c ∷ cs) =
      let rest = insert_sorted a cs in if before c a then c ∷ rest else a ∷ c ∷ cs

  unfoldable pub sorted : List A → List A
  sorted [] = []
  sorted (a ∷ as_) = insert_sorted a (sorted as_)

  insert_sorted-Perm : (a : A) (cs : List A) → Perm (insert_sorted a cs) (a ∷ cs)
  unfolding insert_sorted
  insert_sorted-Perm a [] = Perm.refl (a ∷ [])
  insert_sorted-Perm a (c ∷ cs) = elim (Bool-cases (before c a)) [
    | inl first ↦ rw first (Perm.trans (Perm.cons c (insert_sorted-Perm a cs)) (Perm.swap a c cs))
    | inr second ↦ rw second (Perm.refl (a ∷ c ∷ cs))
  ]

  -- A sorted list has the elements of the given one.
  pub sorted-Perm : (as_ : List A) → Perm (sorted as_) as_
  unfolding sorted
  sorted-Perm [] = Perm.nil
  sorted-Perm (a ∷ as_) =
      Perm.trans (insert_sorted-Perm a (sorted as_)) (Perm.cons a (sorted-Perm as_))

  -- no element is followed by one that comes before it
  abbrev pub IsSorted : List A → Type 0
  IsSorted [] = Unit
  IsSorted (a ∷ as_) = All (λ c. before c a ≡ false) as_ × IsSorted as_

module _ {A : Type 0} (before : A → A → Bool) (P : A → Type 0) where
  All-insert_sorted : (a : A) (xs : List A) → P a → All P xs → All P (insert_sorted before a xs)
  unfolding insert_sorted
  All-insert_sorted a [] p _ = (p, tt)
  All-insert_sorted a (x ∷ xs) p (q, qs) = elim (Bool-cases (before x a)) [
    | inl first ↦ rw first (q, All-insert_sorted a xs p qs)
    | inr second ↦ rw second (p, (q, qs))
  ]

  pub All-sorted : (xs : List A) → All P xs → All P (sorted before xs)
  unfolding sorted
  All-sorted [] _ = tt
  All-sorted (x ∷ xs) (p, ps) = All-insert_sorted x (sorted before xs) p (All-sorted xs ps)

-- what a sort needs of its order, among the elements that it sorts
pub record IsWeakOrder {A : Type 0} (before : A → A → Bool) (P : A → Type 0) : Type 0 where
  pub asymmetric : (a c : A) → P a → P c → before a c ≡ true → before c a ≡ false
  pub transitive :
      (a c d : A) → P a → P c → P d → before a c ≡ false → before c d ≡ false → before a d ≡ false

module _ {A : Type 0} (before : A → A → Bool) (P : A → Type 0) (w : IsWeakOrder before P) where
  All-before :
      (a c : A) (cs : List A)
      → P a
      → P c
      → All P cs
      → before c a ≡ false
      → All (λ d. before d c ≡ false) cs
      → All (λ d. before d a ≡ false) cs
  All-before a c [] pa pc _ h _ = tt
  All-before a c (d ∷ ds) pa pc (pd, pds) h (q, qs) =
      (w.transitive d c a pd pc pa q h, All-before a c ds pa pc pds h qs)

  insert_sorted-IsSorted :
      (a : A) (cs : List A)
      → P a
      → All P cs
      → IsSorted before cs
      → IsSorted before (insert_sorted before a cs)
  unfolding insert_sorted
  insert_sorted-IsSorted a [] pa _ _ = (tt, tt)
  insert_sorted-IsSorted a (c ∷ cs) pa (pc, pcs) (q, qs) = elim (Bool-cases (before c a)) [
    | inl first ↦ rw first (
      All-insert_sorted before (λ d. before d c ≡ false) a cs (w.asymmetric c a pc pa first) q,
      insert_sorted-IsSorted a cs pa pcs qs,
    )
    | inr second ↦ rw second ((second, All-before a c cs pa pc pcs second q), (q, qs))
  ]

  -- A sorted list is in order.
  pub sorted-IsSorted : (as_ : List A) → All P as_ → IsSorted before (sorted before as_)
  unfolding sorted
  sorted-IsSorted [] _ = tt
  sorted-IsSorted (a ∷ as_) (p, ps) =
      insert_sorted-IsSorted a (sorted before as_) p (All-sorted before P as_ ps)
        (sorted-IsSorted as_ ps)
