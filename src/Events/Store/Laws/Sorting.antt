-- ===== src/Events/Store/Laws/Sorting.antt =====
-- Sorting where one element comes after all others, and the numbered ids of a stream.
use model_db.Prelude.{
  ℕ, zero, suc, ◌+◌, ◌≤◌, ◌<◌, String, ◌≡◌, refl, ap, ◌∙◌, inl, inr, Bool, true, false, List, [],
  ◌∷◌, ◌++◌, arith, Bool-cases, All, insert_sorted, sorted, All-sorted,
}
use model_db.Storage.Interface.{StorageBackend}
use model_db.Events.Store.{Environment, starts_with, seq_of, earlier, event_id}
use model_db.Events.Store.Reading.{numbered}
use model_db.Events.Store.Reading.Replayed.{ids_from}

module _ {A : Type 0} (before : A → A → Bool) where
  -- `z` comes after `y`, and not before it
  abbrev pub IsBeyond : A → A → Type 0
  IsBeyond z y = (before y z ≡ true) × (before z y ≡ false)

  insert_sorted-last :
      (z : A) (xs : List A) → All (IsBeyond z) xs → insert_sorted before z xs ≡ xs ++ (z ∷ [])
  unfolding insert_sorted
  insert_sorted-last z [] h = refl
  insert_sorted-last z (x ∷ xs) ((h, _), hs) = rw h (ap (λ t. x ∷ t) (insert_sorted-last z xs hs))

  insert_sorted-append :
      (z x : A) (xs : List A)
      → IsBeyond z x
      → insert_sorted before x (xs ++ (z ∷ [])) ≡ insert_sorted before x xs ++ (z ∷ [])
  unfolding insert_sorted
  insert_sorted-append z x [] (_, h) = rw h refl
  insert_sorted-append z x (y ∷ xs) h = elim (Bool-cases (before y x)) [
    | inl first ↦ rw first (ap (λ t. y ∷ t) (insert_sorted-append z x xs h))
    | inr second ↦ rw second refl
  ]

  pub sorted-insert :
      (z : A) (xs ys : List A)
      → All (IsBeyond z) (xs ++ ys)
      → sorted before (xs ++ (z ∷ ys)) ≡ sorted before (xs ++ ys) ++ (z ∷ [])
  unfolding sorted
  sorted-insert z [] ys h =
      insert_sorted-last z (sorted before ys) (All-sorted before (IsBeyond z) ys h)
  sorted-insert z (x ∷ xs) ys (h, hs) =
      rw (sorted-insert z xs ys hs) (insert_sorted-append z x (sorted before (xs ++ ys)) h)

module _ {A : Type 0} (before : A → A → Bool) (P : A → Type 0) where
  All-of-insert_sorted : (a : A) (xs : List A) → All P (insert_sorted before a xs) → P a × All P xs
  unfolding insert_sorted
  All-of-insert_sorted a [] h = h
  All-of-insert_sorted a (x ∷ xs) h = elim (Bool-cases (before x a)) [
    | inl first ↦
        let h' : All P (x ∷ insert_sorted before a xs) = rw first at h in
        let rest = All-of-insert_sorted a xs h'.1 in (rest.0, (h'.0, rest.1))
    | inr second ↦ let h' : All P (a ∷ x ∷ xs) = rw second at h in h'
  ]

  pub All-of-sorted : (xs : List A) → All P (sorted before xs) → All P xs
  unfolding sorted
  All-of-sorted [] h = tt
  All-of-sorted (x ∷ xs) h =
      let rest = All-of-insert_sorted x (sorted before xs) h in (rest.0, All-of-sorted xs rest.1)

pub All-map :
    {A : Type 0} (P Q : A → Type 0) → ((x : A) → P x → Q x) → (xs : List A) → All P xs → All Q xs
All-map P Q f [] h = tt
All-map P Q f (x ∷ xs) (h, hs) = (f x h, All-map P Q f xs hs)

pub All-insert :
    {A : Type 0} (P : A → Type 0) (z : A) (xs ys : List A)
    → P z
    → All P (xs ++ ys)
    → All P (xs ++ (z ∷ ys))
All-insert P z [] ys p h = (p, h)
All-insert P z (x ∷ xs) ys p (h, hs) = (h, All-insert P z xs ys p hs)

pub earlier-beyond :
    (e : Environment) (m n : ℕ) (x y : String)
    → m < n
    → (earlier e (m, x) (n, y) ≡ true) × (earlier e (n, y) (m, x) ≡ false)
earlier-beyond e m n x y h = (ground arith, ground arith)

pub All-ids_from :
    (e : Environment) (stream : String) (n count bound : ℕ)
    → n + count ≤ bound
    → All (λ (p : ℕ × String). p.0 < bound) (ids_from e stream n count)
All-ids_from e stream n zero bound h = tt
All-ids_from e stream n (suc count) bound h =
    (omega arith, All-ids_from e stream (suc n) count bound (omega arith))

pub ids_from-append :
    (e : Environment) (stream : String) (n count : ℕ)
    → ids_from e stream n (suc count)
      ≡ ids_from e stream n count ++ ((n + count, event_id e stream (n + count)) ∷ [])
ids_from-append e stream n zero = let same : n + 0 ≡ n = omega arith in rw same refl
ids_from-append e stream n (suc count) =
    let same : n + suc count ≡ suc n + count = omega arith in
    rw same (ap (λ t. (n, event_id e stream n) ∷ t) (ids_from-append e stream (suc n) count))

module _ (b : StorageBackend) (e : Environment) (prefix : String) where
  pub numbered-append :
      (xs ys : List String)
      → numbered b e prefix (xs ++ ys) ≡ numbered b e prefix xs ++ numbered b e prefix ys
  unfolding numbered
  numbered-append [] ys = refl
  numbered-append (x ∷ xs) ys = elim (Bool-cases (starts_with prefix x)) [
    | inl listed ↦ rw listed (ap (λ t. (seq_of e x, x) ∷ t) (numbered-append xs ys))
    | inr other ↦ rw other (numbered-append xs ys)
  ]

  -- one more id in a list
  pub numbered-insert :
      (x : String) (xs ys : List String)
      → starts_with prefix x ≡ true
      → numbered b e prefix (xs ++ (x ∷ ys))
        ≡ numbered b e prefix xs ++ ((seq_of e x, x) ∷ numbered b e prefix ys)
  unfolding numbered
  numbered-insert x xs ys h = numbered-append xs (x ∷ ys) ∙ rw h refl
