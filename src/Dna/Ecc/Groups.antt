-- ===== src/Dna/Ecc/Groups.antt =====
-- The copies grouped by length, and the group that is chosen.
use model_db.Prelude.{
  ℕ, suc, ◌+◌, ◌*◌, ◌≤◌, ◌<◌, ◌≡◌, refl, ap, true, inl, inr, Bool-cases, Option, none, some, List,
  [], ◌∷◌, ◌++◌, length, length-append, ◌==◌, ==_iff, list_eq, list_eq_iff, if◌then◌else◌, arith,
}
use model_db.Storage.Interface.{Bytes}
use model_db.Dna.Ecc.Heaviest.{total, find, weight_of, heaviest_first}
use model_db.Dna.Ecc.{usable, add_copy, by_length, majority_group}

-- how many of the copies are the payload
abbrev pub intact : Bytes → List (Option Bytes) → ℕ
intact p [] = 0
intact p (none ∷ copies) = intact p copies
intact p (some c ∷ copies) = if list_eq c p then suc (intact p copies) else intact p copies

abbrev pub equal_to : Bytes → List Bytes → ℕ
equal_to p [] = 0
equal_to p (c ∷ cs) = if list_eq c p then suc (equal_to p cs) else equal_to p cs

pub equal_to-usable :
    (p : Bytes) (copies : List (Option Bytes)) → equal_to p (usable copies) ≡ intact p copies
unfolding usable
equal_to-usable p [] = refl
equal_to-usable p (none ∷ copies) = equal_to-usable p copies
equal_to-usable p (some c ∷ copies) = ground (arith, equal_to-usable p copies)

pub length-usable-le : (copies : List (Option Bytes)) → length (usable copies) ≤ length copies
unfolding usable
length-usable-le [] = omega arith
length-usable-le (none ∷ copies) = omega (arith, length-usable-le copies)
length-usable-le (some c ∷ copies) = omega (arith, length-usable-le copies)

pub equal_to-le-length : (p : Bytes) (cs : List Bytes) → equal_to p cs ≤ length cs
equal_to-le-length p [] = omega arith
equal_to-le-length p (c ∷ cs) = ground (arith, equal_to-le-length p cs)

equal_to-append :
    (p : Bytes) (cs ds : List Bytes) → equal_to p (cs ++ ds) ≡ equal_to p cs + equal_to p ds
equal_to-append p [] ds = omega arith
equal_to-append p (c ∷ cs) ds = ground (arith, equal_to-append p cs ds)

-- all copies of a group have the length that is its key
abbrev pub SameLength : ℕ → List Bytes → Type 0
SameLength n [] = Unit
SameLength n (c ∷ cs) = (length c ≡ n) × SameLength n cs

abbrev pub Grouped : List (ℕ × List Bytes) → Type 0
Grouped [] = Unit
Grouped ((n, group) ∷ groups) = SameLength n group × Grouped groups

SameLength-append :
    (n : ℕ) (cs : List Bytes) (c : Bytes)
    → SameLength n cs
    → length c ≡ n
    → SameLength n (cs ++ c ∷ [])
SameLength-append n [] c h e = (e, tt)
SameLength-append n (d ∷ cs) c h e = (h.0, SameLength-append n cs c h.1 e)

Grouped-add_copy : (c : Bytes) (gs : List (ℕ × List Bytes)) → Grouped gs → Grouped (add_copy c gs)
unfolding add_copy
Grouped-add_copy c [] h = ((refl, tt), tt)
Grouped-add_copy c ((n, g) ∷ gs) h = elim (Bool-cases (length c == n)) [
  | inl same ↦ rw same (SameLength-append n g c h.0 ((==_iff _ _).0 same), h.1)
  | inr other ↦ rw other (h.0, Grouped-add_copy c gs h.1)
]

pub Grouped-by_length :
    (cs : List Bytes) (gs : List (ℕ × List Bytes)) → Grouped gs → Grouped (by_length cs gs)
unfolding by_length
Grouped-by_length [] gs h = h
Grouped-by_length (c ∷ cs) gs h = Grouped-by_length cs (add_copy c gs) (Grouped-add_copy c gs h)

total-add_copy :
    (c : Bytes) (gs : List (ℕ × List Bytes)) → total length (add_copy c gs) ≡ suc (total length gs)
unfolding add_copy
total-add_copy c [] = omega arith
total-add_copy c ((n, g) ∷ gs) = ground (arith, total-add_copy c gs, length-append g (c ∷ []))

pub total-by_length :
    (cs : List Bytes) (gs : List (ℕ × List Bytes))
    → total length (by_length cs gs) ≡ length cs + total length gs
unfolding by_length
total-by_length [] gs = omega arith
total-by_length (c ∷ cs) gs = omega (arith, total-by_length cs (add_copy c gs), total-add_copy c gs)

abbrev pub members : Option (List Bytes) → List Bytes
members none = []
members (some g) = g

length_of_equal : (c p : Bytes) → list_eq c p ≡ true → length c ≡ length p
length_of_equal c p h = ap length ((list_eq_iff c p).0 h)

equal_to-add_copy :
    (p c : Bytes) (gs : List (ℕ × List Bytes))
    → equal_to p (members (find length (length p) (add_copy c gs)))
      ≡ equal_to p (members (find length (length p) gs)) + equal_to p (c ∷ [])
unfolding add_copy
equal_to-add_copy p c [] = ground (arith, length_of_equal c p)
equal_to-add_copy p c ((n, g) ∷ gs) =
    ground (arith, equal_to-add_copy p c gs, equal_to-append p g (c ∷ []), length_of_equal c p)

pub equal_to-by_length :
    (p : Bytes) (cs : List Bytes) (gs : List (ℕ × List Bytes))
    → equal_to p (members (find length (length p) (by_length cs gs)))
      ≡ equal_to p (members (find length (length p) gs)) + equal_to p cs
unfolding by_length
equal_to-by_length p [] gs = omega arith
equal_to-by_length p (c ∷ cs) gs =
    ground (arith, equal_to-by_length p cs (add_copy c gs), equal_to-add_copy p c gs)

-- The group that is chosen holds every copy equal to a payload that has the majority.
pub majority_group-holds :
    (p : Bytes) (gs : List (ℕ × List Bytes))
    → total length gs < 2 * equal_to p (members (find length (length p) gs))
    → find length (length p) gs ≡ some (majority_group gs)
unfolding majority_group
majority_group-holds p [] h = absurd (omega arith)
majority_group-holds p (g ∷ gs) h =
    (heaviest_first length (length p) g gs (largest (find length (length p) (g ∷ gs)) h)).1
  where
    largest :
        (o : Option (List Bytes))
        → total length (g ∷ gs) < 2 * equal_to p (members o)
        → total length (g ∷ gs) < 2 * weight_of length o
    largest none h = h
    largest (some m) h = omega (arith, equal_to-le-length p m)
