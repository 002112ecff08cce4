-- ===== src/Dna/Ecc/Heaviest.antt =====
-- Python's `max(items, key=…)` over keyed items, which returns the first of the heaviest, and the
-- lemma that an item with more than half of the weight is the one returned.
use model_db.Prelude.{
  Option, none, some, ℕ, ◌+◌, ◌*◌, ◌≤◌, ◌<◌, ◌≡◌, refl, inl, inr, Bool-cases, List, [], ◌∷◌, ltb,
  ◌==◌, if◌then◌else◌, arith,
}

module _ {B : Type 0} (weight : B → ℕ) where
  -- the loop of `max`, with the best item so far
  unfoldable pub heaviest : ℕ × B → List (ℕ × B) → ℕ × B
  heaviest best [] = best
  heaviest best (e ∷ es) = heaviest (if ltb (weight best.1) (weight e.1) then e else best) es

  abbrev pub total : List (ℕ × B) → ℕ
  total [] = 0
  total (e ∷ es) = weight e.1 + total es

  -- the first item at a key
  abbrev pub find : ℕ → List (ℕ × B) → Option B
  find k [] = none
  find k ((j, b) ∷ es) = if j == k then some b else find k es

  abbrev pub weight_of : Option B → ℕ
  weight_of none = 0
  weight_of (some b) = weight b

  abbrev pub at : ℕ → List (ℕ × B) → ℕ
  at k es = weight_of (find k es)

  pub at-le-total : (k : ℕ) (es : List (ℕ × B)) → at k es ≤ total es
  at-le-total k [] = omega arith
  at-le-total k (e ∷ es) = ground (arith, at-le-total k es)

  heaviest_stays :
      (best : ℕ × B) (es : List (ℕ × B)) → total es ≤ weight best.1 → heaviest best es ≡ best
  unfolding heaviest
  heaviest_stays best [] h = refl
  heaviest_stays best (e ∷ es) h = ground (arith, heaviest_stays best es)

  -- The item at a key that outweighs all else together is found.
  pub heaviest_key :
      (k : ℕ) (best : ℕ × B) (es : List (ℕ × B))
      → weight best.1 + total es < 2 * at k es
      → ((heaviest best es).0 ≡ k) × (find k es ≡ some (heaviest best es).1)
  unfolding heaviest
  heaviest_key k best [] h = absurd (omega arith)
  heaviest_key k best (e ∷ es) h = elim (Bool-cases (e.0 == k)) [
    | inl at_head ↦ ground (arith, heaviest_stays e es)
    | inr later ↦ elim (Bool-cases (ltb (weight best.1) (weight e.1))) [
      | inl heavier ↦ ground (arith, heaviest_key k e es)
      | inr lighter ↦ ground (arith, heaviest_key k best es)
    ]
  ]

  -- So too where the item stands first.
  pub heaviest_first :
      (k : ℕ) (e : ℕ × B) (es : List (ℕ × B))
      → total (e ∷ es) < 2 * at k (e ∷ es)
      → ((heaviest e es).0 ≡ k) × (find k (e ∷ es) ≡ some (heaviest e es).1)
  heaviest_first k e es h = elim (Bool-cases (e.0 == k)) [
    | inl at_head ↦ ground (arith, heaviest_stays e es)
    | inr later ↦ ground (arith, heaviest_key k e es)
  ]
