-- ===== src/Dna/Corruption.antt =====
-- dna/corruption.py: random damage to a sequence. Python's `random.Random` is an argument: a state
-- with the two calls that the code makes of it.
pub mod Damage
use model_db.Prelude.{
  ℕ, ◌+◌, ◌-◌, ◌≡◌, Bool, true, not, ◌&&◌, Option, none, some, List, [], ◌∷◌, ◌++◌, ◌==◌,
  if◌then◌else◌, all_of,
}
use model_db.Dna.Encoder.{Sequence}

pub record Random : Type 1 where
  pub Rng : Type 0
  pub Float : Type 0
  -- `rng.random()`
  pub random : Rng → Float × Rng
  -- `rng.choice(options)`
  pub choice : Rng → List ℕ → ℕ × Rng
  -- `a < b`
  pub below : Float → Float → Bool
  -- `0.0 <= value <= 1.0`
  pub is_rate : Float → Bool

-- What the code relies on: a choice is one of the options.
pub record IsFair (rd : Random) : Type 0 where
  pub choice-any_of :
      (rng : rd.Rng) (test : ℕ → Bool) (x : ℕ) (options : List ℕ)
      → all_of test (x ∷ options) ≡ true
      → test (rd.choice rng (x ∷ options)).0 ≡ true

pub record CorruptionRates (rd : Random) : Type 0 where
  pub substitution_rate : rd.Float
  pub insertion_rate : rd.Float
  pub deletion_rate : rd.Float
  pub dropout_rate : rd.Float

-- `_BASES`
abbrev pub four_bases : List ℕ
four_bases = 65 ∷ 67 ∷ 71 ∷ 84 ∷ []

-- `[b for b in _BASES if b != base]`
abbrev pub other_bases : ℕ → List ℕ → List ℕ
other_bases base [] = []
other_bases base (x ∷ xs) =
    let rest = other_bases base xs in if not (x == base) then x ∷ rest else rest

module _ (rd : Random) where
  -- `__post_init__`; the exception is a ValueError
  unfoldable pub is_accepted : CorruptionRates rd → Bool
  is_accepted rates =
      rd.is_rate rates.substitution_rate
      && rd.is_rate rates.insertion_rate
      && rd.is_rate rates.deletion_rate
      && rd.is_rate rates.dropout_rate

  -- `rng.random() < rate`
  abbrev pub happens : rd.Rng → rd.Float → Bool
  happens rng rate = rd.below (rd.random rng).0 rate

  abbrev pub next : rd.Rng → rd.Rng
  next rng = (rd.random rng).1

  -- the base after a possible substitution
  unfoldable pub substitute : rd.Rng → CorruptionRates rd → ℕ → ℕ × rd.Rng
  substitute rng rates base =
      if happens rng rates.substitution_rate
      then rd.choice (next rng) (other_bases base four_bases)
      else (base, next rng)

  -- what is inserted after a base
  unfoldable pub insertion : rd.Rng → CorruptionRates rd → List ℕ × rd.Rng
  insertion rng rates =
      if happens rng rates.insertion_rate
      then (let (inserted, rng') = rd.choice (next rng) four_bases in (inserted ∷ [], rng'))
      else ([], next rng)

  -- the loop over the bases
  unfoldable pub corrupt_bases : rd.Rng → CorruptionRates rd → Sequence → Sequence × rd.Rng
  corrupt_bases rng rates [] = ([], rng)
  corrupt_bases rng rates (base ∷ sequence) =
      let rng1 = next rng in
      let (kept, rng2) = substitute rng1 rates base in
      let (inserted, rng3) = insertion rng2 rates in
      let deleted = corrupt_bases rng1 rates sequence in
      let (rest, rng4) = corrupt_bases rng3 rates sequence in
      if happens rng rates.deletion_rate then deleted else (kept ∷ (inserted ++ rest), rng4)

  unfoldable pub corrupt_sequence :
      Sequence → CorruptionRates rd → rd.Rng → Option Sequence × rd.Rng
  corrupt_sequence sequence rates rng =
      if happens rng rates.dropout_rate
      then (none, next rng)
      else (let (result, rng') = corrupt_bases (next rng) rates sequence in (some result, rng'))
