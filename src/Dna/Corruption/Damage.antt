-- ===== src/Dna/Corruption/Damage.antt =====
-- How far the damage to a sequence goes.
use model_db.Prelude.{
  ℕ, ◌*◌, ◌≤◌, ◌≡◌, refl, inl, inr, Bool, true, false, ◌&&◌, some, List, [], ◌∷◌, ◌++◌, arith, ◌==◌,
  ==_iff, Bool-cases, some_injective, length, all_of, length-append,
}
use model_db.Dna.Encoder.{Sequence}
use model_db.Dna.Encoder.Inverse.{is_base}
use model_db.Dna.Corruption.{
  Random, IsFair, CorruptionRates, four_bases, other_bases, happens, next, substitute, insertion,
  corrupt_bases, corrupt_sequence,
}

all_of-append :
    (test : ℕ → Bool) (xs ys : List ℕ) → all_of test (xs ++ ys) ≡ (all_of test xs && all_of test ys)
all_of-append test [] ys = refl
all_of-append test (x ∷ xs) ys = ground (arith, all_of-append test xs ys)

all_of-other_bases :
    (base : ℕ) (xs : List ℕ)
    → all_of is_base xs ≡ true
    → all_of is_base (other_bases base xs) ≡ true
all_of-other_bases base [] h = refl
all_of-other_bases base (x ∷ xs) h = elim (Bool-cases (x == base)) [
  | inl same ↦ rw same (all_of-other_bases base xs (ground arith))
  | inr other ↦ rw (other, all_of-other_bases base xs (ground arith)) (ground arith)
]

-- there is another base than a given one, and all the others are bases
some_other :
    (base : ℕ)
    → (x : ℕ) × (xs : List ℕ) × (other_bases base four_bases ≡ x ∷ xs)
      × (all_of is_base (x ∷ xs) ≡ true)
some_other base = elim (Bool-cases (65 == base)) [
  | inl first ↦
      let second : (67 == base) ≡ false = ground (arith, ==_iff 65 base, ==_iff 67 base) in
      (
        67,
        other_bases base (71 ∷ 84 ∷ []),
        rw (first, second) refl,
        all_of-other_bases base (71 ∷ 84 ∷ []) refl,
      )
  | inr other ↦ (
    65,
    other_bases base (67 ∷ 71 ∷ 84 ∷ []),
    rw other refl,
    all_of-other_bases base (67 ∷ 71 ∷ 84 ∷ []) refl,
  )
]

module _ (rd : Random) where
  length-insertion :
      (rng : rd.Rng) (rates : CorruptionRates rd) → length (insertion rd rng rates).0 ≤ 1
  unfolding insertion
  length-insertion rng rates = elim (Bool-cases (happens rd rng rates.insertion_rate)) [
    | inl does ↦ rw does (omega arith)
    | inr not_so ↦ rw not_so (omega arith)
  ]

  length-corrupt_bases :
      (rng : rd.Rng) (rates : CorruptionRates rd) (sequence : Sequence)
      → length (corrupt_bases rd rng rates sequence).0 ≤ 2 * length sequence
  unfolding corrupt_bases
  length-corrupt_bases rng rates [] = omega arith
  length-corrupt_bases rng rates (base ∷ sequence) =
      let rng1 = next rd rng in
      let rng2 = (substitute rd rng1 rates base).1 in
      let rng3 = (insertion rd rng2 rates).1 in
      elim (Bool-cases (happens rd rng rates.deletion_rate)) [
        | inl lost ↦ rw lost (omega (arith, length-corrupt_bases rng1 rates sequence))
        | inr kept ↦
            rw
              (
                kept,
                length-append (insertion rd rng2 rates).0 (corrupt_bases rd rng3 rates sequence).0,
              )
              (omega (arith, length-insertion rng2 rates, length-corrupt_bases rng3 rates sequence))
      ]

module _ (rd : Random) (fair : IsFair rd) (rates : CorruptionRates rd) where
  bases-insertion : (rng : rd.Rng) → all_of is_base (insertion rd rng rates).0 ≡ true
  unfolding insertion
  bases-insertion rng = elim (Bool-cases (happens rd rng rates.insertion_rate)) [
    | inl does ↦
        rw (does, fair.choice-any_of (next rd rng) is_base 65 (67 ∷ 71 ∷ 84 ∷ []) refl) refl
    | inr not_so ↦ rw not_so refl
  ]

  base-substitute :
      (rng : rd.Rng) (base : ℕ)
      → is_base base ≡ true
      → is_base (substitute rd rng rates base).0 ≡ true
  unfolding substitute
  base-substitute rng base h = elim (Bool-cases (happens rd rng rates.substitution_rate)) [
    | inl does ↦
        let (x, xs, e, all) = some_other base in
        rw (does, e) (fair.choice-any_of (next rd rng) is_base x xs all)
    | inr not_so ↦ rw not_so h
  ]

  bases-corrupt_bases :
      (rng : rd.Rng) (sequence : Sequence)
      → all_of is_base sequence ≡ true
      → all_of is_base (corrupt_bases rd rng rates sequence).0 ≡ true
  unfolding corrupt_bases
  bases-corrupt_bases rng [] h = refl
  bases-corrupt_bases rng (base ∷ sequence) h =
      let rng1 = next rd rng in
      let rng2 = (substitute rd rng1 rates base).1 in
      let rng3 = (insertion rd rng2 rates).1 in
      let first : is_base base ≡ true = ground arith in
      let others : all_of is_base sequence ≡ true = ground arith in
      elim (Bool-cases (happens rd rng rates.deletion_rate)) [
        | inl lost ↦ rw lost (bases-corrupt_bases rng1 sequence others)
        | inr kept ↦
            rw
              (
                kept,
                base-substitute rng1 base first,
                all_of-append is_base (insertion rd rng2 rates).0
                    (corrupt_bases rd rng3 rates sequence).0,
                bases-insertion rng2,
              )
              (bases-corrupt_bases rng3 sequence others)
      ]

  -- A sequence of bases that is not dropped comes back as a sequence of bases, at most twice as long.
  pub corrupt_sequence-bases :
      (rng : rd.Rng) (sequence result : Sequence)
      → all_of is_base sequence ≡ true
      → (corrupt_sequence rd sequence rates rng).0 ≡ some result
      → (all_of is_base result ≡ true) × (length result ≤ 2 * length sequence)
  unfolding corrupt_sequence
  corrupt_sequence-bases rng sequence result h e =
      elim (Bool-cases (happens rd rng rates.dropout_rate)) [
        | inl dropped ↦ absurd (cc (rw dropped at e))
        | inr read ↦
            let same : (corrupt_bases rd (next rd rng) rates sequence).0 ≡ result =
              some_injective (rw read at e) in
            rw (← same) (
              bases-corrupt_bases (next rd rng) sequence h,
              length-corrupt_bases rd (next rd rng) rates sequence,
            )
      ]
