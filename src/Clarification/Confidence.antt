-- ===== src/Clarification/Confidence.antt =====
-- mce/confidence.py: whether the best candidate is sure enough, and far enough ahead.
use model_db.Prelude.{
  ◌≡◌, refl, ◌↔◌, Bool, true, false, not, ◌&&◌, List, [], ◌∷◌, arith, All, sorted, sorted-Perm,
  sorted-IsSorted, IsSorted, IsWeakOrder,
}
use mathlib.Core.List.{Perm}
use model_db.Clarification.{Language, Candidate}

pub record AmbiguityResult (w : Language) : Type 0 where
  pub top_confidence : w.Float
  pub margin : w.Float
  pub confident : Bool
  pub clarification_required : Bool
  pub candidates : List (Candidate w)

module _ (w : Language) where
  abbrev pub surer : Candidate w → Candidate w → Bool
  surer c d = w.above c.confidence d.confidence

  -- `sorted(candidates, key=lambda c: c.confidence, reverse=True)`, which is stable
  unfoldable pub ranked : List (Candidate w) → List (Candidate w)
  ranked candidates = sorted surer candidates

  abbrev pub runner_up : List (Candidate w) → w.Float
  runner_up [] = w.float_zero
  runner_up (c ∷ _) = c.confidence

  abbrev pub judge : w.Float → w.Float → List (Candidate w) → AmbiguityResult w
  judge threshold ambiguity_margin [] = record {
    top_confidence = w.float_zero;
    margin = w.float_zero;
    confident = false;
    clarification_required = true;
    candidates = [];
  }
  judge threshold ambiguity_margin (c ∷ cs) =
      let margin = w.minus c.confidence (runner_up cs) in
      let confident = w.at_least c.confidence threshold && w.at_least margin ambiguity_margin in
      record {
        top_confidence = c.confidence;
        margin = margin;
        confident = confident;
        clarification_required = not confident;
        candidates = c ∷ cs;
      }

  unfoldable pub evaluate_ambiguity : List (Candidate w) → w.Float → w.Float → AmbiguityResult w
  evaluate_ambiguity candidates threshold ambiguity_margin =
      judge threshold ambiguity_margin (ranked candidates)

  -- the first candidate reaches the threshold, and every other one, or 0.0 if there is none, is
  -- behind it by the margin
  abbrev pub IsAhead : w.Float → w.Float → List (Candidate w) → Type 0
  IsAhead threshold ambiguity_margin [] = ⊥
  IsAhead threshold ambiguity_margin (c ∷ []) =
      (w.at_least c.confidence threshold ≡ true)
      × (w.at_least (w.minus c.confidence w.float_zero) ambiguity_margin ≡ true)
  IsAhead threshold ambiguity_margin (c ∷ d ∷ ds) =
      (w.at_least c.confidence threshold ≡ true)
      × All (λ e. w.at_least (w.minus c.confidence e.confidence) ambiguity_margin ≡ true) (d ∷ ds)

  -- what the floats promise: `>` is a weak order, and a smaller number leaves a larger difference
  pub record IsOrdered : Type 0 where
    pub asymmetric : (a b : w.Float) → w.above a b ≡ true → w.above b a ≡ false
    pub transitive :
        (a b c : w.Float) → w.above a b ≡ false → w.above b c ≡ false → w.above a c ≡ false
    pub antitone :
        (a b c m : w.Float)
        → w.above c b ≡ false
        → w.at_least (w.minus a b) m ≡ true
        → w.at_least (w.minus a c) m ≡ true

module _ {w : Language} (x : IsOrdered w) where
  abbrev NotAbove : w.Float → List (Candidate w) → Type 0
  NotAbove a = All (λ c. w.above c.confidence a ≡ false)

  surer-IsWeakOrder : IsWeakOrder (surer w) (λ _. Unit {0})
  surer-IsWeakOrder = record {
    asymmetric = λ c d _ _. x.asymmetric c.confidence d.confidence;
    transitive = λ c d e _ _ _. x.transitive c.confidence d.confidence e.confidence;
  }

  All-Unit : (cs : List (Candidate w)) → All (λ _. Unit {0}) cs
  All-Unit [] = tt
  All-Unit (c ∷ cs) = (tt, All-Unit cs)

  ranked-IsSorted : (cs : List (Candidate w)) → IsSorted (surer w) (ranked w cs)
  unfolding ranked
  ranked-IsSorted cs = sorted-IsSorted (surer w) (λ _. Unit {0}) surer-IsWeakOrder cs (All-Unit cs)

  behind :
      (a b m : w.Float) (cs : List (Candidate w))
      → NotAbove b cs
      → w.at_least (w.minus a b) m ≡ true
      → All (λ d. w.at_least (w.minus a d.confidence) m ≡ true) cs
  behind a b m [] _ h = tt
  behind a b m (c ∷ cs) (h1, h2) h = (x.antitone a b c.confidence m h1 h, behind a b m cs h2 h)

  judge-IsAhead :
      (threshold margin : w.Float) (cs : List (Candidate w))
      → IsSorted (surer w) cs
      → ((judge w threshold margin cs).clarification_required ≡ false)
        ↔ IsAhead w threshold margin cs
  judge-IsAhead threshold margin [] _ = (λ h. absurd (cc), λ h. absurd h)
  judge-IsAhead threshold margin (c ∷ []) _ = ground arith
  judge-IsAhead threshold margin (c ∷ d ∷ ds) (_, (h1, _)) = (
    λ h.
        let far : w.at_least (w.minus c.confidence d.confidence) margin ≡ true = ground arith in
        (ground arith, (far, behind c.confidence d.confidence margin ds h1 far)),
    λ (h, (far, _)). rw (h, far) refl,
  )

  judge-candidates :
      (threshold margin : w.Float) (cs : List (Candidate w))
      → (judge w threshold margin cs).candidates ≡ cs
  judge-candidates threshold margin [] = refl
  judge-candidates threshold margin (c ∷ cs) = refl

  -- The candidates of the result are the given ones in another order, and no clarification is
  -- required exactly if the first of them reaches the threshold and is ahead by the margin of every
  -- other one, or of 0.0 if it is alone. The floats are ordered, and a smaller one leaves a larger
  -- difference.
  pub evaluate_ambiguity-IsAhead :
      (candidates : List (Candidate w)) (threshold margin : w.Float)
      → Perm (evaluate_ambiguity w candidates threshold margin).candidates candidates
        × (((evaluate_ambiguity w candidates threshold margin).clarification_required ≡ false)
            ↔ IsAhead w threshold margin
                (evaluate_ambiguity w candidates threshold margin).candidates)
  unfolding evaluate_ambiguity ranked
  evaluate_ambiguity-IsAhead candidates threshold margin =
      rw (judge-candidates threshold margin (ranked w candidates)) (
        sorted-Perm (surer w) candidates,
        judge-IsAhead threshold margin (ranked w candidates) (ranked-IsSorted candidates),
      )
