-- ===== src/Dna/Ecc/Votes.antt =====
-- The vote at one position, and over all positions.
use model_db.Prelude.{
  ℕ, zero, suc, ◌+◌, ◌*◌, ◌≤◌, ◌<◌, ◌≡◌, refl, ap, ◌∙◌, true, List, [], ◌∷◌, length, get_or, ◌==◌,
  list_eq, list_eq_iff, if◌then◌else◌, arith,
}
use model_db.Storage.Interface.{Bytes}
use model_db.Dna.Ecc.Heaviest.{total, at, heaviest_first}
use model_db.Dna.Ecc.Groups.{equal_to}
use model_db.Dna.Ecc.{add_vote, count_votes, most_common, column, vote, vote_from}

abbrev weigh : ℕ → ℕ
weigh n = n

abbrev occurrences : ℕ → List ℕ → ℕ
occurrences v [] = 0
occurrences v (x ∷ xs) = if x == v then suc (occurrences v xs) else occurrences v xs

at-add_vote :
    (v x : ℕ) (ts : List (ℕ × ℕ))
    → at weigh v (add_vote x ts) ≡ at weigh v ts + occurrences v (x ∷ [])
unfolding add_vote
at-add_vote v x [] = ground arith
at-add_vote v x ((w, n) ∷ ts) = ground (arith, at-add_vote v x ts)

total-add_vote : (x : ℕ) (ts : List (ℕ × ℕ)) → total weigh (add_vote x ts) ≡ suc (total weigh ts)
unfolding add_vote
total-add_vote x [] = omega arith
total-add_vote x ((w, n) ∷ ts) = ground (arith, total-add_vote x ts)

at-count_votes :
    (v : ℕ) (xs : List ℕ) (ts : List (ℕ × ℕ))
    → at weigh v (count_votes xs ts) ≡ at weigh v ts + occurrences v xs
unfolding count_votes
at-count_votes v [] ts = omega arith
at-count_votes v (x ∷ xs) ts =
    ground (arith, at-count_votes v xs (add_vote x ts), at-add_vote v x ts)

total-count_votes :
    (xs : List ℕ) (ts : List (ℕ × ℕ)) → total weigh (count_votes xs ts) ≡ total weigh ts + length xs
unfolding count_votes
total-count_votes [] ts = omega arith
total-count_votes (x ∷ xs) ts =
    omega (arith, total-count_votes xs (add_vote x ts), total-add_vote x ts)

most_common-majority :
    (v : ℕ) (ts : List (ℕ × ℕ))
    → total weigh ts < 2 * at weigh v ts
    → ((most_common ts).0 ≡ v) × ((most_common ts).1 ≡ at weigh v ts)
unfolding most_common
most_common-majority v [] h = absurd (omega arith)
most_common-majority v (t ∷ ts) h = ground (arith, heaviest_first weigh v t ts h)

equal_to-le-occurrences :
    (p : Bytes) (group : List Bytes) (i : ℕ)
    → equal_to p group ≤ occurrences (get_or p i 0) (column group i)
unfolding column
equal_to-le-occurrences p [] i = omega arith
equal_to-le-occurrences p (c ∷ group) i =
    ground (arith, equal_to-le-occurrences p group i, item_of_equal)
  where
    item_of_equal : list_eq c p ≡ true → get_or c i 0 ≡ get_or p i 0
    item_of_equal h = ap (λ (t : Bytes). get_or t i 0) ((list_eq_iff c p).0 h)

length-column : (group : List Bytes) (i : ℕ) → length (column group i) ≡ length group
unfolding column
length-column [] i = refl
length-column (c ∷ group) i = ap suc (length-column group i)

-- A payload that more than half of the group equals wins the vote at every position.
pub vote-majority :
    (p : Bytes) (group : List Bytes) (i : ℕ)
    → length group < 2 * equal_to p group
    → ((vote group i).0 ≡ get_or p i 0) × (equal_to p group ≤ (vote group i).1)
unfolding vote
vote-majority p group i h = ground (
  arith,
  most_common-majority (get_or p i 0) (count_votes (column group i) []),
  at-count_votes (get_or p i 0) (column group i) [],
  total-count_votes (column group i) [],
  length-column group i,
  equal_to-le-occurrences p group i,
)

module _ (p : Bytes) (group : List Bytes) (strict : length group < 2 * equal_to p group) where
  -- With the majority, the loop spells the rest of the payload from any position on.
  pub vote_from-majority :
      (rest : Bytes) (i : ℕ)
      → ((j : ℕ) → get_or rest j 0 ≡ get_or p (i + j) 0)
      → (vote_from group i (length rest)).0 ≡ rest
  unfolding vote_from
  vote_from-majority [] i same = refl
  vote_from-majority (b ∷ rest) i same =
      let here : get_or p (i + 0) 0 ≡ get_or p i 0 = ap (λ k. get_or p k 0) (omega arith) in
      cc (
        (vote-majority p group i strict).0,
        same zero,
        here,
        vote_from-majority rest (i + 1) (λ j. same (suc j) ∙ ap (λ k. get_or p k 0) (omega arith)),
      )

  -- Where the copies all agree no position is split.
  pub vote_from-unanimous :
      (i rounds : ℕ) → equal_to p group ≡ length group → (vote_from group i rounds).1 ≡ 0
  unfolding vote_from
  vote_from-unanimous i zero e = refl
  vote_from-unanimous i (suc rounds) e =
      ground (arith, vote-majority p group i strict, vote_from-unanimous (i + 1) rounds e)
