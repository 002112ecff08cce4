-- ===== src/Dna/Ecc/Majority.antt =====
-- What the vote recovers.
use mathlib.Core.Path.{subst}
use model_db.Prelude.{
  inl, inr, Bool-cases, ==_iff, ℕ, zero, suc, ◌*◌, ◌≤◌, ◌<◌, ◌≡◌, refl, ap, ◌∙◌, false, Option,
  some, List, [], ◌∷◌, map, length, get_or, ◌==◌, list_eq_iff, arith,
}
use model_db.Storage.Interface.{Bytes}
use model_db.Dna.Ecc.Heaviest.{find, weight_of, at-le-total}
use model_db.Dna.Ecc.Groups.{
  intact, equal_to, equal_to-usable, length-usable-le, equal_to-le-length, SameLength, Grouped,
  members, Grouped-by_length, total-by_length, equal_to-by_length, majority_group-holds,
}
use model_db.Dna.Ecc.Votes.{vote_from-majority, vote_from-unanimous}
use model_db.Dna.Ecc.{usable, by_length, vote_from, decode_group, majority_group, encode, decode}

decode_group-majority :
    (all_copies usable_copies : ℕ) (p : Bytes) (group : List Bytes)
    → length group < 2 * equal_to p group
    → SameLength (length p) group
    → (decode_group all_copies usable_copies group).data_bytes ≡ some p
unfolding decode_group
decode_group-majority a u p [] h s = absurd (omega arith)
decode_group-majority a u p (c ∷ []) h s = ground (arith, list_eq_iff c p)
decode_group-majority a u p (c ∷ d ∷ group) h s = rw s.0 (
    ap some
      (vote_from-majority p (c ∷ d ∷ group) h p 0 (λ j. ap (λ k. get_or p k 0) (omega arith))))

find-SameLength :
    (k : ℕ) (gs : List (ℕ × List Bytes)) → Grouped gs → SameLength k (members (find length k gs))
find-SameLength k [] g = tt
find-SameLength k ((n, group) ∷ gs) g = elim (Bool-cases (n == k)) [
  | inl same ↦ rw same (let e : n ≡ k = (==_iff n k).0 same in rw (← e) g.0)
  | inr other ↦ rw other (find-SameLength k gs g.1)
]

module _ (p : Bytes) (copies : List (Option Bytes))
    (strict : length copies < 2 * intact p copies) where
  abbrev groups : List (ℕ × List Bytes)
  groups = by_length (usable copies) []

  abbrev chosen : List Bytes
  chosen = majority_group groups

  chosen_is : find length (length p) groups ≡ some chosen
  chosen_is = majority_group-holds p groups (
      omega (
        arith,
        total-by_length (usable copies) [],
        equal_to-by_length p (usable copies) [],
        equal_to-usable p copies,
        length-usable-le copies,
      ))

  equal_to-chosen : equal_to p chosen ≡ intact p copies
  equal_to-chosen =
      let here : equal_to p (members (find length (length p) groups)) ≡ equal_to p chosen =
        ap (λ o. equal_to p (members o)) chosen_is in
      omega (arith, equal_to-by_length p (usable copies) [], equal_to-usable p copies)

  length-chosen-le : length chosen ≤ length (usable copies)
  length-chosen-le =
      let here : weight_of length (find length (length p) groups) ≡ length chosen =
        ap (weight_of length) chosen_is in
      omega (arith, at-le-total length (length p) groups, total-by_length (usable copies) [])

  SameLength-chosen : SameLength (length p) chosen
  SameLength-chosen =
      subst (λ o. SameLength (length p) (members o)) chosen_is
        (find-SameLength (length p) groups (Grouped-by_length (usable copies) [] tt))

  chosen-strict : length chosen < 2 * equal_to p chosen
  chosen-strict = omega (arith, length-chosen-le, length-usable-le copies, equal_to-chosen)

  -- A payload that more than half of the copies still are is recovered, whatever became of the
  -- others: lost, shortened, lengthened or changed.
  pub decode-majority : (decode copies).data_bytes ≡ some p
  unfolding decode
  decode-majority =
      decode_group-majority (length copies) (length (usable copies)) p chosen chosen-strict
        SameLength-chosen

decode_group-unanimous :
    (n : ℕ) (p : Bytes) (group : List Bytes)
    → length group ≡ n
    → 0 < n
    → equal_to p group ≡ n
    → SameLength (length p) group
    → decode_group n n group ≡ record {
      data_bytes = some p;
      recovered = false;
      corrected_byte_count = 0;
      usable_copies = n;
    }
unfolding decode_group
decode_group-unanimous n p [] e pos all s = absurd (omega arith)
decode_group-unanimous n p (c ∷ []) e pos all s = ground (arith, list_eq_iff c p)
decode_group-unanimous n p (c ∷ d ∷ group) e pos all s =
    let strict : length (c ∷ d ∷ group) < 2 * equal_to p (c ∷ d ∷ group) = omega arith in
    let spelled : (vote_from (c ∷ d ∷ group) 0 (length p)).0 ≡ p =
      vote_from-majority p (c ∷ d ∷ group) strict p 0 (λ j. ap (λ k. get_or p k 0) (omega arith)) in
    let unsplit : (vote_from (c ∷ d ∷ group) 0 (length p)).1 ≡ 0 =
      vote_from-unanimous p (c ∷ d ∷ group) strict 0 (length p) (omega arith) in
    rw s.0 (ground arith)

module _ (p : Bytes) where
  intact-encode : (n : ℕ) → intact p (map some (encode n p)) ≡ n
  unfolding encode
  intact-encode zero = refl
  intact-encode (suc n) = ground (arith, intact-encode n, list_eq_iff p p)

  length-usable-encode : (n : ℕ) → length (usable (map some (encode n p))) ≡ n
  unfolding encode usable
  length-usable-encode zero = refl
  length-usable-encode (suc n) = ap suc (length-usable-encode n)

  length-copies-encode : (n : ℕ) → length (map some (encode n p)) ≡ n
  unfolding encode
  length-copies-encode zero = refl
  length-copies-encode (suc n) = ap suc (length-copies-encode n)

-- Untouched copies decode to the payload, with nothing corrected and nothing called recovered.
pub decode-map-some-encode :
    (n : ℕ) (p : Bytes)
    → 0 < n
    → decode (map some (encode n p)) ≡ record {
      data_bytes = some p;
      recovered = false;
      corrected_byte_count = 0;
      usable_copies = n;
    }
unfolding decode
decode-map-some-encode n p pos =
    let copies : List (Option Bytes) = map some (encode n p) in
    let strict : length copies < 2 * intact p copies =
      omega (arith, intact-encode p n, length-copies-encode p n) in
    let all_equal : equal_to p (chosen p copies strict) ≡ n =
      equal_to-chosen p copies strict ∙ intact-encode p n in
    rw (length-usable-encode p n, length-copies-encode p n)
      (decode_group-unanimous n p (chosen p copies strict)
        (omega (
          arith,
          length-chosen-le p copies strict,
          length-usable-encode p n,
          equal_to-le-length p (chosen p copies strict),
        ))
        pos all_equal (SameLength-chosen p copies strict))
