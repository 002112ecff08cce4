-- ===== src/Dna/Ecc.antt =====
-- dna/ecc.py: `RepetitionECC`, the majority vote over copies of a payload.
pub mod Heaviest
pub mod Groups
pub mod Votes
pub mod Majority
use model_db.Prelude.{
  ℕ, zero, suc, ◌+◌, ◌%◌, Bool, true, false, ◌||◌, Option, none, some, List, [], ◌∷◌, ◌++◌, map,
  length, replicate, get_or, ltb, Result, ok, err, ◌==◌, if◌then◌else◌,
}
use model_db.Errors.{Error, value_error}
use model_db.Storage.Interface.{Bytes}
use Heaviest.{heaviest}

pub record EccDecodeResult : Type 0 where
  pub data_bytes : Option Bytes
  pub recovered : Bool
  pub corrected_byte_count : ℕ
  pub usable_copies : ℕ

-- `RepetitionECC.__init__`: the number of copies, checked
unfoldable pub repetition_ecc : ℕ → Result Error ℕ
repetition_ecc copies = if ltb copies 1 || copies % 2 == 0 then err value_error else ok copies

unfoldable pub encode : ℕ → Bytes → List Bytes
encode copies payload = replicate copies payload

-- `[c for c in copies if c is not None]`
unfoldable pub usable : List (Option Bytes) → List Bytes
usable [] = []
usable (none ∷ copies) = usable copies
usable (some c ∷ copies) = c ∷ usable copies

-- `by_length.setdefault(len(copy), []).append(copy)`
unfoldable pub add_copy : Bytes → List (ℕ × List Bytes) → List (ℕ × List Bytes)
add_copy c [] = (length c, c ∷ []) ∷ []
add_copy c ((n, group) ∷ groups) =
    if length c == n then (n, group ++ c ∷ []) ∷ groups else (n, group) ∷ add_copy c groups

unfoldable pub by_length : List Bytes → List (ℕ × List Bytes) → List (ℕ × List Bytes)
by_length [] groups = groups
by_length (c ∷ copies) groups = by_length copies (add_copy c groups)

-- `Counter` of a column: one more vote for `value`
unfoldable pub add_vote : ℕ → List (ℕ × ℕ) → List (ℕ × ℕ)
add_vote value [] = (value, 1) ∷ []
add_vote value ((v, n) ∷ votes) =
    if value == v then (v, n + 1) ∷ votes else (v, n) ∷ add_vote value votes

unfoldable pub count_votes : List ℕ → List (ℕ × ℕ) → List (ℕ × ℕ)
count_votes [] votes = votes
count_votes (value ∷ values) votes = count_votes values (add_vote value votes)

-- `votes.most_common(1)[0]`; the group is not empty, so there is a vote
unfoldable pub most_common : List (ℕ × ℕ) → ℕ × ℕ
most_common [] = (0, 0)
most_common (v ∷ votes) = heaviest (λ n. n) v votes

-- `copy[i] for copy in majority_group`: the copies of a group are all as long as the first
unfoldable pub column : List Bytes → ℕ → List ℕ
column group i = map (λ c. get_or c i 0) group

unfoldable pub vote : List Bytes → ℕ → ℕ × ℕ
unfolding most_common count_votes column
vote group i = most_common (count_votes (column group i) [])

-- the loop over positions `i`, with the number of rounds left: the bytes, and how many were split
unfoldable pub vote_from : List Bytes → ℕ → ℕ → Bytes × ℕ
vote_from group i zero = ([], 0)
vote_from group i (suc rounds) =
    let (value, count) = vote group i in
    let (rest, corrected) = vote_from group (i + 1) rounds in
    (value ∷ rest, if ltb count (length group) then corrected + 1 else corrected)

-- the end of `decode`, on the group of the majority
unfoldable pub decode_group : ℕ → ℕ → List Bytes → EccDecodeResult
decode_group all_copies usable_copies [] = record {
  data_bytes = none;
  recovered = false;
  corrected_byte_count = 0;
  usable_copies = usable_copies;
}
decode_group all_copies usable_copies (c ∷ []) = record {
  data_bytes = some c;
  recovered = false;
  corrected_byte_count = 0;
  usable_copies = usable_copies;
}
decode_group all_copies usable_copies (c ∷ d ∷ group) =
    let (recovered, corrected) = vote_from (c ∷ d ∷ group) 0 (length c) in
    record {
      data_bytes = some recovered;
      recovered = ltb 0 corrected || ltb usable_copies all_copies;
      corrected_byte_count = corrected;
      usable_copies = usable_copies;
    }

-- `max(by_length.items(), key=lambda item: len(item[1]))`
unfoldable pub majority_group : List (ℕ × List Bytes) → List Bytes
majority_group [] = []
majority_group (g ∷ groups) = (heaviest length g groups).1

unfoldable pub decode : List (Option Bytes) → EccDecodeResult
unfolding usable by_length majority_group decode_group
decode copies =
    let present = usable copies in
    decode_group (length copies) (length present) (majority_group (by_length present []))
