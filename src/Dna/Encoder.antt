-- ===== src/Dna/Encoder.antt =====
-- dna/encoder.py: eight bits of a byte are four bases. A sequence is the list of its code points,
-- since `decode` is given texts with any symbols.
pub mod RoundTrip
pub mod Inverse
use model_db.Prelude.{
  ℕ, ◌+◌, ◌*◌, ◌/◌, ◌%◌, Bool, true, false, Option, none, some, List, [], ◌∷◌, ◌++◌, length, Result,
  ok, err, ◌==◌, if◌then◌else◌,
}
use model_db.Errors.{Error, dna_decode_error}
use model_db.Storage.Interface.{Bytes}

abbrev pub Sequence : Type 0
Sequence = List ℕ

-- f"{byte:08b}" of a byte, as truth values
unfoldable pub byte_bits : ℕ → List Bool
byte_bits b =
    (b / 128 % 2 == 1)
    ∷ (b / 64 % 2 == 1)
    ∷ (b / 32 % 2 == 1)
    ∷ (b / 16 % 2 == 1)
    ∷ (b / 8 % 2 == 1)
    ∷ (b / 4 % 2 == 1)
    ∷ (b / 2 % 2 == 1)
    ∷ (b % 2 == 1)
    ∷ []

-- `_BASE_BY_BITS`
unfoldable pub base_by_bits : Bool → Bool → ℕ
base_by_bits false false = b'A'
base_by_bits false true = b'C'
base_by_bits true false = b'G'
base_by_bits true true = b'T'

-- `_BITS_BY_BASE`, with `none` for a missing key
unfoldable pub bits_by_base : ℕ → Option (Bool × Bool)
bits_by_base base =
    if base == b'A'
    then some (false, false)
    else if base == b'C'
    then some (false, true)
    else if base == b'G'
    then some (true, false)
    else if base == b'T'
    then some (true, true)
    else none

unfoldable pub all_bits : Bytes → List Bool
all_bits [] = []
all_bits (b ∷ bytes) = byte_bits b ++ all_bits bytes

-- The bits are taken two at a time; there are eight to a byte, so none is left over.
unfoldable pub bases : List Bool → Sequence
bases (x ∷ y ∷ bits) = base_by_bits x y ∷ bases bits
bases _ = []

unfoldable pub encode : Bytes → Sequence
encode bytes = bases (all_bits bytes)

unfoldable pub sequence_bits : Sequence → Option (List Bool)
sequence_bits [] = some []
sequence_bits (base ∷ rest) = elim (bits_by_base base) [
  | none ↦ none
  | some (x, y) ↦ elim (sequence_bits rest) [ none ↦ none | some bits ↦ some (x ∷ y ∷ bits) ]
]

abbrev pub digit : Bool → ℕ
digit true = 1
digit false = 0

-- `int(bits[i:i + 8], 2)` for each i; a sequence of 4n bases has 8n bits, so none is left over.
unfoldable pub bytes_of : List Bool → Bytes
bytes_of (s ∷ t ∷ u ∷ v ∷ w ∷ x ∷ y ∷ z ∷ bits) =
    (digit s * 128
      + digit t * 64
      + digit u * 32
      + digit v * 16
      + digit w * 8
      + digit x * 4
      + digit y * 2
      + digit z)
    ∷ bytes_of bits
bytes_of _ = []

unfoldable pub decode : Sequence → Result Error Bytes
decode sequence =
    if length sequence % 4 == 0
    then elim (sequence_bits sequence) [
      | none ↦ err dna_decode_error
      | some bits ↦ ok (bytes_of bits)
    ]
    else err dna_decode_error
