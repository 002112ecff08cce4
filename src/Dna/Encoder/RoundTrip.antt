-- ===== src/Dna/Encoder/RoundTrip.antt =====
-- Decoding undoes encoding, and encoding undoes every successful decoding.
use model_db.Prelude.{
  ℕ, ◌*◌, ◌/◌, ◌%◌, ◌<◌, ◌≡◌, refl, ap, ◌∙◌, Bool, true, false, some, List, [], ◌∷◌, ◌++◌, length,
  ok, ◌==◌, All, arith,
}
use model_db.Storage.Interface.{Bytes}
use model_db.Dna.Encoder.{
  byte_bits, base_by_bits, bits_by_base, all_bits, bases, encode, sequence_bits, digit, bytes_of,
  decode,
}

-- Every item of the list is a byte.
abbrev pub IsBytes : Bytes → Type 0
IsBytes = All (λ b. b < 256)

digit_of_bit : (n : ℕ) → digit (n % 2 == 1) ≡ n % 2
digit_of_bit n = ground arith

byte-byte_bits :
    (b : ℕ) (bits : List Bool) → b < 256 → bytes_of (byte_bits b ++ bits) ≡ b ∷ bytes_of bits
unfolding bytes_of byte_bits
byte-byte_bits b bits h =
    ap (λ n. n ∷ bytes_of bits)
      (omega (
        arith,
        digit_of_bit (b / 128),
        digit_of_bit (b / 64),
        digit_of_bit (b / 32),
        digit_of_bit (b / 16),
        digit_of_bit (b / 8),
        digit_of_bit (b / 4),
        digit_of_bit (b / 2),
        digit_of_bit b,
      ))

bytes_of-all_bits : (bytes : Bytes) → IsBytes bytes → bytes_of (all_bits bytes) ≡ bytes
unfolding all_bits bytes_of
bytes_of-all_bits [] h = refl
bytes_of-all_bits (b ∷ bytes) h =
    byte-byte_bits b (all_bits bytes) h.0 ∙ ap (λ t. b ∷ t) (bytes_of-all_bits bytes h.1)

bits_by_base-base_by_bits : (x y : Bool) → bits_by_base (base_by_bits x y) ≡ some (x, y)
unfolding bits_by_base base_by_bits
bits_by_base-base_by_bits true true = refl
bits_by_base-base_by_bits true false = refl
bits_by_base-base_by_bits false true = refl
bits_by_base-base_by_bits false false = refl

pub base_by_bits-bits_by_base :
    (c : ℕ) {x y : Bool} → bits_by_base c ≡ some (x, y) → base_by_bits x y ≡ c
unfolding bits_by_base base_by_bits
base_by_bits-bits_by_base c h = ground arith

-- an even number of bits
abbrev IsEven : List Bool → Type 0
IsEven [] = Unit
IsEven (x ∷ []) = ⊥
IsEven (x ∷ y ∷ bits) = IsEven bits

all_bits-IsEven : (bytes : Bytes) → IsEven (all_bits bytes)
unfolding all_bits byte_bits
all_bits-IsEven [] = tt
all_bits-IsEven (b ∷ bytes) = all_bits-IsEven bytes

sequence_bits-bases : (bits : List Bool) → IsEven bits → sequence_bits (bases bits) ≡ some bits
unfolding sequence_bits bases
sequence_bits-bases [] h = refl
sequence_bits-bases (x ∷ []) h = absurd h
sequence_bits-bases (x ∷ y ∷ bits) h =
    ground (arith, bits_by_base-base_by_bits x y, sequence_bits-bases bits h)

pub length-encode : (bytes : Bytes) → length (encode bytes) ≡ 4 * length bytes
unfolding encode bases all_bits byte_bits
length-encode [] = refl
length-encode (b ∷ bytes) = omega (arith, length-encode bytes)

-- Every payload of bytes is decoded from its sequence.
pub decode-encode : (bytes : Bytes) → IsBytes bytes → decode (encode bytes) ≡ ok bytes
unfolding decode
decode-encode bytes h = ground (arith, length-encode bytes, encoded_bits, bytes_of-all_bits bytes h)
  where
    encoded_bits : sequence_bits (encode bytes) ≡ some (all_bits bytes)
    encoded_bits = unfold encode in sequence_bits-bases (all_bits bytes) (all_bits-IsEven bytes)
