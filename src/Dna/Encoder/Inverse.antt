-- ===== src/Dna/Encoder/Inverse.antt =====
-- Which sequences decode, and that encoding gives a decoded sequence back.
use model_db.Prelude.{
  ℕ, ◌+◌, ◌*◌, ◌/◌, ◌%◌, ◌≤◌, ◌<◌, ◌≡◌, refl, Bool, true, false, ◌&&◌, ◌||◌, some, List, [], ◌∷◌,
  length, ok, is_ok, is_some, ◌==◌, all_of, arith, Option-cases, inl, inr,
}
use mathlib.Core.Option.{some-injective}
use model_db.Storage.Interface.{Bytes}
use model_db.Dna.Encoder.{
  Sequence, byte_bits, base_by_bits, bits_by_base, all_bits, bases, encode, sequence_bits, digit,
  bytes_of, decode,
}
use model_db.Dna.Encoder.RoundTrip.{IsBytes, base_by_bits-bits_by_base}

abbrev pub is_base : ℕ → Bool
is_base c = c == b'A' || c == b'C' || c == b'G' || c == b'T'

bits_by_base-eq-is_base : (c : ℕ) → is_some (bits_by_base c) ≡ is_base c
unfolding bits_by_base
bits_by_base-eq-is_base c = ground arith

sequence_bits-eq-all_of : (seq : Sequence) → is_some (sequence_bits seq) ≡ all_of is_base seq
unfolding sequence_bits
sequence_bits-eq-all_of [] = refl
sequence_bits-eq-all_of (c ∷ seq) =
    ground (arith, bits_by_base-eq-is_base c, sequence_bits-eq-all_of seq)

-- Decoding succeeds on exactly the texts of A, C, G and T whose length is a multiple of four.
pub is_ok-decode :
    (seq : Sequence) → is_ok (decode seq) ≡ (length seq % 4 == 0 && all_of is_base seq)
unfolding decode
is_ok-decode seq = ground (arith, sequence_bits-eq-all_of seq)

bit_of_digit : (n : ℕ) (x : Bool) → n % 2 ≡ digit x → (n % 2 == 1) ≡ x
bit_of_digit n true h = ground arith
bit_of_digit n false h = ground arith

digit-le : (x : Bool) → digit x ≤ 1
digit-le true = omega arith
digit-le false = omega arith

ruleset digit_bounds = (arith, digit-le)

module _ (s t u v w x y z : Bool) where
  abbrev value : ℕ
  value =
      digit s * 128
      + digit t * 64
      + digit u * 32
      + digit v * 16
      + digit w * 8
      + digit x * 4
      + digit y * 2
      + digit z

  value-lt : value < 256
  value-lt = omega digit_bounds

  byte_bits-value : byte_bits value ≡ s ∷ t ∷ u ∷ v ∷ w ∷ x ∷ y ∷ z ∷ []
  unfolding byte_bits
  byte_bits-value = cc (
    bit_of_digit (value / 128) s (omega digit_bounds),
    bit_of_digit (value / 64) t (omega digit_bounds),
    bit_of_digit (value / 32) u (omega digit_bounds),
    bit_of_digit (value / 16) v (omega digit_bounds),
    bit_of_digit (value / 8) w (omega digit_bounds),
    bit_of_digit (value / 4) x (omega digit_bounds),
    bit_of_digit (value / 2) y (omega digit_bounds),
    bit_of_digit value z (omega digit_bounds),
  )

module _ (s t u v w x y z : Bool) (bits : List Bool) where
  encode-bytes_of_block :
      encode (bytes_of (s ∷ t ∷ u ∷ v ∷ w ∷ x ∷ y ∷ z ∷ bits))
      ≡ base_by_bits s t
        ∷ base_by_bits u v
        ∷ base_by_bits w x
        ∷ base_by_bits y z
        ∷ encode (bytes_of bits)
  unfolding encode bases all_bits bytes_of
  encode-bytes_of_block = rw (byte_bits-value s t u v w x y z)

sequence_bits-cons :
    (c : ℕ) (seq : Sequence) {bits : List Bool}
    → sequence_bits (c ∷ seq) ≡ some bits
    → (x : Bool) × (y : Bool) × (r : List Bool) × (bits_by_base c ≡ some (x, y))
      × (sequence_bits seq ≡ some r)
      × (bits ≡ x ∷ y ∷ r)
unfolding sequence_bits
sequence_bits-cons c seq h = elim (Option-cases (bits_by_base c)) [
  | inl e ↦ absurd (ground arith)
  | inr (p, e) ↦ elim (Option-cases (sequence_bits seq)) [
    | inl f ↦ absurd (ground arith)
    | inr (r, f) ↦ (p.0, p.1, r, e, f, ground arith)
  ]
]

encode-bytes_of :
    (seq : Sequence) (bits : List Bool)
    → length seq % 4 ≡ 0
    → sequence_bits seq ≡ some bits
    → (encode (bytes_of bits) ≡ seq) × IsBytes (bytes_of bits)
unfolding bytes_of
encode-bytes_of [] bits h e =
    let none_left : [] ≡ bits = unfold sequence_bits in some-injective [] bits e in
    rw (← none_left) (unfold encode all_bits bases in (refl, tt))
encode-bytes_of (a ∷ []) bits h e = absurd (omega arith)
encode-bytes_of (a ∷ b ∷ []) bits h e = absurd (omega arith)
encode-bytes_of (a ∷ b ∷ c ∷ []) bits h e = absurd (omega arith)
encode-bytes_of (a ∷ b ∷ c ∷ d ∷ seq) bits h e =
    let (s, t, r1, ea, e1, f1) = sequence_bits-cons a (b ∷ c ∷ d ∷ seq) e in
    let (u, v, r2, eb, e2, f2) = sequence_bits-cons b (c ∷ d ∷ seq) e1 in
    let (w, x, r3, ec, e3, f3) = sequence_bits-cons c (d ∷ seq) e2 in
    let (y, z, r4, ed, e4, f4) = sequence_bits-cons d seq e3 in
    let (same, are_bytes) = encode-bytes_of seq r4 (omega arith) e4 in
    let whole : bits ≡ s ∷ t ∷ u ∷ v ∷ w ∷ x ∷ y ∷ z ∷ r4 = cc in
    let spelled : encode (bytes_of (s ∷ t ∷ u ∷ v ∷ w ∷ x ∷ y ∷ z ∷ r4)) ≡ a ∷ b ∷ c ∷ d ∷ seq =
      cc (
        encode-bytes_of_block s t u v w x y z r4,
        base_by_bits-bits_by_base a ea,
        base_by_bits-bits_by_base b eb,
        base_by_bits-bits_by_base c ec,
        base_by_bits-bits_by_base d ed,
      ) in
    rw whole (spelled, (value-lt s t u v w x y z, are_bytes))

decoded_bits :
    (seq : Sequence) (bytes : Bytes)
    → decode seq ≡ ok bytes
    → (bits : List Bool) × (length seq % 4 ≡ 0)
      × (sequence_bits seq ≡ some bits)
      × (bytes ≡ bytes_of bits)
unfolding decode
decoded_bits seq bytes h = elim (Option-cases (sequence_bits seq)) [
  | inl e ↦ absurd (ground arith)
  | inr (bits, e) ↦ (bits, ground arith, e, ground arith)
]

-- A sequence that decodes is the encoding of what it decodes to, which is a list of bytes.
pub encode-decode :
    (seq : Sequence) (bytes : Bytes) → decode seq ≡ ok bytes → (encode bytes ≡ seq) × IsBytes bytes
encode-decode seq bytes h =
    let (bits, multiple, read, value_is) = decoded_bits seq bytes h in
    rw value_is (encode-bytes_of seq bits multiple read)
