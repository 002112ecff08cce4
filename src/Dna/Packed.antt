-- ===== src/Dna/Packed.antt =====
-- `_pack` and `_unpack` of dna/storage.py: the stored form of a block's copies.
use model_db.Prelude.{
  ℕ, zero, suc, ◌+◌, ◌*◌, ◌/◌, ◌%◌, ◌^◌, ◌<◌, ◌≡◌, refl, not, ◌&&◌, ◌||◌, List, [], ◌∷◌, ◌++◌,
  arith, ltb, ◌==◌, if◌then◌else◌, length, take, drop, All, length-append, take-length-append,
  drop-length-append, has_prefix, Result, ok, err, ◌>>=◌, codes,
}
use model_db.Errors.{Error, index_error, struct_error, decryption_error}
use model_db.Storage.Interface.{Bytes}
use model_db.Dna.Encoder.{Sequence, decode}

-- `_PACK_MAGIC`, b"MDCD1"
abbrev pub pack_magic : Bytes
pack_magic = codes "MDCD1"

-- struct's ">I": four bytes, the highest first
abbrev pub be32 : ℕ → Bytes
be32 n = (n / 16777216 % 256) ∷ (n / 65536 % 256) ∷ (n / 256 % 256) ∷ (n % 256) ∷ []

-- struct.pack(">BI", count, size), which raises on a number out of range
unfoldable pub pack_header : ℕ → ℕ → Result Error Bytes
pack_header count size =
    if ltb count 256 && ltb size (2 ^ 32) then ok (count ∷ be32 size) else err struct_error

-- b"".join(copies)
abbrev pub join : List Bytes → Bytes
join [] = []
join (c ∷ copies) = c ++ join copies

unfoldable pub pack : List Bytes → Result Error Bytes
unfolding pack_header
pack [] = err index_error
pack (c ∷ copies) = do
  header ← pack_header (length (c ∷ copies)) (length c)
  ok (pack_magic ++ (header ++ join (c ∷ copies)))

-- struct.unpack(">BI", header)
unfoldable pub unpack_header : Bytes → Result Error (ℕ × ℕ)
unpack_header (n ∷ a ∷ b ∷ c ∷ d ∷ []) = ok (n, a * 16777216 + b * 65536 + c * 256 + d)
unpack_header _ = err struct_error

-- [body[i * length : (i + 1) * length] for i in range(count)]
unfoldable pub slices : ℕ → ℕ → Bytes → List Bytes
slices zero size body = []
slices (suc count) size body = take size body ∷ slices count size (drop size body)

-- [decode(seq) for seq in sequences]
unfoldable pub decode_all : List Sequence → Result Error (List Bytes)
decode_all [] = ok []
decode_all (s ∷ sequences) = do c ← decode s; rest ← decode_all sequences; ok (c ∷ rest)

-- the copies in the body of a packed block, if its length is the one that the header says
unfoldable pub unpack_body : ℕ → ℕ → Bytes → Result Error (List Bytes)
unfolding slices
unpack_body count size body =
    if ltb count 1 || not (length body == count * size)
    then err decryption_error
    else ok (slices count size body)

unfoldable pub unpack : (Bytes → Result Error (List Sequence)) → Bytes → Result Error (List Bytes)
unfolding unpack_header unpack_body decode_all
unpack json_sequences blob =
    if has_prefix pack_magic blob
    then (do
      (count, size) ← unpack_header (take 5 (drop 5 blob))
      unpack_body count size (drop 10 blob))
    else (do sequences ← json_sequences blob; decode_all sequences)

-- every copy has the given length
abbrev pub SameSize : ℕ → List Bytes → Type 0
SameSize n = All (λ c. length c ≡ n)

length-join :
    (n : ℕ) (copies : List Bytes) → SameSize n copies → length (join copies) ≡ length copies * n
length-join n [] s = omega arith
length-join n (c ∷ copies) s =
    grind (arith, length-append c (join copies), length-join n copies s.1)

slices-join :
    (n : ℕ) (copies : List Bytes)
    → SameSize n copies
    → slices (length copies) n (join copies) ≡ copies
unfolding slices
slices-join n [] s = refl
slices-join n (c ∷ copies) s =
    let first : take n (c ++ join copies) ≡ c = rw (← s.0) (take-length-append c (join copies)) in
    let last : drop n (c ++ join copies) ≡ join copies =
      rw (← s.0) (drop-length-append c (join copies)) in
    cc (first, last, slices-join n copies s.1)

-- Copies of one size that the header can hold are read back from their packed form.
pub unpack-pack :
    (read : Bytes → Result Error (List Sequence)) (c : Bytes) (copies : List Bytes)
    → SameSize (length c) (c ∷ copies)
    → length (c ∷ copies) < 256
    → length c < 2 ^ 32
    → (pack (c ∷ copies) >>= unpack read) ≡ ok (c ∷ copies)
unfolding pack unpack
unpack-pack read c copies s few short =
    let all : List Bytes = c ∷ copies in
    ground (arith, slices-join (length c) all s, length-join (length c) all s)
