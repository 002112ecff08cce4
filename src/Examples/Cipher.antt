-- ===== src/Examples/Cipher.antt =====
-- A platform that satisfies what the code relies on: a toy cipher that writes the key and the
-- associated data in front of the message, and compressors that change nothing.
use model_db.Prelude.{
  zero, suc, ◌≤◌, ◌≡◌, refl, ◌≢◌, ◌⊎◌, inl, inr, Option, none, some, [], ◌∷◌, ◌++◌, arith, ◌==◌,
  ==_iff, if◌then◌else◌, Bool-cases, length, drop, replicate, length-append, drop-length-append,
  list_eq, list_eq_iff, err, ok,
}
use model_db.Errors.{value_error}
use model_db.Storage.Interface.{Bytes}
use model_db.Platform.{Platform, IsAuthenticated, IsLossless}

-- the label as numbers from 1, ended by a 0, and the message
abbrev pub seal : Bytes → Bytes → Bytes
seal [] m = 0 ∷ m
seal (b ∷ label) m = suc b ∷ seal label m

abbrev pub unseal : Bytes → Bytes → Option Bytes
unseal [] [] = none
unseal [] (zero ∷ m) = some m
unseal [] (suc _ ∷ m) = none
unseal (b ∷ label) [] = none
unseal (b ∷ label) (zero ∷ m) = none
unseal (b ∷ label) (suc c ∷ m) = let rest = unseal label m in if b == c then rest else none

unseal-seal : (label m : Bytes) → unseal label (seal label m) ≡ some m
unseal-seal [] m = refl
unseal-seal (b ∷ label) m = ground (arith, ==_iff b b, unseal-seal label m)

unseal-seal_ne : (label label' m : Bytes) → label ≢ label' → unseal label' (seal label m) ≡ none
unseal-seal_ne [] [] m ne = absurd (ne refl)
unseal-seal_ne [] (_ ∷ _) m ne = refl
unseal-seal_ne (_ ∷ _) [] m ne = refl
unseal-seal_ne (b ∷ label) (c ∷ label') m ne = elim (Bool-cases (c == b)) [
  | inl e ↦
      let same : c ≡ b = ground (arith, ==_iff c b) in
      rw e (unseal-seal_ne label label' m (λ h. ne (cc)))
  | inr e ↦ rw e refl
]

abbrev pub then_unseal : Bytes → Option Bytes → Option Bytes
then_unseal label none = none
then_unseal label (some m) = unseal label m

abbrev pub blank_tag : Bytes
blank_tag = replicate 16 0

abbrev pub toy : Platform
toy = record {
  sha256 = λ b. if length b == 0 then "empty" else "digest";
  aead_encrypt = λ k n m a. blank_tag ++ seal k (seal a m);
  aead_decrypt = λ k n c a. then_unseal a (unseal k (drop 16 c));
  zlib_compress = λ b. b;
  gzip_compress = λ b. b;
  zlib_decompress = some;
  gzip_decompress = ok;
  json_sequences = λ _. err value_error;
}

toy-tagged : (c : Bytes) → 16 ≤ length (blank_tag ++ c)
toy-tagged c = rw (length-append blank_tag c) (omega arith)

toy-rejects :
    (k k' n m a a' : Bytes)
    → (k ≢ k') ⊎ (a ≢ a')
    → toy.aead_decrypt k' n (toy.aead_encrypt k n m a) a' ≡ none
toy-rejects k k' n m a a' (inl ne) =
    rw (drop-length-append blank_tag (seal k (seal a m)), unseal-seal_ne k k' (seal a m) ne) refl
toy-rejects k k' n m a a' (inr ne) =
    rw (drop-length-append blank_tag (seal k (seal a m))) (elim (Bool-cases (list_eq k k')) [
      | inl same ↦
          let e : k ≡ k' = ground (arith, list_eq_iff k k') in
          rw (← e, unseal-seal k (seal a m)) (unseal-seal_ne a a' m ne)
      | inr other ↦ rw (unseal-seal_ne k k' (seal a m) (λ e. ground (arith, list_eq_iff k k'))) refl
    ])

pub toy-IsAuthenticated : IsAuthenticated toy
toy-IsAuthenticated = record {
  opens = λ k n m a.
      rw (drop-length-append blank_tag (seal k (seal a m)), unseal-seal k (seal a m))
        (unseal-seal a m);
  rejects = toy-rejects;
  tagged = λ k n m a. toy-tagged (seal k (seal a m));
}

pub toy-IsLossless : IsLossless toy
toy-IsLossless = record { zlib_inverse = λ b. refl; gzip_inverse = λ b. refl }
