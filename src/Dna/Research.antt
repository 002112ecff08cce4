-- ===== src/Dna/Research.antt =====
-- `corrupt_and_recover` of dna/storage.py: the stored sequences of a block are damaged at random and
-- decoded again; what is stored is only read.
use model_db.Prelude.{
  suc, ◌*◌, ◌<◌, String, ◌≡◌, refl, ap, true, false, Option, none, some, List, [], ◌∷◌, arith, ltb,
  if◌then◌else◌, length, Result, ok, err, ◌>>=◌,
}
use model_db.Errors.{Error}
use model_db.Storage.Interface.{Bytes, StorageBackend}
use model_db.Platform.{Platform, IsAuthenticated}
use model_db.Dna.Encoder
use model_db.Dna.Encoder.{Sequence}
use model_db.Dna.Ecc
use model_db.Dna.Ecc.{EccDecodeResult}
use model_db.Dna.Ecc.Groups.{intact}
use model_db.Dna.Ecc.Majority.{decode-majority}
use model_db.Dna.Crypto.{nonce_len, encrypt, decrypt, decrypt-encrypt}
use model_db.Dna.Corruption.{Random, CorruptionRates, corrupt_sequence}
use model_db.Dna.Storage.{DnaStorageBackend, key_of, sequences_for}

module _ (p : Platform) (b : StorageBackend) (rd : Random) where
  -- `try: decode(corrupted) except DNADecodeError: None`, for a sequence that was not dropped
  abbrev pub decoded : Option Sequence → Option Bytes
  decoded none = none
  decoded (some corrupted) = elim (Encoder.decode corrupted) [ ok copy ↦ some copy | err _ ↦ none ]

  -- the loop over the sequences
  unfoldable pub decoded_copies : CorruptionRates rd → rd.Rng → List Sequence → List (Option Bytes)
  decoded_copies rates rng [] = []
  decoded_copies rates rng (sequence ∷ sequences) =
      let (corrupted, rng') = corrupt_sequence rd sequence rates rng in
      decoded corrupted ∷ decoded_copies rates rng' sequences

  -- without an error correcting code the first copy is the result
  abbrev pub single : List (Option Bytes) → EccDecodeResult
  single (some copy ∷ copies) = record {
    data_bytes = some copy;
    recovered = false;
    corrected_byte_count = 0;
    usable_copies = 1;
  }
  single _ = record {
    data_bytes = none;
    recovered = false;
    corrected_byte_count = 0;
    usable_copies = 0;
  }

  -- the decryption of what was recovered
  abbrev pub opened : Bytes → EccDecodeResult → EccDecodeResult
  opened key result = elim result.data_bytes [
    | none ↦ result
    | some recovered ↦ elim (decrypt p key recovered) [
      | ok plaintext ↦ record result { data_bytes = some plaintext }
      | err _ ↦ record result { data_bytes = none; recovered = false }
    ]
  ]

  unfoldable pub corrupt_and_recover :
      Bytes
      → DnaStorageBackend b.Store
      → String
      → CorruptionRates rd
      → rd.Rng
      → Result Error EccDecodeResult
  corrupt_and_recover default_key d block_id rates rng = do
    sequences ← sequences_for p b d block_id
    let copies = decoded_copies rates rng sequences
    ok (
        opened (key_of p b default_key d)
          (if ltb 1 d.ecc_copies then Ecc.decode copies else single copies))

  opened_as :
      (key : Bytes) (result : EccDecodeResult) {recovered plaintext : Bytes}
      → result.data_bytes ≡ some recovered
      → decrypt p key recovered ≡ ok plaintext
      → (opened key result).data_bytes ≡ some plaintext
  opened_as key result h k = ground (arith, h, k)

  length-decoded_copies :
      (rates : CorruptionRates rd) (rng : rd.Rng) (sequences : List Sequence)
      → length (decoded_copies rates rng sequences) ≡ length sequences
  unfolding decoded_copies
  length-decoded_copies rates rng [] = refl
  length-decoded_copies rates rng (sequence ∷ sequences) =
      ap suc (length-decoded_copies rates (corrupt_sequence rd sequence rates rng).1 sequences)

module _ (p : Platform) (a : IsAuthenticated p) (b : StorageBackend) (rd : Random)
    (d : DnaStorageBackend b.Store) (default_key : Bytes) where
  -- If the object keeps more than one copy, and more than half of the sequences of a block still decode
  -- to the sealed payload, whatever became of the others, the payload is recovered.
  pub corrupt_and_recover-majority :
      (block_id : String) (rates : CorruptionRates rd) (rng : rd.Rng) (nonce payload : Bytes)
      (sequences : List Sequence)
      → 1 < d.ecc_copies
      → length nonce ≡ nonce_len
      → sequences_for p b d block_id ≡ ok sequences
      → length sequences
        < 2
          * intact
              (encrypt p (key_of p b default_key d) nonce payload)
              (decoded_copies p b rd rates rng sequences)
      → (result : EccDecodeResult) × (corrupt_and_recover p b rd default_key d block_id rates rng
          ≡ ok result)
        × (result.data_bytes ≡ some payload)
  unfolding corrupt_and_recover
  corrupt_and_recover-majority block_id rates rng nonce payload sequences many sized there strict =
      let key = key_of p b default_key d in
      let copies = decoded_copies p b rd rates rng sequences in
      let voted : (Ecc.decode copies).data_bytes ≡ some (encrypt p key nonce payload) =
        decode-majority (encrypt p key nonce payload) copies
          (omega (arith, length-decoded_copies p b rd rates rng sequences)) in
      (
        opened p b rd key (Ecc.decode copies),
        rw (there, le→many) refl,
        opened_as p b rd key (Ecc.decode copies) voted
            (decrypt-encrypt p a key nonce sized payload),
      )
    where
      le→many : ltb 1 d.ecc_copies ≡ true
      le→many = ground arith
