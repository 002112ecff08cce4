-- ===== src/Examples/Research.antt =====
-- A block of three sequences, of which the first is dropped.
use model_db.Prelude.{
  ℕ, ◌+◌, ◌*◌, ◌≤◌, ◌≡◌, refl, true, none, some, List, [], ◌∷◌, arith, ltb, length, replicate,
  all_of, get_or, ok,
}
use model_db.Dict
use model_db.Storage.Interface.{StorageBackend}
use model_db.Storage.Memory.{MemoryStorageBackend, backend}
use model_db.Dna.Encoder
use model_db.Dna.Encoder.{Sequence}
use model_db.Dna.Encoder.Inverse.{is_base}
use model_db.Dna.Ecc.{EccDecodeResult}
use model_db.Dna.Ecc.Groups.{intact}
use model_db.Dna.Crypto.{encrypt}
use model_db.Dna.Corruption.{
  Random, IsFair, CorruptionRates, corrupt_sequence, corrupt_bases, insertion, substitute,
}
use model_db.Dna.Corruption.Damage.{corrupt_sequence-bases}
use model_db.Dna.Research.{decoded_copies, corrupt_and_recover, corrupt_and_recover-majority}
use model_db.Dna.Storage.{DnaStorageBackend, sequences_for}
use model_db.Examples.Cipher.{toy, toy-IsAuthenticated}
use model_db.Examples.Storage.{printed}
use model_db.Examples.Dna.{message, old_key, nonce}

-- draws that count upwards
abbrev counting : Random
counting = record {
  Rng = ℕ;
  Float = ℕ;
  random = λ n. (n, n + 1);
  choice = λ n options. (get_or options 0 0, n + 1);
  below = ltb;
  is_rate = λ n. true;
}

counting-IsFair : IsFair counting
counting-IsFair = record { choice-any_of = λ rng test x options h. ground arith }

-- the first draw is below the rate of dropping, and no other is below any rate
abbrev first_drops : CorruptionRates counting
first_drops = record {
  substitution_rate = 0;
  insertion_rate = 0;
  deletion_rate = 0;
  dropout_rate = 1;
}

abbrev strand : Sequence
strand = 67 ∷ 71 ∷ []

strand_read : (corrupt_sequence counting strand first_drops 1).0 ≡ some strand
unfolding corrupt_sequence corrupt_bases insertion substitute
strand_read = refl

corrupt_sequence-bases_example :
    (all_of is_base strand ≡ true) × (length strand ≤ 2 * length strand)
corrupt_sequence-bases_example =
    corrupt_sequence-bases counting counting-IsFair first_drops 1 strand strand refl strand_read

abbrev memory : StorageBackend
memory = backend toy.sha256 printed

abbrev sequences : List Sequence
sequences = replicate 3 (Encoder.encode (encrypt toy old_key nonce message))

abbrev block : DnaStorageBackend MemoryStorageBackend
block = record {
  ecc_copies = 3;
  explicit_key = some old_key;
  persist = none;
  sequences = ("doc", sequences) ∷ [];
  metadata = ("doc", []) ∷ [];
  checksums = ("doc", "digest") ∷ [];
  created_at = ("doc", 1) ∷ [];
}

block_there : sequences_for toy memory block "doc" ≡ ok sequences
unfolding sequences_for Dict.get
block_there = refl

survivors :
    intact
      (encrypt toy old_key nonce message)
      (decoded_copies toy memory counting first_drops 0 sequences)
    ≡ 2
unfolding decoded_copies corrupt_sequence corrupt_bases insertion substitute encrypt Encoder.encode
    Encoder.decode Encoder.bases Encoder.all_bits Encoder.byte_bits Encoder.sequence_bits
    Encoder.bits_by_base Encoder.base_by_bits Encoder.bytes_of
survivors = refl

corrupt_and_recover-majority_example :
    (result : EccDecodeResult) × (corrupt_and_recover toy memory counting old_key block "doc"
        first_drops 0
      ≡ ok result)
    × (result.data_bytes ≡ some message)
corrupt_and_recover-majority_example =
    corrupt_and_recover-majority toy toy-IsAuthenticated memory counting block old_key "doc"
      first_drops 0 nonce message sequences (omega arith) refl block_there
      (omega (arith, survivors))
