-- ===== src/Examples/Archive.antt =====
-- A durable archive of one block, and its rotation to a new key.
use model_db.Prelude.{
  ◌+◌, ◌^◌, ◌<◌, String, ◌≡◌, refl, sym, ap, ◌∙◌, inl, inr, true, some, [], ◌∷◌, ◌++◌, arith,
  length, ok, err, ok-injective, str_eq_iff,
}
use model_db.Dict.{contains}
use model_db.Storage.Interface.{Bytes, IsLawful, StorageBackend}
use model_db.Storage.Memory.{backend}
use model_db.Storage.Memory.Lawful.{backend_laws}
use model_db.Storage.Memory.Consistent.{put-IsConsistent}
use model_db.Dna.Storage.{
  DnaStorageBackend, Supply, put_with, read, get, persist_metadata, copies_of,
}
use model_db.Dict
use model_db.Storage.Memory
use model_db.Dna.Ecc
use model_db.Errors.{Error, decryption_error}
use model_db.Dna.Crypto.{encrypt, decrypt}
use model_db.Dna.Storage.Archive.{HasWritten, put_with-HasWritten}
use model_db.Dna.Ecc.Heaviest.{heaviest}
use model_db.Dna.Storage.Rotation.{ArchiveRotationReport, rotate_key}
use model_db.Dna.Storage.Rotation.Rekeyed.{Reads, IsReady}
use model_db.Dna.Storage.Rotation.Readable.{contains-read}
use model_db.Dna.Storage.Rotation.Outcome.{
  IsReadable, IsSealable, rotate_key-rereads, rotate_key-unreadable,
}
use model_db.Examples.Cipher.{toy, toy-IsAuthenticated}
use model_db.Examples.Storage.{printed, empty-IsConsistent}
use model_db.Dna.Packed.{unpack}
use model_db.Examples.Dna.{message, old_key, new_key, lost_key, nonce}

abbrev store : StorageBackend
store = backend toy.sha256 printed

abbrev fresh : DnaStorageBackend store.Store
fresh = record {
  ecc_copies = 3;
  explicit_key = some old_key;
  persist = some Memory.empty;
  sequences = [];
  metadata = [];
  checksums = [];
  created_at = [];
}

abbrev supply : Supply
supply = record { now = 5; nonce = nonce }

put_with-HasWritten_example :
    (d' : DnaStorageBackend store.Store) × (put_with toy store fresh supply "doc" message [] old_key
      ≡ ok (d', toy.sha256 message))
    × HasWritten toy store (backend_laws toy.sha256 printed) fresh d' old_key "doc" message
unfolding backend_laws encrypt Ecc.repetition_ecc
put_with-HasWritten_example =
    put_with-HasWritten toy toy-IsAuthenticated store (backend_laws toy.sha256 printed) fresh supply
      "doc" message [] old_key refl empty-IsConsistent refl (omega arith) refl short
  where
    short : length (encrypt toy old_key nonce message) < 2 ^ 32
    short = omega arith

-- the message as it lies in the durable store, sealed three times under one key
abbrev cipher_of : Bytes → Bytes
cipher_of key = nonce ++ toy.aead_encrypt key nonce message []

abbrev packed_of : Bytes → Bytes
packed_of key =
    77
    ∷ 68
    ∷ 67
    ∷ 68
    ∷ 49
    ∷ 3
    ∷ 0
    ∷ 0
    ∷ 0
    ∷ 64
    ∷ (cipher_of key ++ (cipher_of key ++ cipher_of key))

abbrev kept_of : Bytes → Memory.MemoryStorageBackend
kept_of key =
    (Memory.put toy.sha256 Memory.empty 5 "dna:doc" (packed_of key)
      (persist_metadata "doc" (toy.sha256 message) [])).0

abbrev archive_of : Bytes → DnaStorageBackend store.Store
archive_of key = record {
  ecc_copies = 3;
  explicit_key = some old_key;
  persist = some (kept_of key);
  sequences = [];
  metadata = ("doc", []) ∷ [];
  checksums = ("doc", toy.sha256 message) ∷ [];
  created_at = ("doc", 5) ∷ [];
}

reads_old : read toy store (archive_of old_key) "doc" old_key ≡ ok message
unfolding read copies_of Dict.get Memory.get Memory.put Dict.put unpack Ecc.repetition_ecc
    Ecc.decode Ecc.add_copy heaviest decrypt Ecc.vote_from Ecc.vote Ecc.add_vote
reads_old = refl

old_is_lost : read toy store (archive_of lost_key) "doc" old_key ≡ err decryption_error
unfolding read copies_of Dict.get Memory.get Memory.put Dict.put unpack Ecc.repetition_ecc
    Ecc.decode Ecc.add_copy heaviest decrypt Ecc.vote_from Ecc.vote Ecc.add_vote
old_is_lost = refl

new_is_lost : read toy store (archive_of lost_key) "doc" new_key ≡ err decryption_error
unfolding read copies_of Dict.get Memory.get Memory.put Dict.put unpack Ecc.repetition_ecc
    Ecc.decode Ecc.add_copy heaviest decrypt Ecc.vote_from Ecc.vote Ecc.add_vote
new_is_lost = refl

only_doc : (j : String) → contains (archive_of old_key).metadata j ≡ true → "doc" ≡ j
unfolding Dict.get
only_doc j m = ground (arith, str_eq_iff "doc" j)

abbrev laws : IsLawful toy.sha256 store
laws = backend_laws toy.sha256 printed

archive-IsReady : IsReady toy store laws (archive_of old_key)
unfolding backend_laws Ecc.repetition_ecc
archive-IsReady = record {
  store = kept_of old_key;
  kept = refl;
  valid =
      put-IsConsistent toy.sha256 Memory.empty 5 "dna:doc" (packed_of old_key)
        (persist_metadata "doc" (toy.sha256 message) []) empty-IsConsistent;
  odd = refl;
  few = omega arith;
}

archive-IsReadable : IsReadable toy store (archive_of old_key) old_key new_key
archive-IsReadable j m = (message, inl (rw (← only_doc j m) reads_old))

archive-IsSealable : IsSealable toy store (archive_of old_key) old_key new_key (λ _. supply)
unfolding encrypt
archive-IsSealable j plain h n =
    let e : "doc" ≡ j =
      only_doc j (contains-read toy store (archive_of old_key) old_key new_key j old_key refl h) in
    let same : message ≡ plain =
      ok-injective
        (sym reads_old ∙ ap (λ k. read toy store (archive_of old_key) k old_key) e ∙ h) in
    rw (← same) (omega arith)

rotate_key-rereads_example :
    (d' : DnaStorageBackend store.Store) × (report : ArchiveRotationReport) × (rotate_key toy store
        lost_key
        (archive_of old_key)
        new_key
        (λ _. supply)
      ≡ (d', ok report))
    × (d'.explicit_key ≡ some new_key)
    × (report.blocks + report.already_current ≡ length (Dict.keys (archive_of old_key).metadata))
    × ((j : String) (plain : Bytes)
        → contains (archive_of old_key).metadata j ≡ true
        → Reads toy store (archive_of old_key) old_key new_key j plain
        → get toy store lost_key d' j ≡ ok plain)
rotate_key-rereads_example =
    rotate_key-rereads toy toy-IsAuthenticated store laws (archive_of old_key) lost_key new_key
      (λ _. supply) (λ _. refl) archive-IsReady (refl, refl) archive-IsReadable archive-IsSealable

lost-unreadable :
    (plain : Bytes) → ¬ Reads toy store (archive_of lost_key) old_key new_key "doc" plain
lost-unreadable plain (inl h) = absurd (cc (old_is_lost))
lost-unreadable plain (inr h) = absurd (cc (new_is_lost))

doc_is_there : contains (archive_of lost_key).metadata "doc" ≡ true
unfolding Dict.get
doc_is_there = refl

rotate_key-unreadable_example :
    (e : Error) × (rotate_key toy store lost_key (archive_of lost_key) new_key (λ _. supply)
      ≡ (archive_of lost_key, err e))
rotate_key-unreadable_example =
    rotate_key-unreadable toy store (archive_of lost_key) lost_key new_key (λ _. supply) "doc"
      doc_is_there lost-unreadable
