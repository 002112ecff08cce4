-- ===== src/Dna/Storage.antt =====
-- `DNAStorageBackend` of dna/storage.py. With `persist` the packed blocks live in a durable store
-- under "dna:" ids; without it the base sequences are kept in the object. The durable store is any
-- `StorageBackend`; a nonce and the time of a write are arguments, and `default_key` is what
-- load_or_create_dna_key() returns: it is the same on every call, so the object need not keep it as
-- the source does. An operation that raises has changed nothing.
pub mod Archive
pub mod Frame
pub mod Rotation
use model_db.Prelude.{
  ℕ, ◌+◌, String, Bool, Option, none, some, List, [], ◌∷◌, map, ltb, if◌then◌else◌, length, Result,
  ok, err, ◌>>=◌, ◌>>◌, guard, map_ok, ◌+ˢ◌,
}
use model_db.Dict
use model_db.Dict.{Dict, contains}
use model_db.Errors.{Error, key_error, value_error, decryption_error}
use model_db.Storage.Interface.{
  Bytes, MetaValue, text, nested, MetaFields, Metadata, to_fields, of_fields, BlockInfo,
  StorageBackend,
}
use model_db.Storage.Memory.{item, fits}
use model_db.Platform.{Platform}
use model_db.Dna.Encoder
use model_db.Dna.Encoder.{Sequence}
use model_db.Dna.Ecc
use model_db.Dna.Ecc.{repetition_ecc}
use model_db.Dna.Crypto.{encrypt, decrypt}
use model_db.Dna.Packed.{pack, unpack, decode_all}

pub record DnaStorageBackend (S : Type 0) : Type 0 where
  pub ecc_copies : ℕ
  pub explicit_key : Option Bytes
  pub persist : Option S
  pub sequences : Dict (List Sequence)
  pub metadata : Dict Metadata
  pub checksums : Dict String
  pub created_at : Dict ℕ

-- `_PERSIST_PREFIX + block_id`
abbrev pub persist_id : String → String
persist_id block_id = "dna:" +ˢ block_id

-- `{**_PERSIST_MARK, "block": block_id, "checksum": checksum, "meta": meta}`
abbrev pub persist_metadata : String → String → Metadata → Metadata
persist_metadata block_id checksum meta =
    ("dna_archive", text "1")
    ∷ ("block", text block_id)
    ∷ ("checksum", text checksum)
    ∷ ("meta", nested (to_fields meta))
    ∷ []

-- what the machine supplies to a write: the time, and the random bytes of the nonce
pub record Supply : Type 0 where
  pub now : ℕ
  pub nonce : Bytes

module _ (p : Platform) (b : StorageBackend) where
  abbrev pub Dna : Type 0
  Dna = DnaStorageBackend b.Store

  -- `self._key`
  abbrev pub key_of : Bytes → Dna → Bytes
  key_of default_key d = elim d.explicit_key [ none ↦ default_key | some key ↦ key ]

  -- `self._ecc.encode(ciphertext) if self._ecc else [ciphertext]`
  abbrev pub copies_to_write : Dna → Bytes → List Bytes
  copies_to_write d ciphertext =
      if ltb 1 d.ecc_copies then Ecc.encode d.ecc_copies ciphertext else ciphertext ∷ []

  -- the branch of `_put` with a durable store
  unfoldable pub put_persisted :
      Dna → b.Store → ℕ → String → Metadata → String → List Bytes → Result Error (Dna × String)
  put_persisted d store now block_id meta checksum copies = do
    blob ← pack copies
    let store' =
        (b.put store now (persist_id block_id) blob (persist_metadata block_id checksum meta)).0
    info ← b.metadata store' (persist_id block_id)
    ok (
      record d {
        persist = some store';
        metadata = Dict.put d.metadata block_id meta;
        checksums = Dict.put d.checksums block_id checksum;
        created_at = Dict.put d.created_at block_id info.created_at;
      },
      checksum,
    )

  -- the branch of `_put` without one
  unfoldable pub put_in_memory : Dna → ℕ → String → Metadata → String → List Bytes → Dna × String
  put_in_memory d now block_id meta checksum copies = (
    record d {
      sequences = Dict.put d.sequences block_id (map Encoder.encode copies);
      metadata = Dict.put d.metadata block_id meta;
      checksums = Dict.put d.checksums block_id checksum;
      created_at = Dict.set_default d.created_at block_id now;
    },
    checksum,
  )

  -- `_put`
  unfoldable pub put_with :
      Dna → Supply → String → Bytes → Metadata → Bytes → Result Error (Dna × String)
  unfolding put_persisted put_in_memory
  put_with d supply block_id payload meta key =
      let checksum = p.sha256 payload in
      let copies = copies_to_write d (encrypt p key supply.nonce payload) in
      elim d.persist [
        | none ↦ ok (put_in_memory d supply.now block_id meta checksum copies)
        | some store ↦ put_persisted d store supply.now block_id meta checksum copies
      ]

  unfoldable pub put :
      Bytes → Dna → Supply → String → Bytes → Metadata → Result Error (Dna × String)
  put default_key d supply block_id payload meta =
      put_with d supply block_id payload meta (key_of default_key d)

  -- `_copies`; any KeyError of the durable store comes back as one
  unfoldable pub copies_of : Dna → String → Result Error (List Bytes)
  copies_of d block_id = elim d.persist [
    | none ↦ item (Dict.get d.sequences block_id) >>= decode_all
    | some store ↦
        if contains d.metadata block_id
        then b.get store (persist_id block_id) >>= unpack p.json_sequences
        else err key_error
  ]

  -- `_read`, after the copies are there
  unfoldable pub open_copies : Bytes → List Bytes → Result Error Bytes
  open_copies key (c ∷ []) = decrypt p key c
  open_copies key copies = do
    _ ← repetition_ecc (length copies)
    recovered ← item (Ecc.decode (map some copies)).data_bytes
    decrypt p key recovered

  -- `_read`
  unfoldable pub read : Dna → String → Bytes → Result Error Bytes
  unfolding copies_of open_copies
  read d block_id key = copies_of d block_id >>= open_copies key

  unfoldable pub get : Bytes → Dna → String → Result Error Bytes
  get default_key d block_id = read d block_id (key_of default_key d)

  unfoldable pub exists : Dna → String → Bool
  exists d block_id = elim d.persist [
    | none ↦ contains d.sequences block_id
    | some _ ↦ contains d.metadata block_id
  ]

  unfoldable pub delete : Dna → String → Dna
  delete d block_id = record d {
    persist = elim d.persist [
      | none ↦ none
      | some store ↦
          some
            (if contains d.metadata block_id then b.delete store (persist_id block_id) else store)
    ];
    sequences = Dict.remove d.sequences block_id;
    metadata = Dict.remove d.metadata block_id;
    checksums = Dict.remove d.checksums block_id;
    created_at = Dict.remove d.created_at block_id;
  }

  unfoldable pub block_metadata : Dna → String → Result Error BlockInfo
  unfolding exists
  block_metadata d block_id = do
    guard (exists d block_id) key_error
    metadata ← item (Dict.get d.metadata block_id)
    checksum ← item (Dict.get d.checksums block_id)
    created_at ← item (Dict.get d.created_at block_id)
    ok (record { metadata = metadata; checksum = checksum; created_at = created_at })

  -- `search` without filters, and with
  unfoldable pub search : (MetaFields → String) → Dna → Dict String → List String
  search repr d [] = Dict.keys d.metadata
  search repr d (f ∷ filters) = Dict.select (fits repr (f ∷ filters)) d.metadata

  -- `_require`, and with it `sequences_for`
  unfoldable pub sequences_for : Dna → String → Result Error (List Sequence)
  unfolding copies_of
  sequences_for d block_id = elim d.persist [
    | none ↦ item (Dict.get d.sequences block_id)
    | some _ ↦ map_ok (map Encoder.encode) (copies_of d block_id)
  ]
