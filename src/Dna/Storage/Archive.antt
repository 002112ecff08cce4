-- ===== src/Dna/Storage/Archive.antt =====
-- A block of the archive reads back, and writing or deleting a block leaves the others.
use model_db.Prelude.{
  ℕ, zero, suc, ◌-◌, ◌^◌, ◌<◌, String, ◌≡◌, refl, sym, ap, ◌∙◌, ◌≢◌, inl, inr, ◌||◌, some, List, [],
  ◌∷◌, arith, ltb, Bool-cases, some_injective, length, replicate, length-replicate, Result, ok,
  >>=-eq-ok, str_eq, str_eq_iff, str_eq_refl, str_eq-prefix,
}
use model_db.Dict
use model_db.Dict.{get-put, contains}
use model_db.Errors.{Error}
use model_db.Storage.Interface.{Bytes, StorageBackend, IsLawful, stamp}
use model_db.Platform.{Platform, IsAuthenticated}
use model_db.Dna.Ecc
use model_db.Dna.Ecc.{repetition_ecc}
use model_db.Dna.Ecc.Majority.{decode-map-some-encode}
use model_db.Dna.Crypto.{nonce_len, encrypt, decrypt, decrypt-encrypt}
use model_db.Dna.Packed.{pack, unpack, SameSize, unpack-pack}
use model_db.Dna.Storage.{
  DnaStorageBackend, copies_to_write, open_copies, put_with, Supply, Metadata, persist_id,
  persist_metadata, BlockInfo, read, copies_of,
}

-- The constructor accepted the number of copies: it is odd.
abbrev pub IsConfigured : {S : Type 0} → DnaStorageBackend S → Type 0
IsConfigured d = repetition_ecc d.ecc_copies ≡ ok d.ecc_copies

SameSize-replicate : (n : ℕ) (c : Bytes) → SameSize (length c) (replicate n c)
SameSize-replicate zero c = tt
SameSize-replicate (suc n) c = (refl, SameSize-replicate n c)

-- Copies of one size that fit the header are packed, and unpacked again.
packed_back :
    (reader : Bytes → Result Error (List (List ℕ))) (n : ℕ) (c : Bytes)
    → suc n < 256
    → length c < 2 ^ 32
    → (blob : Bytes) × (pack (c ∷ replicate n c) ≡ ok blob)
      × (unpack reader blob ≡ ok (c ∷ replicate n c))
packed_back reader n c few short = >>=-eq-ok (pack (c ∷ replicate n c)) (unpack reader) (
    unpack-pack reader c (replicate n c) (refl, SameSize-replicate n c)
      (rw (length-replicate n c) few) short)

module _ (p : Platform) (a : IsAuthenticated p) (b : StorageBackend) where
  open_one :
      (key c : Bytes) {payload : Bytes}
      → decrypt p key c ≡ ok payload
      → open_copies p b key (c ∷ []) ≡ ok payload
  unfolding open_copies
  open_one key c h = h

  open_many :
      (key c payload : Bytes) (n m : ℕ)
      → n ≡ suc (suc m)
      → repetition_ecc n ≡ ok n
      → decrypt p key c ≡ ok payload
      → open_copies p b key (Ecc.encode n c) ≡ ok payload
  unfolding open_copies Ecc.encode
  open_many key c payload n m e odd h = rw e (
      rw (length-replicate m c) (
        let odd2 = rw e at odd in
        let voted = decode-map-some-encode (suc (suc m)) c (omega arith) in rw (odd2, voted) h))

  open_copies-copies_to_write :
      (d : DnaStorageBackend b.Store) (key nonce payload : Bytes)
      → IsConfigured d
      → length nonce ≡ nonce_len
      → open_copies p b key (copies_to_write p b d (encrypt p key nonce payload)) ≡ ok payload
  open_copies-copies_to_write d key nonce payload c sized =
      let sealed : Bytes = encrypt p key nonce payload in
      let opened : decrypt p key sealed ≡ ok payload =
        decrypt-encrypt p a key nonce sized payload in
      elim (Bool-cases (ltb 1 d.ecc_copies)) [
        | inl many ↦
            let e : d.ecc_copies ≡ suc (suc (d.ecc_copies - 2)) = ground arith in
            rw many (open_many key sealed payload d.ecc_copies (d.ecc_copies - 2) e c opened)
        | inr one ↦ rw one (open_one key sealed opened)
      ]

-- the number of extra copies
abbrev spare : ℕ → ℕ
spare n = n - 1

encode-suc : (n m : ℕ) (c : Bytes) → n ≡ suc m → Ecc.encode n c ≡ c ∷ replicate m c
unfolding Ecc.encode
encode-suc n m c e = rw e

copies_are :
    (p : Platform) (b : StorageBackend) (d : DnaStorageBackend b.Store) (c : Bytes)
    → IsConfigured d
    → copies_to_write p b d c ≡ c ∷ replicate (spare d.ecc_copies) c
copies_are p b d c odd = elim (Bool-cases (ltb 1 d.ecc_copies)) [
  | inl many ↦ rw many (encode-suc d.ecc_copies (spare d.ecc_copies) c (ground arith))
  | inr one ↦ let none_spare : spare d.ecc_copies ≡ 0 = ground arith in rw (one, none_spare)
]

-- The result of a write by `_put`: the object afterwards, with its durable store.
pub record HasWritten (p : Platform) (b : StorageBackend) (law : IsLawful p.sha256 b)
    (d d' : DnaStorageBackend b.Store) (key : Bytes) (k : String) (payload : Bytes) : Type 0 where
  pub store : b.Store
  pub kept : d'.persist ≡ some store
  pub valid : law.IsValid store
  pub same_copies : d'.ecc_copies ≡ d.ecc_copies
  pub same_key : d'.explicit_key ≡ d.explicit_key
  pub indexed : (j : String) → contains d'.metadata j ≡ (str_eq k j || contains d.metadata j)
  pub untouched :
      (was : b.Store) (j : String)
      → d.persist ≡ some was
      → persist_id k ≢ j
      → b.get store j ≡ b.get was j
  pub reads_back : read p b d' k key ≡ ok payload
  pub reads_others : (j : String) (other : Bytes) → k ≢ j → read p b d' j other ≡ read p b d j other

module _ (p : Platform) (a : IsAuthenticated p) (b : StorageBackend) (law : IsLawful p.sha256 b)
    (d : DnaStorageBackend b.Store) {store : b.Store} (supply : Supply) (k : String)
    (payload : Bytes) (meta : Metadata) (key : Bytes) (kept : d.persist ≡ some store)
    (valid : law.IsValid store) (odd : IsConfigured d) (few : d.ecc_copies < 256)
    (sized : length supply.nonce ≡ nonce_len)
    (short : length (encrypt p key supply.nonce payload) < 2 ^ 32) where
  abbrev sealed : Bytes
  sealed = encrypt p key supply.nonce payload

  abbrev stored : Bytes → b.Store
  stored blob =
      (b.put store supply.now (persist_id k) blob (persist_metadata k (p.sha256 payload) meta)).0

  abbrev written : Bytes → BlockInfo → DnaStorageBackend b.Store
  written blob info = record d {
    persist = some (stored blob);
    metadata = Dict.put d.metadata k meta;
    checksums = Dict.put d.checksums k (p.sha256 payload);
    created_at = Dict.put d.created_at k info.created_at;
  }

  abbrev info_of : Bytes → BlockInfo
  info_of blob = record {
    metadata = persist_metadata k (p.sha256 payload) meta;
    checksum = p.sha256 blob;
    created_at = stamp (b.metadata store (persist_id k)) supply.now;
  }

  info_read : (blob : Bytes) → b.metadata (stored blob) (persist_id k) ≡ ok (info_of blob)
  info_read blob =
      law.metadata-put store supply.now (persist_id k) (persist_id k) blob
        (persist_metadata k (p.sha256 payload) meta) valid
      ∙ rw (str_eq_refl (persist_id k))

  copies_written :
      (blob : Bytes)
      → pack (copies_to_write p b d sealed) ≡ ok blob
      → put_with p b d supply k payload meta key
        ≡ ok (written blob (info_of blob), p.sha256 payload)
  unfolding put_with
  copies_written blob packed = ground (arith, kept, info_read blob)

  copies_read :
      (blob : Bytes)
      → unpack p.json_sequences blob ≡ ok (copies_to_write p b d sealed)
      → copies_of p b (written blob (info_of blob)) k ≡ ok (copies_to_write p b d sealed)
  unfolding copies_of
  copies_read blob unpacked = ground (
    arith,
    get-put d.metadata k k meta,
    str_eq_refl k,
    str_eq_refl (persist_id k),
    law.get-put store supply.now (persist_id k) (persist_id k) blob
        (persist_metadata k (p.sha256 payload) meta),
  )

  others_read :
      (blob : Bytes) (j : String)
      → k ≢ j
      → copies_of p b (written blob (info_of blob)) j ≡ copies_of p b d j
  unfolding copies_of
  others_read blob j ne = ground (
    arith,
    kept,
    get-put d.metadata k j meta,
    str_eq_iff k j,
    str_eq-prefix "dna:" k j,
    law.get-put store supply.now (persist_id k) (persist_id j) blob
        (persist_metadata k (p.sha256 payload) meta),
  )

  others_stored :
      (blob : Bytes) (was : b.Store) (j : String)
      → d.persist ≡ some was
      → persist_id k ≢ j
      → b.get (stored blob) j ≡ b.get was j
  others_stored blob was j here ne =
      let same : store ≡ was = some_injective (sym kept ∙ here) in
      law.get-put store supply.now (persist_id k) j blob
        (persist_metadata k (p.sha256 payload) meta)
      ∙ ground (arith, str_eq_iff (persist_id k) j, ap (λ s. b.get s j) same)

  -- With a durable store, fewer than 256 copies and a sealed payload of fewer than 2 ^ 32 bytes, which
  -- is what the header of a stored block can say, a write succeeds; the block then reads back under the key that it was
  -- written with, and every other block reads as before, under any key.
  pub put_with-HasWritten :
      (d' : DnaStorageBackend b.Store) × (put_with p b d supply k payload meta key
        ≡ ok (d', p.sha256 payload))
      × HasWritten p b law d d' key k payload
  unfolding read
  put_with-HasWritten =
      let (blob, packed, unpacked) =
        packed_back p.json_sequences (spare d.ecc_copies) sealed (omega arith) short in
      let shape = copies_are p b d sealed odd in
      (
        written blob (info_of blob),
        copies_written blob (rw shape packed),
        record {
          store = stored blob;
          kept = refl;
          valid =
              law.put-IsValid store supply.now (persist_id k) blob
                (persist_metadata k (p.sha256 payload) meta) valid;
          same_copies = refl;
          same_key = refl;
          indexed = λ j. ground (arith, get-put d.metadata k j meta);
          untouched = λ was j here ne. others_stored blob was j here ne;
          reads_back =
              rw (copies_read blob (rw shape unpacked))
                (open_copies-copies_to_write p a b d key supply.nonce payload odd sized);
          reads_others = λ j other ne. rw (others_read blob j ne);
        },
      )
