-- ===== src/Router/Backends.antt =====
-- The four tiers over three stores: what a write or a deletion at one location leaves at the others,
-- in the archive and in the index, which share the durable store.
use model_db.Prelude.{
  ◌^◌, ◌<◌, String, ◌≡◌, refl, sym, ap, ◌∙◌, ◌≢◌, true, ◌&&◌, some, arith, if◌then◌else◌, length,
  Result, str_eq, str_eq_iff,
}
use model_db.Errors.{Error}
use model_db.Vocabulary.{StorageTier, DataType}
use model_db.Storage.Interface.{Bytes, StorageBackend, IsLawful}
use model_db.Storage.Memory
use model_db.Platform.{Platform, IsAuthenticated}
use model_db.Index
use model_db.Index.{EntryJson, index_id}
use model_db.Location.{location_of, location-ne-index, location-ne-archive, archive-ne-index}
use model_db.Dna.Storage
use model_db.Dna.Storage.{DnaStorageBackend, Supply, persist_id, key_of, read}
use model_db.Dna.Storage.Archive.{IsConfigured}
use model_db.Dna.Storage.Frame.{read_frame}
use model_db.Dna.Crypto.{nonce_len, encrypt}
use model_db.Router.{StorageRouter, Settings, attach, backend_get, same_backend}

pub record IsSound (p : Platform) (b : StorageBackend) (law : IsLawful p.sha256 b)
    (r : StorageRouter b) : Type 0 where
  pub valid : law.IsValid r.durable
  pub odd : IsConfigured r.archive
  pub few : r.archive.ecc_copies < 256

module _ (p : Platform) (b : StorageBackend) (json : EntryJson) (settings : Settings) where
  -- A write to the archive has a nonce of the right size, and its sealed payload fits the header.
  abbrev pub IsStorable : StorageRouter b → Supply → StorageTier → Bytes → Type 0
  IsStorable r supply StorageTier.archive payload =
      (length supply.nonce ≡ nonce_len)
      × (length (encrypt p (key_of p b settings.default_key r.archive) supply.nonce payload)
          < 2 ^ 32)
  IsStorable r supply _ payload = Unit

  -- The locations of objects and the index after a call that left `held` at one location.
  pub record Changes (law : IsLawful p.sha256 b) (r r' : StorageRouter b) (t : StorageTier)
      (loc : String) (held : Result Error Bytes) : Type 0 where
    pub sound : IsSound p b law r'
    pub key_kept : r'.archive.explicit_key ≡ r.archive.explicit_key
    pub gets :
        (u : StorageTier) (ty : DataType) (i : String)
        → backend_get p b json settings r' u (location_of ty i) ≡ (
            if same_backend t u && str_eq loc (location_of ty i)
            then held
            else backend_get p b json settings r u (location_of ty i))
    pub indexed : (j : String) → Index.get b json r'.durable j ≡ Index.get b json r.durable j

  index_frame :
      (s s' : b.Store) (j : String)
      → b.get s' (index_id j) ≡ b.get s (index_id j)
      → Index.get b json s' j ≡ Index.get b json s j
  unfolding Index.get
  index_frame s s' j h = rw (Index.get, h) refl

  pub archive_frame :
      (r : StorageRouter b) (s' : b.Store) (loc : String)
      → b.get s' (persist_id loc) ≡ b.get r.durable (persist_id loc)
      → backend_get p b json settings (record r { durable = s' }) StorageTier.archive loc
        ≡ backend_get p b json settings r StorageTier.archive loc
  unfolding backend_get Storage.get
  archive_frame r s' loc h =
      read_frame p b r.archive s' r.durable loc (key_of p b settings.default_key r.archive) h

module _ (p : Platform) (a : IsAuthenticated p) (b : StorageBackend) (law : IsLawful p.sha256 b)
    (json : EntryJson) (settings : Settings) (r : StorageRouter b) (ty : DataType) (i : String)
    (sound : IsSound p b law r) where
  abbrev here : String
  here = location_of ty i

  -- a change of the durable store at the location alone
  module _ (s' : b.Store) (held : Result Error Bytes)
      (local : (j : String)
        → b.get s' j ≡ (if str_eq here j then held else b.get r.durable j)) where
    elsewhere : (j : String) → here ≢ j → b.get s' j ≡ b.get r.durable j
    elsewhere j ne = local j ∙ ground (arith, str_eq_iff here j)

    archive_after :
        (loc : String)
        → backend_get p b json settings (record r { durable = s' }) StorageTier.archive loc
          ≡ backend_get p b json settings r StorageTier.archive loc
    archive_after loc =
        archive_frame p b json settings r s' loc
          (elsewhere (persist_id loc) (location-ne-archive ty i loc))

    low_gets :
        (t u : StorageTier) (uy : DataType) (k : String)
        → same_backend StorageTier.warm t ≡ true
        → backend_get p b json settings (record r { durable = s' }) u (location_of uy k) ≡ (
            if same_backend t u && str_eq here (location_of uy k)
            then held
            else backend_get p b json settings r u (location_of uy k))
    unfolding backend_get
    low_gets StorageTier.hot u uy k h = absurd (cc)
    low_gets StorageTier.archive u uy k h = absurd (cc)
    low_gets StorageTier.warm StorageTier.hot uy k h = refl
    low_gets StorageTier.warm StorageTier.warm uy k h = local (location_of uy k)
    low_gets StorageTier.warm StorageTier.cold uy k h = local (location_of uy k)
    low_gets StorageTier.warm StorageTier.archive uy k h = archive_after (location_of uy k)
    low_gets StorageTier.cold StorageTier.hot uy k h = refl
    low_gets StorageTier.cold StorageTier.warm uy k h = local (location_of uy k)
    low_gets StorageTier.cold StorageTier.cold uy k h = local (location_of uy k)
    low_gets StorageTier.cold StorageTier.archive uy k h = archive_after (location_of uy k)

    pub at_durable :
        (t : StorageTier)
        → same_backend StorageTier.warm t ≡ true
        → law.IsValid s'
        → Changes p b json settings law r (record r { durable = s' }) t here held
    at_durable t low v = record {
      sound = record { valid = v; odd = sound.odd; few = sound.few };
      key_kept = refl;
      gets = λ u uy k. low_gets t u uy k low;
      indexed = λ j.
          index_frame p b json settings r.durable s' j
            (elsewhere (index_id j) (location-ne-index ty i j));
    }

  -- a change of the in-memory store at the location alone
  module _ (h' : Memory.MemoryStorageBackend) (held : Result Error Bytes)
      (local : (j : String)
        → Memory.get h' j ≡ (if str_eq here j then held else Memory.get r.hot j)) where
    hot_gets :
        (u : StorageTier) (uy : DataType) (k : String)
        → backend_get p b json settings (record r { hot = h' }) u (location_of uy k) ≡ (
            if same_backend StorageTier.hot u && str_eq here (location_of uy k)
            then held
            else backend_get p b json settings r u (location_of uy k))
    unfolding backend_get
    hot_gets StorageTier.hot uy k = local (location_of uy k)
    hot_gets StorageTier.warm uy k = refl
    hot_gets StorageTier.cold uy k = refl
    hot_gets StorageTier.archive uy k = refl

    pub at_hot : Changes p b json settings law r (record r { hot = h' }) StorageTier.hot here held
    at_hot = record {
      sound = record { valid = sound.valid; odd = sound.odd; few = sound.few };
      key_kept = refl;
      gets = hot_gets;
      indexed = λ j. refl;
    }

  -- a change of the archive at the location alone
  module _ (d' : DnaStorageBackend b.Store) (s' : b.Store) (held : Result Error Bytes)
      (kept : d'.persist ≡ some s') (same_key : d'.explicit_key ≡ r.archive.explicit_key)
      (reads : (j : String)
        → read p b d' j (key_of p b settings.default_key r.archive) ≡ (
            if str_eq here j
            then held
            else read p b
                (attach p b json settings r)
                j
                (key_of p b settings.default_key r.archive)))
      (untouched : (j : String) → persist_id here ≢ j → b.get s' j ≡ b.get r.durable j) where
    abbrev after : StorageRouter b
    after = record r { archive = d'; durable = s' }

    reattached : attach p b json settings after ≡ d'
    reattached = ap (λ o. record d' { persist = o }) (sym kept)

    archive_gets :
        (u : StorageTier) (uy : DataType) (k : String)
        → backend_get p b json settings after u (location_of uy k) ≡ (
            if same_backend StorageTier.archive u && str_eq here (location_of uy k)
            then held
            else backend_get p b json settings r u (location_of uy k))
    unfolding backend_get Storage.get
    archive_gets StorageTier.hot uy k = refl
    archive_gets StorageTier.warm uy k =
        untouched (location_of uy k) (λ h. location-ne-archive uy k here (sym h))
    archive_gets StorageTier.cold uy k =
        untouched (location_of uy k) (λ h. location-ne-archive uy k here (sym h))
    archive_gets StorageTier.archive uy k =
        let loc = location_of uy k in
        let key = settings.default_key in
        ap (λ d. read p b d loc (key_of p b key d)) reattached
        ∙ ap (λ o. read p b d' loc (key_of p b key (record d' { explicit_key = o }))) same_key
        ∙ reads loc

    pub at_archive :
        law.IsValid s'
        → IsConfigured d'
        → d'.ecc_copies < 256
        → Changes p b json settings law r after StorageTier.archive here held
    at_archive v odd few = record {
      sound = record { valid = v; odd = odd; few = few };
      key_kept = same_key;
      gets = archive_gets;
      indexed = λ j.
          index_frame p b json settings r.durable s' j
            (untouched (index_id j) (archive-ne-index here j));
    }
