-- ===== src/Router/Frame.antt =====
-- What a change of the catalog leaves of the stored blocks, and when an object's content is
-- unaffected by a call.
use model_db.Prelude.{
  ℕ, String, ◌≡◌, refl, sym, ap, ◌∙◌, ◌≢◌, inl, inr, Bool, true, some, arith, Option-cases, Result,
  ok, ◌>>=◌, Result-cases, str_eq_iff, str_eq_refl,
}
use model_db.Vocabulary.{StorageTier, DataType}
use model_db.Storage.Interface.{StorageBackend, IsLawful}
use model_db.Platform.{Platform}
use model_db.Index
use model_db.Index.{
  IndexEntry, EntryJson, IsFaithful, index_id, entry_metadata, get-register, get-delete_index,
}
use model_db.Location.{location_of, location-ne-index, archive-ne-index, location_of-injective}
use model_db.Dna.Storage.{persist_id}
use model_db.Router.{
  StorageRouter, Settings, backend_get, same_backend, register_entry, require_entry, stored_bytes,
  content_of, retrieve, Error, Bytes,
}
use model_db.Router.Backends.{archive_frame, Changes}

pub same_backend_sym : (t u : StorageTier) → same_backend t u ≡ same_backend u t
same_backend_sym StorageTier.hot StorageTier.hot = refl
same_backend_sym StorageTier.hot StorageTier.warm = refl
same_backend_sym StorageTier.hot StorageTier.cold = refl
same_backend_sym StorageTier.hot StorageTier.archive = refl
same_backend_sym StorageTier.warm StorageTier.hot = refl
same_backend_sym StorageTier.warm StorageTier.warm = refl
same_backend_sym StorageTier.warm StorageTier.cold = refl
same_backend_sym StorageTier.warm StorageTier.archive = refl
same_backend_sym StorageTier.cold StorageTier.hot = refl
same_backend_sym StorageTier.cold StorageTier.warm = refl
same_backend_sym StorageTier.cold StorageTier.cold = refl
same_backend_sym StorageTier.cold StorageTier.archive = refl
same_backend_sym StorageTier.archive StorageTier.hot = refl
same_backend_sym StorageTier.archive StorageTier.warm = refl
same_backend_sym StorageTier.archive StorageTier.cold = refl
same_backend_sym StorageTier.archive StorageTier.archive = refl

pub same_backend_refl : (t : StorageTier) → same_backend t t ≡ true
same_backend_refl StorageTier.hot = refl
same_backend_refl StorageTier.warm = refl
same_backend_refl StorageTier.cold = refl
same_backend_refl StorageTier.archive = refl

module _ (p : Platform) (b : StorageBackend) (json : EntryJson) (settings : Settings) where
  -- Two tiers of one backend show the same blocks.
  pub same_gets :
      (r : StorageRouter b) (t u : StorageTier) (loc : String)
      → same_backend t u ≡ true
      → backend_get p b json settings r t loc ≡ backend_get p b json settings r u loc
  unfolding backend_get
  same_gets r StorageTier.hot StorageTier.hot loc h = refl
  same_gets r StorageTier.hot StorageTier.warm loc h = absurd (cc)
  same_gets r StorageTier.hot StorageTier.cold loc h = absurd (cc)
  same_gets r StorageTier.hot StorageTier.archive loc h = absurd (cc)
  same_gets r StorageTier.warm StorageTier.hot loc h = absurd (cc)
  same_gets r StorageTier.warm StorageTier.warm loc h = refl
  same_gets r StorageTier.warm StorageTier.cold loc h = refl
  same_gets r StorageTier.warm StorageTier.archive loc h = absurd (cc)
  same_gets r StorageTier.cold StorageTier.hot loc h = absurd (cc)
  same_gets r StorageTier.cold StorageTier.warm loc h = refl
  same_gets r StorageTier.cold StorageTier.cold loc h = refl
  same_gets r StorageTier.cold StorageTier.archive loc h = absurd (cc)
  same_gets r StorageTier.archive StorageTier.hot loc h = absurd (cc)
  same_gets r StorageTier.archive StorageTier.warm loc h = absurd (cc)
  same_gets r StorageTier.archive StorageTier.cold loc h = absurd (cc)
  same_gets r StorageTier.archive StorageTier.archive loc h = refl

  -- A durable store that differs in the index alone shows the same blocks in each tier.
  catalog_frame :
      (r : StorageRouter b) (s' : b.Store)
      → ((ty : DataType) (i : String)
          → b.get s' (location_of ty i) ≡ b.get r.durable (location_of ty i))
      → ((j : String) → b.get s' (persist_id j) ≡ b.get r.durable (persist_id j))
      → (u : StorageTier) (ty : DataType) (i : String)
      → backend_get p b json settings (record r { durable = s' }) u (location_of ty i)
        ≡ backend_get p b json settings r u (location_of ty i)
  unfolding backend_get
  catalog_frame r s' plain archived StorageTier.hot ty i = refl
  catalog_frame r s' plain archived StorageTier.warm ty i = plain ty i
  catalog_frame r s' plain archived StorageTier.cold ty i = plain ty i
  catalog_frame r s' plain archived StorageTier.archive ty i =
      archive_frame p b json settings r s' (location_of ty i) (archived (location_of ty i))

  -- the content of an object with the given entry
  pub retrieve-entry :
      (r : StorageRouter b) (j : String) (v : Bool) (e : IndexEntry)
      → Index.get b json r.durable j ≡ ok (some e)
      → retrieve p b json settings r j v
        ≡ (stored_bytes p b json settings r j e >>= content_of p b json settings j v e)
  unfolding retrieve require_entry
  retrieve-entry r j v e h = rw h refl

  stored_frame :
      (r r' : StorageRouter b) (j : String) (e : IndexEntry)
      → backend_get p b json settings r' e.storage_tier e.location
        ≡ backend_get p b json settings r e.storage_tier e.location
      → stored_bytes p b json settings r' j e ≡ stored_bytes p b json settings r j e
  unfolding stored_bytes
  stored_frame r r' j e h = rw (stored_bytes, h) refl

  -- An object whose entry and whose block are as before is retrieved as before.
  pub retrieve_frame :
      (r r' : StorageRouter b) (j : String) (v : Bool)
      → Index.get b json r'.durable j ≡ Index.get b json r.durable j
      → ((e : IndexEntry)
          → Index.get b json r.durable j ≡ ok (some e)
          → backend_get p b json settings r' e.storage_tier e.location
            ≡ backend_get p b json settings r e.storage_tier e.location)
      → retrieve p b json settings r' j v ≡ retrieve p b json settings r j v
  unfolding retrieve require_entry
  retrieve_frame r r' j v same blocks = elim (Result-cases (Index.get b json r.durable j)) [
    | inr (e, h) ↦ rw (same, h) refl
    | inl (found, h) ↦ elim (Option-cases found) [
      | inl gone ↦ rw (same, h, gone) refl
      | inr (e, there) ↦
          let entry : Index.get b json r.durable j ≡ ok (some e) = h ∙ ap ok there in
          retrieve-entry r' j v e (same ∙ entry)
          ∙ ap (λ m. m >>= content_of p b json settings j v e)
              (stored_frame r r' j e (blocks e entry))
          ∙ sym (retrieve-entry r j v e entry)
    ]
  ]

module _ (p : Platform) (b : StorageBackend) (law : IsLawful p.sha256 b) (json : EntryJson)
    (settings : Settings) (r : StorageRouter b) where
  -- A write to the index leaves every block of an object, in each tier.
  pub registered_gets :
      (now : ℕ) (e : IndexEntry) (u : StorageTier) (ty : DataType) (i : String)
      → backend_get p b json settings
          (register_entry p b json settings r now e)
          u
          (location_of ty i)
        ≡ backend_get p b json settings r u (location_of ty i)
  unfolding Index.register
  registered_gets now e =
      catalog_frame p b json settings r (Index.register b json r.durable now e)
        (λ ty i. other (location_of ty i) (λ h. location-ne-index ty i e.object_id (sym h)))
        (λ j. other (persist_id j) (λ h. archive-ne-index j e.object_id (sym h)))
    where
      other :
          (j : String)
          → index_id e.object_id ≢ j
          → b.get (b.put r.durable now (index_id e.object_id) (json.dump e) (entry_metadata e)).0 j
            ≡ b.get r.durable j
      other j ne =
          law.get-put r.durable now (index_id e.object_id) j (json.dump e) (entry_metadata e)
          ∙ ground (arith, str_eq_iff (index_id e.object_id) j)

  -- A deletion from the index leaves every block of an object, in each tier.
  pub unregistered_gets :
      (k : String) (u : StorageTier) (ty : DataType) (i : String)
      → backend_get p b json settings
          (record r { durable = Index.delete b json r.durable k })
          u
          (location_of ty i)
        ≡ backend_get p b json settings r u (location_of ty i)
  unfolding Index.delete
  unregistered_gets k =
      catalog_frame p b json settings r (b.delete r.durable (index_id k))
        (λ ty i. other (location_of ty i) (λ h. location-ne-index ty i k (sym h)))
        (λ j. other (persist_id j) (λ h. archive-ne-index j k (sym h)))
    where
      other :
          (j : String)
          → index_id k ≢ j
          → b.get (b.delete r.durable (index_id k)) j ≡ b.get r.durable j
      other j ne =
          law.get-delete r.durable (index_id k) j ∙ ground (arith, str_eq_iff (index_id k) j)

module _ (p : Platform) (b : StorageBackend) (law : IsLawful p.sha256 b) (json : EntryJson)
    (settings : Settings) where
  -- The blocks of other objects are as before after a change at one location.
  pub kept_elsewhere :
      {r1 r2 : StorageRouter b} {t : StorageTier} {held : Result Error Bytes} (ty : DataType)
      (i : String)
      → Changes p b json settings law r1 r2 t (location_of ty i) held
      → (u : StorageTier) (uy : DataType) (k : String) → i ≢ k
      → backend_get p b json settings r2 u (location_of uy k)
        ≡ backend_get p b json settings r1 u (location_of uy k)
  kept_elsewhere ty i c u uy k ne =
      let apart : location_of ty i ≢ location_of uy k =
        λ h. ne (location_of-injective ty uy i k h) in
      c.gets u uy k ∙ ground (arith, str_eq_iff (location_of ty i) (location_of uy k))

  pub held_here :
      {r1 r2 : StorageRouter b} {t : StorageTier} {held : Result Error Bytes} (ty : DataType)
      (i : String)
      → Changes p b json settings law r1 r2 t (location_of ty i) held
      → backend_get p b json settings r2 t (location_of ty i) ≡ held
  held_here {t = t} ty i c =
      c.gets t ty i ∙ rw (same_backend_refl t, str_eq_refl (location_of ty i)) refl
