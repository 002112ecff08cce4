-- ===== src/Router/Removed.antt =====
-- `delete` of the router against what `retrieve` shows of every object.
use mathlib.Core.Path.{subst}
use model_db.Prelude.{
  String, ◌≡◌, refl, sym, ap, ◌∙◌, ◌≢◌, inl, inr, Bool, none, some, arith, if◌then◌else◌,
  Bool-cases, ok, err, str_eq, str_eq_iff, str_eq_refl,
}
use model_db.Errors.{object_not_found}
use model_db.Vocabulary.{StorageTier, DataType}
use model_db.Storage.Interface.{StorageBackend, IsLawful}
use model_db.Platform.{Platform, IsAuthenticated, IsLossless}
use model_db.Index
use model_db.Index.{IndexEntry, EntryJson, IsFaithful, index_id, get-delete_index}
use model_db.Location.{location_of}
use model_db.Router.{
  StorageRouter, Settings, backend_get, backend_delete, retrieve, delete, require_entry,
}
use model_db.Router.Backends.{IsSound}
use model_db.Router.Effects.{backend_delete-Changes}
use model_db.Router.Stored.{IsCataloged, IsWell, Leaves}
use model_db.Router.Frame.{kept_elsewhere, retrieve_frame, unregistered_gets}

-- a deletion from the index, after a call that left the index and the blocks of the others
module _ (p : Platform) (b : StorageBackend) (law : IsLawful p.sha256 b) (json : EntryJson)
    (settings : Settings) (r r' : StorageRouter b) (well : IsWell p b law json settings r)
    (i : String) (sound : IsSound p b law r')
    (indexed : (j : String) → Index.get b json r'.durable j ≡ Index.get b json r.durable j)
    (kept : (u : StorageTier) (ty : DataType) (k : String)
      → i ≢ k
      → backend_get p b json settings r' u (location_of ty k)
        ≡ backend_get p b json settings r u (location_of ty k)) where
  abbrev after : StorageRouter b
  after = record r' { durable = Index.delete b json r'.durable i }

  entry_after :
      (f : IsFaithful json) (j : String)
      → Index.get b json after.durable j
        ≡ (if str_eq i j then ok none else Index.get b json r.durable j)
  entry_after f j =
      get-delete_index p.sha256 b law json f r'.durable i j
      ∙ ap (λ o. if str_eq i j then ok none else o) (indexed j)

  IsCataloged-after : IsFaithful json → IsCataloged b json after
  IsCataloged-after f j x h = elim (Bool-cases (str_eq i j)) [
    | inl this ↦
        let gone : Index.get b json after.durable j ≡ ok none = entry_after f j ∙ rw this refl in
        absurd (cc)
    | inr other ↦ well.1 j x (sym (entry_after f j ∙ rw other refl) ∙ h)
  ]

  IsSound-after : IsSound p b law after
  unfolding Index.delete
  IsSound-after = record {
    valid = law.delete-IsValid r'.durable (index_id i) sound.valid;
    odd = sound.odd;
    few = sound.few;
  }

  others_after :
      (f : IsFaithful json) (j : String) (v : Bool)
      → i ≢ j
      → retrieve p b json settings after j v ≡ retrieve p b json settings r j v
  others_after f j v ne =
      retrieve_frame p b json settings r after j v
        (entry_after f j ∙ ground (arith, str_eq_iff i j))
        (λ x h.
          subst
            (λ loc.
              backend_get p b json settings after x.storage_tier loc
              ≡ backend_get p b json settings r x.storage_tier loc)
            (sym (well.1 j x h).1)
            (unregistered_gets p b law json settings r' i x.storage_tier x.object_type j
              ∙ kept x.storage_tier x.object_type j ne))

  gone_after :
      (f : IsFaithful json) (v : Bool)
      → retrieve p b json settings after i v ≡ err (object_not_found i)
  unfolding retrieve require_entry
  gone_after f v =
      let none_there : Index.get b json after.durable i ≡ ok none =
        entry_after f i ∙ rw (str_eq_refl i) refl in
      rw none_there refl

  Leaves-unregister :
      IsFaithful json → Leaves p b law json settings r after i (λ _. err (object_not_found i))
  Leaves-unregister f = record {
    well = (IsSound-after, IsCataloged-after f);
    this = gone_after f;
    others = others_after f;
  }

module _ (p : Platform) (a : IsAuthenticated p) (l : IsLossless p) (b : StorageBackend)
    (law : IsLawful p.sha256 b) (json : EntryJson) (f : IsFaithful json) (settings : Settings)
    (r : StorageRouter b) (well : IsWell p b law json settings r) where
  -- Deleting an object that the index has succeeds: it is not found then, every other object is
  -- retrieved as before, and the router stays in order.
  pub delete-Leaves :
      (i : String) (e : IndexEntry)
      → Index.get b json r.durable i ≡ ok (some e)
      → (r' : StorageRouter b) × (delete p b json settings r i ≡ ok r')
        × Leaves p b law json settings r r' i (λ _. err (object_not_found i))
  delete-Leaves i e h =
      let is_here : e.location ≡ location_of e.object_type i = (well.1 i e h).1 in
      let r1 = backend_delete p b json settings r e.storage_tier (location_of e.object_type i) in
      let c =
        backend_delete-Changes p a b law json settings r e.object_type i well.0 e.storage_tier in
      (
        record r1 { durable = Index.delete b json r1.durable i },
        deleted is_here,
        Leaves-unregister p b law json settings r r1 well i c.sound c.indexed
            (kept_elsewhere p b law json settings e.object_type i c) f,
      )
    where
      deleted :
          e.location ≡ location_of e.object_type i
          → delete p b json settings r i
            ≡ ok
                (record (backend_delete p b json settings r e.storage_tier
                  (location_of e.object_type i)) {
                    durable =
                        Index.delete b json
                          (backend_delete p b json settings r e.storage_tier
                            (location_of e.object_type i)).durable
                          i;
                  })
      deleted is_here = unfold delete require_entry in rw (h, is_here) refl
