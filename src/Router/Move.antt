-- ===== src/Router/Move.antt =====
-- `move` of the router against what `retrieve` shows of every object.
use mathlib.Core.Path.{subst}
use model_db.Prelude.{
  String, ◌≡◌, refl, sym, ap, ◌∙◌, inl, inr, true, false, some, Bool-cases, ok, err, str_eq_refl,
}
use model_db.Vocabulary.{StorageTier, tier_eq}
use model_db.Storage.Interface.{Bytes, StorageBackend, IsLawful}
use model_db.Platform.{Platform, IsAuthenticated, IsLossless}
use model_db.Index
use model_db.Index.{IndexEntry, EntryJson, IsFaithful, get-register}
use model_db.Location.{location_of}
use model_db.Router.{
  StorageRouter, Moment, Settings, backend_get, same_backend, register_entry, content_of, retrieve,
  move, relocate, require_entry, moved_entry,
}
use model_db.Router.Backends.{IsStorable}
use model_db.Router.Stored.{IsWell, Leaves, Leaves-register}
use model_db.Errors.{key_error}
use model_db.Router.Frame.{registered_gets, same_backend_refl}
use model_db.Router.Relocated.{tier_eq_sound, moved_blocks, content_moved}

module _ (p : Platform) (b : StorageBackend) (json : EntryJson) (settings : Settings) where
  -- what a move leaves of the moved object: its entry is in the index, with the new tier and else
  -- as it was, its bytes are in the new tier, and no longer in a tier of another backend
  pub record IsMoved (r' : StorageRouter b) (e entry : IndexEntry) (i : String)
      (new_tier : StorageTier) (physical : Bytes) : Type 0 where
    pub indexed : Index.get b json r'.durable i ≡ ok (some entry)
    pub retagged : entry.storage_tier ≡ new_tier
    pub same_entry : entry ≡ record e {
      storage_tier = entry.storage_tier;
      storage_backend = entry.storage_backend;
      indexed_at = entry.indexed_at;
    }
    pub arrived : backend_get p b json settings r' new_tier e.location ≡ ok physical
    pub left :
        same_backend e.storage_tier new_tier ≡ false
        → backend_get p b json settings r' e.storage_tier e.location ≡ err key_error

module _ (p : Platform) (a : IsAuthenticated p) (l : IsLossless p) (b : StorageBackend)
    (law : IsLawful p.sha256 b) (json : EntryJson) (f : IsFaithful json) (settings : Settings)
    (r : StorageRouter b) (well : IsWell p b law json settings r) where
  move_within :
      (i : String) (e : IndexEntry) (moment : Moment) (new_tier : StorageTier)
      → Index.get b json r.durable i ≡ ok (some e)
      → tier_eq e.storage_tier new_tier ≡ true
      → move p b json settings r moment i new_tier ≡ ok (r, e)
  unfolding move require_entry
  move_within i e moment new_tier h same = rw (h, same) refl

  move_across :
      (i : String) (e : IndexEntry) (moment : Moment) (new_tier : StorageTier)
      (r1 : StorageRouter b)
      → Index.get b json r.durable i ≡ ok (some e)
      → tier_eq e.storage_tier new_tier ≡ false
      → relocate p b json settings r moment.supply i e new_tier ≡ ok r1
      → move p b json settings r moment i new_tier
        ≡ ok (
          register_entry p b json settings r1 moment.registered
              (moved_entry p b json settings e new_tier moment.indexed_at),
          moved_entry p b json settings e new_tier moment.indexed_at,
        )
  unfolding move require_entry
  move_across i e moment new_tier r1 h other done = rw (h, other, done) refl

  move_within-IsMoved :
      (i : String) (e : IndexEntry) (physical : Bytes) (new_tier : StorageTier)
      → Index.get b json r.durable i ≡ ok (some e)
      → backend_get p b json settings r e.storage_tier e.location ≡ ok physical
      → e.storage_tier ≡ new_tier
      → IsMoved p b json settings r e e i new_tier physical
  move_within-IsMoved i e physical new_tier h held same = record {
    indexed = h;
    retagged = same;
    same_entry = refl;
    arrived = ap (λ t. backend_get p b json settings r t e.location) (sym same) ∙ held;
    left = λ apart. absurd (cc (rw (same, same_backend_refl new_tier) at apart));
  }

  move_across-IsMoved :
      (r1 : StorageRouter b) (i : String) (e : IndexEntry) (physical : Bytes) (moment : Moment)
      (new_tier : StorageTier)
      → e.object_id ≡ i
      → e.location ≡ location_of e.object_type i
      → backend_get p b json settings r1 new_tier (location_of e.object_type i) ≡ ok physical
      → (same_backend e.storage_tier new_tier ≡ false
          → backend_get p b json settings r1 e.storage_tier (location_of e.object_type i)
            ≡ err key_error)
      → IsMoved p b json settings
          (register_entry p b json settings r1 moment.registered
            (moved_entry p b json settings e new_tier moment.indexed_at))
          e
          (moved_entry p b json settings e new_tier moment.indexed_at)
          i
          new_tier
          physical
  move_across-IsMoved r1 i e physical moment new_tier eid is_here there gone =
      let moved = moved_entry p b json settings e new_tier moment.indexed_at in
      let r' = register_entry p b json settings r1 moment.registered moved in
      let frame : (u : StorageTier)
          → backend_get p b json settings r' u e.location
            ≡ backend_get p b json settings r1 u (location_of e.object_type i) =
        λ u.
          ap (backend_get p b json settings r' u) is_here
          ∙ registered_gets p b law json settings r1 moment.registered moved u e.object_type i in
      record {
        indexed =
            get-register p.sha256 b law json f r1.durable moment.registered moved i
            ∙ rw (eid, str_eq_refl i) refl;
        retagged = refl;
        same_entry = refl;
        arrived = frame new_tier ∙ there;
        left = λ apart. frame e.storage_tier ∙ gone apart;
      }

  -- Moving an object whose bytes are in its tier succeeds if the new tier can take them. The index then
  -- has the returned entry for it, which names the new tier and differs in nothing else but the backend
  -- and the time; its bytes are in the new tier and, if the old one is of another backend, no longer
  -- there; every object, the moved one too, is retrieved as before, and the router stays in order.
  pub move-Leaves :
      (i : String) (e : IndexEntry) (physical : Bytes) (moment : Moment) (new_tier : StorageTier)
      → Index.get b json r.durable i ≡ ok (some e)
      → backend_get p b json settings r e.storage_tier e.location ≡ ok physical
      → IsStorable p b json settings r moment.supply new_tier physical
      → (r' : StorageRouter b) × (entry : IndexEntry) × (move p b json settings r moment i new_tier
          ≡ ok (r', entry))
        × IsMoved p b json settings r' e entry i new_tier physical
        × Leaves p b law json settings r r' i (λ v. retrieve p b json settings r i v)
  move-Leaves i e physical moment new_tier h held fits =
      let eid : e.object_id ≡ i = (well.1 i e h).0 in
      let is_here : e.location ≡ location_of e.object_type i = (well.1 i e h).1 in
      elim (Bool-cases (tier_eq e.storage_tier new_tier)) [
        | inl same ↦ (
          r,
          e,
          move_within i e moment new_tier h same,
          move_within-IsMoved i e physical new_tier h held
              (tier_eq_sound e.storage_tier new_tier same),
          record { well = well; this = λ v. refl; others = λ j v ne. refl },
        )
        | inr other ↦
            let (r1, done, sound, indexed, there, gone, kept) =
              moved_blocks p a l b law json f settings r well i e physical moment new_tier h held
                fits in
            let moved = moved_entry p b json settings e new_tier moment.indexed_at in
            (
              register_entry p b json settings r1 moment.registered moved,
              moved,
              move_across i e moment new_tier r1 h other done,
              move_across-IsMoved r1 i e physical moment new_tier eid is_here there gone,
              subst
                  (λ x.
                    Leaves p b law json settings r
                      (register_entry p b json settings r1 moment.registered moved) x
                      (λ v. retrieve p b json settings r i v))
                  eid
                  (Leaves-register p a l b law json f settings r r1 well moment.registered moved
                    (is_here ∙ ap (location_of e.object_type) (sym eid)) sound indexed
                    (λ u ty k ne. kept u ty k (λ q. ne (eid ∙ q)))
                    (λ v. retrieve p b json settings r i v) physical
                    (ap
                        (λ x.
                          backend_get p b json settings r1 new_tier (location_of e.object_type x))
                        eid
                      ∙ there)
                    (λ v.
                      ap (λ x. content_of p b json settings x v moved physical) eid
                      ∙ content_moved p a l b law json f settings r well i v e physical moment
                          new_tier h held)),
            )
      ]
