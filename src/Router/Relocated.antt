-- ===== src/Router/Relocated.antt =====
-- The two steps of `move` of the router between two tiers, and what a move keeps of the content.
use model_db.Prelude.{
  String, ◌≡◌, refl, sym, ap, ◌∙◌, ◌≢◌, inl, inr, Bool, true, false, some, Bool-cases, ok, err,
  ◌>>=◌,
}
use model_db.Vocabulary.{StorageTier, DataType, tier_eq}
use model_db.Storage.Interface.{Bytes, StorageBackend, IsLawful}
use model_db.Platform.{Platform, IsAuthenticated, IsLossless}
use model_db.Index
use model_db.Index.{IndexEntry, EntryJson, IsFaithful, get-register}
use model_db.Location.{location_of}
use model_db.Router.{
  StorageRouter, Moment, Settings, backend_get, backend_put, backend_delete, same_backend,
  content_of, retrieve, relocate, object_metadata, moved_entry,
}
use model_db.Router.Backends.{IsSound, IsStorable}
use model_db.Router.Effects.{backend_put-Changes, backend_delete-Changes}
use model_db.Router.Stored.{IsWell, bytes_read}
use model_db.Errors.{key_error}
use model_db.Router.Frame.{kept_elsewhere, held_here, same_gets, retrieve-entry}

pub tier_eq_sound : (t u : StorageTier) → tier_eq t u ≡ true → t ≡ u
tier_eq_sound StorageTier.hot StorageTier.hot h = refl
tier_eq_sound StorageTier.hot StorageTier.warm h = absurd (cc)
tier_eq_sound StorageTier.hot StorageTier.cold h = absurd (cc)
tier_eq_sound StorageTier.hot StorageTier.archive h = absurd (cc)
tier_eq_sound StorageTier.warm StorageTier.hot h = absurd (cc)
tier_eq_sound StorageTier.warm StorageTier.warm h = refl
tier_eq_sound StorageTier.warm StorageTier.cold h = absurd (cc)
tier_eq_sound StorageTier.warm StorageTier.archive h = absurd (cc)
tier_eq_sound StorageTier.cold StorageTier.hot h = absurd (cc)
tier_eq_sound StorageTier.cold StorageTier.warm h = absurd (cc)
tier_eq_sound StorageTier.cold StorageTier.cold h = refl
tier_eq_sound StorageTier.cold StorageTier.archive h = absurd (cc)
tier_eq_sound StorageTier.archive StorageTier.hot h = absurd (cc)
tier_eq_sound StorageTier.archive StorageTier.warm h = absurd (cc)
tier_eq_sound StorageTier.archive StorageTier.cold h = absurd (cc)
tier_eq_sound StorageTier.archive StorageTier.archive h = refl

module _ (p : Platform) (a : IsAuthenticated p) (l : IsLossless p) (b : StorageBackend)
    (law : IsLawful p.sha256 b) (json : EntryJson) (f : IsFaithful json) (settings : Settings)
    (r : StorageRouter b) (well : IsWell p b law json settings r) where
  -- the two steps of a move between different backends
  pub moved_blocks :
      (i : String) (e : IndexEntry) (physical : Bytes) (moment : Moment) (new_tier : StorageTier)
      → Index.get b json r.durable i ≡ ok (some e)
      → backend_get p b json settings r e.storage_tier e.location ≡ ok physical
      → IsStorable p b json settings r moment.supply new_tier physical
      → (r' : StorageRouter b) × (relocate p b json settings r moment.supply i e new_tier ≡ ok r')
        × IsSound p b law r'
        × ((j : String) → Index.get b json r'.durable j ≡ Index.get b json r.durable j)
        × (backend_get p b json settings r' new_tier (location_of e.object_type i) ≡ ok physical)
        × (same_backend e.storage_tier new_tier ≡ false
            → backend_get p b json settings r' e.storage_tier (location_of e.object_type i)
              ≡ err key_error)
        × ((u : StorageTier) (ty : DataType) (k : String)
            → i ≢ k
            → backend_get p b json settings r' u (location_of ty k)
              ≡ backend_get p b json settings r u (location_of ty k))
  unfolding relocate
  moved_blocks i e physical moment new_tier h held fits =
      let is_here : e.location ≡ location_of e.object_type i = (well.1 i e h).1 in
      elim (Bool-cases (same_backend e.storage_tier new_tier)) [
        | inl same ↦ (
          r,
          rw same refl,
          well.0,
          λ j. refl,
          sym (
                same_gets p b json settings r e.storage_tier new_tier (location_of e.object_type i)
                  same)
              ∙ ap (backend_get p b json settings r e.storage_tier) (sym is_here)
              ∙ held,
          λ other. absurd (cc (rw same at other)),
          λ u ty k ne. refl,
        )
        | inr other ↦
            let meta = object_metadata p b json settings i e.object_type in
            let (r1, put, c1) =
              backend_put-Changes p a b law json settings r e.object_type i well.0 moment.supply
                new_tier physical meta fits in
            let c2 =
              backend_delete-Changes p a b law json settings r1 e.object_type i c1.sound
                e.storage_tier in
            (
              backend_delete p b json settings r1 e.storage_tier (location_of e.object_type i),
              relocated r1 other is_here put,
              c2.sound,
              λ j. c2.indexed j ∙ c1.indexed j,
              c2.gets new_tier e.object_type i
                  ∙ rw other (held_here p b law json settings e.object_type i c1),
              λ _. held_here p b law json settings e.object_type i c2,
              λ u ty k ne.
                  kept_elsewhere p b law json settings e.object_type i c2 u ty k ne
                  ∙ kept_elsewhere p b law json settings e.object_type i c1 u ty k ne,
            )
      ]
    where
      relocated :
          (r1 : StorageRouter b)
          → same_backend e.storage_tier new_tier ≡ false
          → e.location ≡ location_of e.object_type i
          → backend_put p b json settings r moment.supply new_tier
              (location_of e.object_type i)
              physical
              (object_metadata p b json settings i e.object_type)
            ≡ ok r1
          → relocate p b json settings r moment.supply i e new_tier
            ≡ ok (backend_delete p b json settings r1 e.storage_tier (location_of e.object_type i))
      relocated r1 other is_here put =
          let bytes = bytes_read p b law json settings r i e physical held in
          unfold relocate in rw (other, bytes, is_here, put) refl

  -- the content of a moved object, from the bytes that were moved
  pub content_moved :
      (i : String) (v : Bool) (e : IndexEntry) (physical : Bytes) (moment : Moment)
      (new_tier : StorageTier)
      → Index.get b json r.durable i ≡ ok (some e)
      → backend_get p b json settings r e.storage_tier e.location ≡ ok physical
      → content_of p b json settings i v
          (moved_entry p b json settings e new_tier moment.indexed_at)
          physical
        ≡ retrieve p b json settings r i v
  unfolding content_of
  content_moved i v e physical moment new_tier h held = sym (
      retrieve-entry p b json settings r i v e h
      ∙ ap (λ m. m >>= content_of p b json settings i v e)
          (bytes_read p b law json settings r i e physical held))
