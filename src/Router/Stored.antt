-- ===== src/Router/Stored.antt =====
-- The order that the router keeps, and what a call that ends in a write to the index leaves.
use model_db.Prelude.{
  ℕ, String, ◌≡◌, refl, sym, ap, ◌∙◌, ◌≢◌, inl, inr, Bool, some, arith, if◌then◌else◌, Bool-cases,
  some_injective, Result, ok, ◌>>=◌, ok-injective, str_eq, str_eq_iff, str_eq_refl,
}
use mathlib.Core.Path.{subst}
use model_db.Errors.{Error}
use model_db.Vocabulary.{StorageTier, DataType}
use model_db.Storage.Interface.{Bytes, StorageBackend, IsLawful}
use model_db.Platform.{Platform, IsAuthenticated, IsLossless}
use model_db.Compression.{decompress}
use model_db.Index
use model_db.Index.{IndexEntry, EntryJson, IsFaithful, index_id, entry_metadata, get-register}
use model_db.Location.{location_of}
use model_db.Router.{
  StorageRouter, Settings, backend_get, register_entry, stored_bytes, content_of, retrieve,
}
use model_db.Router.Backends.{IsSound}
use model_db.Router.Frame.{retrieve-entry, retrieve_frame, registered_gets}

-- The entry that the index has under an id is of that object, and at its location.
abbrev pub IsCataloged : (b : StorageBackend) → EntryJson → StorageRouter b → Type 0
IsCataloged b json r =
    (j : String) (e : IndexEntry)
    → Index.get b json r.durable j ≡ ok (some e)
    → (e.object_id ≡ j) × (e.location ≡ location_of e.object_type j)

module _ (p : Platform) (b : StorageBackend) (law : IsLawful p.sha256 b) (json : EntryJson)
    (settings : Settings) where
  -- The durable store and the archive are in order, and so is the index.
  abbrev pub IsWell : StorageRouter b → Type 0
  IsWell r = IsSound p b law r × IsCataloged b json r

  -- what holds of the router `r'` after a call that made an object retrievable as `held` and was
  -- to leave the others of `r`
  pub record Leaves (r r' : StorageRouter b) (i : String) (held : Bool → Result Error Bytes)
      : Type 0 where
    pub well : IsWell r'
    pub this : (v : Bool) → retrieve p b json settings r' i v ≡ held v
    pub others :
        (j : String) (v : Bool)
        → i ≢ j
        → retrieve p b json settings r' j v ≡ retrieve p b json settings r j v

  pub content_read :
      (i : String) (v : Bool) (e : IndexEntry) (physical content : Bytes)
      → decompress p physical e.compression ≡ ok content
      → p.sha256 content ≡ e.checksum
      → content_of p b json settings i v e physical ≡ ok content
  unfolding content_of
  content_read i v e physical content opened same =
      ground (arith, opened, same, str_eq_refl e.checksum)

  pub bytes_read :
      (r : StorageRouter b) (i : String) (e : IndexEntry) (physical : Bytes)
      → backend_get p b json settings r e.storage_tier e.location ≡ ok physical
      → stored_bytes p b json settings r i e ≡ ok physical
  unfolding stored_bytes
  bytes_read r i e physical h = rw (stored_bytes, h) refl

module _ (p : Platform) (a : IsAuthenticated p) (l : IsLossless p) (b : StorageBackend)
    (law : IsLawful p.sha256 b) (json : EntryJson) (f : IsFaithful json) (settings : Settings) where
  -- a write to the index for an object, after a call that left the index and the blocks of the others
  module _ (r r' : StorageRouter b) (well : IsWell p b law json settings r) (now : ℕ)
      (e : IndexEntry) (here : e.location ≡ location_of e.object_type e.object_id)
      (sound : IsSound p b law r')
      (indexed : (j : String) → Index.get b json r'.durable j ≡ Index.get b json r.durable j)
      (kept : (u : StorageTier) (ty : DataType) (k : String)
        → e.object_id ≢ k
        → backend_get p b json settings r' u (location_of ty k)
          ≡ backend_get p b json settings r u (location_of ty k)) where
    abbrev after : StorageRouter b
    after = register_entry p b json settings r' now e

    entry_after :
        (j : String)
        → Index.get b json after.durable j
          ≡ (if str_eq e.object_id j then ok (some e) else Index.get b json r.durable j)
    entry_after j =
        get-register p.sha256 b law json f r'.durable now e j
        ∙ ap (λ o. if str_eq e.object_id j then ok (some e) else o) (indexed j)

    IsCataloged-after : IsCataloged b json after
    IsCataloged-after j x h = elim (Bool-cases (str_eq e.object_id j)) [
      | inl this ↦
          let is_j : e.object_id ≡ j = ground (arith, str_eq_iff e.object_id j) in
          let found : Index.get b json after.durable j ≡ ok (some e) =
            entry_after j ∙ rw this refl in
          let same : e ≡ x = some_injective (ok-injective (sym found ∙ h)) in
          rw (← same) (is_j, here ∙ ap (location_of e.object_type) is_j)
      | inr other ↦ well.1 j x (sym (entry_after j ∙ rw other refl) ∙ h)
    ]

    IsSound-after : IsSound p b law after
    unfolding Index.register
    IsSound-after = record {
      valid =
          law.put-IsValid r'.durable now (index_id e.object_id) (json.dump e) (entry_metadata e)
            sound.valid;
      odd = sound.odd;
      few = sound.few;
    }

    others_after :
        (j : String) (v : Bool)
        → e.object_id ≢ j
        → retrieve p b json settings after j v ≡ retrieve p b json settings r j v
    others_after j v ne =
        retrieve_frame p b json settings r after j v
          (entry_after j ∙ ground (arith, str_eq_iff e.object_id j))
          (λ x h.
            subst
              (λ loc.
                backend_get p b json settings after x.storage_tier loc
                ≡ backend_get p b json settings r x.storage_tier loc)
              (sym (well.1 j x h).1)
              (registered_gets p b law json settings r' now e x.storage_tier x.object_type j
                ∙ kept x.storage_tier x.object_type j ne))

    this_after :
        (physical : Bytes) (v : Bool)
        → backend_get p b json settings r' e.storage_tier (location_of e.object_type e.object_id)
          ≡ ok physical
        → retrieve p b json settings after e.object_id v
          ≡ content_of p b json settings e.object_id v e physical
    this_after physical v held =
        retrieve-entry p b json settings after e.object_id v e
          (entry_after e.object_id ∙ rw (str_eq_refl e.object_id) refl)
        ∙ ap (λ m. m >>= content_of p b json settings e.object_id v e)
            (bytes_read p b law json settings after e.object_id e physical (
              ap (backend_get p b json settings after e.storage_tier) here
              ∙ registered_gets p b law json settings r' now e e.storage_tier e.object_type
                  e.object_id
              ∙ held))

    -- The call leaves the other objects, and the router in order.
    pub Leaves-register :
        (held : Bool → Result Error Bytes) (physical : Bytes)
        → backend_get p b json settings r' e.storage_tier (location_of e.object_type e.object_id)
          ≡ ok physical
        → ((v : Bool) → content_of p b json settings e.object_id v e physical ≡ held v)
        → Leaves p b law json settings r after e.object_id held
    Leaves-register held physical there read_back = record {
      well = (IsSound-after, IsCataloged-after);
      this = λ v. this_after physical v there ∙ read_back v;
      others = others_after;
    }
