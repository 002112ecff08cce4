-- ===== src/Events/Store/Writing/Listed.antt =====
-- The blocks that a search of a stream lists after a write.
use model_db.Prelude.{ℕ, String, ◌≡◌, refl, ◌∙◌, true, false, ◌&&◌, [], ◌∷◌, str_eq, str_eq_refl}
use model_db.Storage.Interface.{Bytes, MetaFields, StorageBackend, IsLawful}
use model_db.Storage.Memory.{fits}
use model_db.Events.Store.{Environment}
use model_db.Events.Store.Laws.{IsSearchable, Inserted}
use model_db.Events.Store.Reading.{search_filter, block_ids}
use model_db.Events.Store.Requests.{record_metadata}
use model_db.Events.Store.Writing.Stored.{fits-record_metadata}
use mathlib.Core.Path.{subst}

module _ {sha256 : Bytes → String} {b : StorageBackend} {law : IsLawful sha256 b}
    {repr : MetaFields → String} (sl : IsSearchable law repr) (e : Environment) (s : b.Store)
    (now : ℕ) (x : String) (p : Bytes) (stream kind : String) (valid : law.IsValid s)
    (new : b.exists s x ≡ false) where
  -- the blocks that a search of a stream lists after a write
  pub search-put_same :
      Inserted true x
        (block_ids b e s stream kind)
        (block_ids b e (b.put s now x p (record_metadata stream kind)).0 stream kind)
  unfolding block_ids
  search-put_same =
      let fit : fits repr (search_filter stream kind) (record_metadata stream kind) ≡ true =
        fits-record_metadata repr stream kind stream kind
        ∙ rw (str_eq_refl stream, str_eq_refl kind) refl in
      let found =
        sl.search-put s now x p (record_metadata stream kind) ("stream", stream)
          (("kind", kind) ∷ []) valid new in
      subst
        (λ f.
          Inserted f x (b.search s (search_filter stream kind)) (
            b.search (b.put s now x p (record_metadata stream kind)).0 (search_filter stream kind)))
        (fit) found

  pub search-put_other :
      (stream' kind' : String)
      → (str_eq stream stream' && (str_eq kind kind' && true)) ≡ false
      → block_ids b e (b.put s now x p (record_metadata stream kind)).0 stream' kind'
        ≡ block_ids b e s stream' kind'
  unfolding block_ids
  search-put_other stream' kind' h =
      let found =
        sl.search-put s now x p (record_metadata stream kind) ("stream", stream')
          (("kind", kind') ∷ []) valid new in
      subst
        (λ f. Inserted f x (b.search s (search_filter stream' kind')) (
          b.search (b.put s now x p (record_metadata stream kind)).0 (search_filter stream' kind')))
        (fits-record_metadata repr stream' kind' stream kind ∙ h) found
