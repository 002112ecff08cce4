-- ===== src/Router/Outcome.antt =====
-- `store` of the router against what `retrieve` shows of every object.
use model_db.Prelude.{String, ◌≡◌, refl, ◌∙◌, false, Option, ok, >>=-eq-ok}
use model_db.Vocabulary.{CompressionAlgorithm}
use model_db.Storage.Interface.{Bytes, StorageBackend, IsLawful}
use model_db.Platform.{Platform, IsAuthenticated, IsLossless}
use model_db.Compression.{compress, decompress, is_missing, decompress-compress}
use model_db.Strategy.{StorageStrategy}
use model_db.Index.{IndexEntry, EntryJson, IsFaithful}
use model_db.Location.{location_of}
use model_db.Router.{
  StorageRouter, MdcObject, Moment, Settings, backend_put, register_entry, store, object_metadata,
  entry_for,
}
use model_db.Router.Backends.{IsStorable}
use model_db.Router.Effects.{backend_put-Changes}
use model_db.Router.Stored.{IsWell, Leaves, content_read, Leaves-register}
use model_db.Router.Frame.{kept_elsewhere, held_here}

module _ (p : Platform) (a : IsAuthenticated p) (l : IsLossless p) (b : StorageBackend)
    (law : IsLawful p.sha256 b) (json : EntryJson) (f : IsFaithful json) (settings : Settings)
    (r : StorageRouter b) (well : IsWell p b law json settings r) where
  compressed :
      (content : Bytes) (algorithm : CompressionAlgorithm)
      → is_missing algorithm ≡ false
      → (physical : Bytes) × (compress p content algorithm ≡ ok physical)
        × (decompress p physical algorithm ≡ ok content)
  compressed content algorithm there =
      >>=-eq-ok (compress p content algorithm) (λ c. decompress p c algorithm)
        (decompress-compress p l content algorithm ∙ rw there refl)

  -- Storing an object succeeds if its compression is installed and its tier can take what the
  -- compression gives. It can then be retrieved, with the checksum verified, as it was given; every
  -- other object is retrieved as before, and the router stays in order.
  pub store-Leaves :
      (moment : Moment) (obj : MdcObject) (content : Bytes) (strategy : StorageStrategy)
      (tensor_id tensor_name block_id : Option String)
      → is_missing strategy.compression ≡ false
      → ((physical : Bytes)
          → compress p content strategy.compression ≡ ok physical
          → IsStorable p b json settings r moment.supply strategy.storage_tier physical)
      → (r' : StorageRouter b) × (entry : IndexEntry) × (store p b json settings r moment obj
            content strategy tensor_id tensor_name block_id
          ≡ ok (r', entry))
        × (entry.storage_tier ≡ strategy.storage_tier)
        × Leaves p b law json settings r r' obj.object_id (λ _. ok content)
  store-Leaves moment obj content strategy tensor_id tensor_name block_id there fits =
      let (physical, packed, opened) = compressed content strategy.compression there in
      let here = location_of obj.object_type obj.object_id in
      let (r1, put, c) =
        backend_put-Changes p a b law json settings r obj.object_type obj.object_id well.0
          moment.supply strategy.storage_tier physical
          (object_metadata p b json settings obj.object_id obj.object_type)
          (fits physical packed) in
      let entry =
        entry_for p b json settings obj content physical strategy tensor_id tensor_name block_id
          moment.indexed_at in
      (
        register_entry p b json settings r1 moment.registered entry,
        entry,
        stored r1 packed put,
        refl,
        Leaves-register p a l b law json f settings r r1 well moment.registered entry refl c.sound
            c.indexed (kept_elsewhere p b law json settings obj.object_type obj.object_id c)
            (λ _. ok content) physical
            (held_here p b law json settings obj.object_type obj.object_id c)
            (λ v.
              content_read p b law json settings obj.object_id v entry physical content opened
                refl),
      )
    where
      stored :
          {physical : Bytes} (r1 : StorageRouter b)
          → compress p content strategy.compression ≡ ok physical
          → backend_put p b json settings r moment.supply strategy.storage_tier
              (location_of obj.object_type obj.object_id)
              physical
              (object_metadata p b json settings obj.object_id obj.object_type)
            ≡ ok r1
          → store p b json settings r moment obj content strategy tensor_id tensor_name block_id
            ≡ ok (
              register_entry p b json settings r1 moment.registered (
                  entry_for p b json settings obj content physical strategy tensor_id tensor_name
                    block_id moment.indexed_at),
              entry_for p b json settings obj content physical strategy tensor_id tensor_name
                  block_id moment.indexed_at,
            )
      stored r1 packed put = unfold store in rw (packed, put) refl
