-- ===== src/Router/Effects.antt =====
-- The effect of each tier's put and delete.
use model_db.Prelude.{
  String, ◌≡◌, refl, sym, ap, inl, inr, some, arith, if◌then◌else◌, Bool-cases, ok, err, str_eq,
  str_eq_iff,
}
use model_db.Vocabulary.{StorageTier, DataType}
use model_db.Storage.Interface.{Bytes, Metadata, StorageBackend, IsLawful}
use model_db.Storage.Memory
use model_db.Platform.{Platform, IsAuthenticated}
use model_db.Index.{EntryJson}
use model_db.Dna.Storage
use mathlib.Core.Path.{subst}
use model_db.Router.Backends.{IsSound, IsStorable, Changes, at_durable, at_hot, at_archive}
use model_db.Dict.{get-put, get-remove}
use model_db.Location.{location_of}
use model_db.Errors.{key_error}
use model_db.Dna.Storage.{DnaStorageBackend, Supply, persist_id, key_of, read}
use model_db.Dna.Storage.Frame.{cleared, persist-delete, get-cleared, IsValid-cleared, read-delete}
use model_db.Dna.Storage.Archive.{HasWritten, put_with-HasWritten}
use model_db.Router.{StorageRouter, Settings, attach, detach, backend_put, backend_delete}

module _ (p : Platform) (a : IsAuthenticated p) (b : StorageBackend) (law : IsLawful p.sha256 b)
    (json : EntryJson) (settings : Settings) (r : StorageRouter b) (ty : DataType) (i : String)
    (sound : IsSound p b law r) where
  abbrev here : String
  here = location_of ty i

  detached :
      (d' : DnaStorageBackend b.Store) (s' : b.Store)
      → d'.persist ≡ some s'
      → detach p b json settings r d' ≡ record r { archive = d'; durable = s' }
  detached d' s' kept = rw kept refl

  reads_after :
      (d' : DnaStorageBackend b.Store) (payload : Bytes)
      → HasWritten p b law
          (attach p b json settings r)
          d'
          (key_of p b settings.default_key r.archive)
          here
          payload
      → (j : String)
      → read p b d' j (key_of p b settings.default_key r.archive) ≡ (
          if str_eq here j
          then ok payload
          else read p b (attach p b json settings r) j (key_of p b settings.default_key r.archive))
  reads_after d' payload w j = elim (Bool-cases (str_eq here j)) [
    | inl this ↦ let e : here ≡ j = ground (arith, str_eq_iff here j) in rw (this, ← e) w.reads_back
    | inr other ↦ rw other (
        w.reads_others j (key_of p b settings.default_key r.archive)
          (λ e. ground (arith, str_eq_iff here j)))
  ]

  -- A write to a tier succeeds if its payload can be stored there; the payload is then at the
  -- location in that tier, and nothing else changes at an object's location or in the index.
  pub backend_put-Changes :
      (supply : Supply) (t : StorageTier) (payload : Bytes) (metadata : Metadata)
      → IsStorable p b json settings r supply t payload
      → (r' : StorageRouter b) × (backend_put p b json settings r supply t here payload metadata
          ≡ ok r')
        × Changes p b json settings law r r' t here (ok payload)
  unfolding backend_put Storage.put Memory.put Memory.get
  backend_put-Changes supply StorageTier.hot payload metadata fits =
      let h' = (Memory.put p.sha256 r.hot supply.now here payload metadata).0 in
      (
        record r { hot = h' },
        refl,
        at_hot p a b law json settings r ty i sound h' (ok payload)
            (λ j. ground (arith, get-put r.hot.blocks here j payload)),
      )
  backend_put-Changes supply StorageTier.warm payload metadata fits =
      let s' = (b.put r.durable supply.now here payload metadata).0 in
      (
        record r { durable = s' },
        refl,
        at_durable p a b law json settings r ty i sound s' (ok payload)
            (λ j. law.get-put r.durable supply.now here j payload metadata) StorageTier.warm refl
            (law.put-IsValid r.durable supply.now here payload metadata sound.valid),
      )
  backend_put-Changes supply StorageTier.cold payload metadata fits =
      let s' = (b.put r.durable supply.now here payload metadata).0 in
      (
        record r { durable = s' },
        refl,
        at_durable p a b law json settings r ty i sound s' (ok payload)
            (λ j. law.get-put r.durable supply.now here j payload metadata) StorageTier.cold refl
            (law.put-IsValid r.durable supply.now here payload metadata sound.valid),
      )
  backend_put-Changes supply StorageTier.archive payload metadata fits =
      let key = key_of p b settings.default_key r.archive in
      let (d', put, w) =
        put_with-HasWritten p a b law (attach p b json settings r) supply here payload metadata key
          refl sound.valid sound.odd sound.few fits.0 fits.1 in
      (
        record r { archive = d'; durable = w.store },
        rw put (ap ok (detached d' w.store w.kept)),
        at_archive p a b law json settings r ty i sound d' w.store (ok payload) w.kept w.same_key
            (λ j. reads_after d' payload w j) (λ j ne. w.untouched r.durable j refl ne) w.valid
            (rw w.same_copies sound.odd) (rw w.same_copies sound.few),
      )

  -- A deletion in a tier leaves nothing at the location in that tier, and changes nothing else at an
  -- object's location or in the index.
  pub backend_delete-Changes :
      (t : StorageTier)
      → Changes p b json settings law r
          (backend_delete p b json settings r t here)
          t
          here
          (err key_error)
  unfolding backend_delete Storage.delete Memory.delete Memory.get
  backend_delete-Changes StorageTier.hot =
      at_hot p a b law json settings r ty i sound (Memory.delete r.hot here) (err key_error)
        (λ j. ground (arith, get-remove r.hot.blocks here j))
  backend_delete-Changes StorageTier.warm =
      at_durable p a b law json settings r ty i sound (b.delete r.durable here) (err key_error)
        (law.get-delete r.durable here) StorageTier.warm refl
        (law.delete-IsValid r.durable here sound.valid)
  backend_delete-Changes StorageTier.cold =
      at_durable p a b law json settings r ty i sound (b.delete r.durable here) (err key_error)
        (law.get-delete r.durable here) StorageTier.cold refl
        (law.delete-IsValid r.durable here sound.valid)
  backend_delete-Changes StorageTier.archive =
      let d = attach p b json settings r in
      let kept = persist-delete p b law d r.durable refl here in
      let s' = cleared p b law d r.durable refl here in
      subst (λ x. Changes p b json settings law r x StorageTier.archive here (err key_error))
        (sym (detached (Storage.delete p b d here) s' kept))
        (at_archive p a b law json settings r ty i sound (Storage.delete p b d here) s'
          (err key_error) kept refl
          (λ j.
            read-delete p b law d r.durable refl here j (key_of p b settings.default_key r.archive))
          (λ j ne. get-cleared p b law d r.durable refl here j ne)
          (IsValid-cleared p b law d r.durable refl here sound.valid) sound.odd sound.few)
