-- ===== src/Dna/Storage/Frame.antt =====
-- Which part of the durable store a block of the archive depends on, and what a deletion leaves.
use model_db.Prelude.{
  String, ◌≡◌, refl, ◌∙◌, ◌≢◌, inl, inr, some, arith, if◌then◌else◌, Bool-cases, err, str_eq,
  str_eq_iff, str_eq-prefix,
}
use model_db.Dict.{contains, get-remove}
use model_db.Errors.{key_error}
use model_db.Storage.Interface.{Bytes, StorageBackend, IsLawful}
use model_db.Platform.{Platform}
use model_db.Dna.Storage.{DnaStorageBackend, persist_id, read, copies_of, delete}

module _ (p : Platform) (b : StorageBackend) (d : DnaStorageBackend b.Store) where
  -- A block reads alike over two durable stores that hold the same under its id.
  pub read_frame :
      (s s' : b.Store) (j : String) (key : Bytes)
      → b.get s (persist_id j) ≡ b.get s' (persist_id j)
      → read p b (record d { persist = some s }) j key
        ≡ read p b (record d { persist = some s' }) j key
  unfolding read copies_of
  read_frame s s' j key h = rw h refl

module _ (p : Platform) (b : StorageBackend) (law : IsLawful p.sha256 b)
    (d : DnaStorageBackend b.Store) (s : b.Store) (kept : d.persist ≡ some s) where
  -- the durable store after the deletion of a block
  abbrev pub cleared : String → b.Store
  cleared k = if contains d.metadata k then b.delete s (persist_id k) else s

  pub persist-delete : (k : String) → (delete p b d k).persist ≡ some (cleared k)
  unfolding delete
  persist-delete k = rw kept refl

  pub get-cleared : (k j : String) → persist_id k ≢ j → b.get (cleared k) j ≡ b.get s j
  get-cleared k j ne = elim (Bool-cases (contains d.metadata k)) [
    | inl here ↦
        rw here (law.get-delete s (persist_id k) j ∙ ground (arith, str_eq_iff (persist_id k) j))
    | inr gone ↦ rw gone refl
  ]

  pub IsValid-cleared : (k : String) → law.IsValid s → law.IsValid (cleared k)
  IsValid-cleared k v = elim (Bool-cases (contains d.metadata k)) [
    | inl here ↦ rw here (law.delete-IsValid s (persist_id k) v)
    | inr gone ↦ rw gone v
  ]

  -- A deleted block is not found, and the others read as before, under any key.
  pub read-delete :
      (k j : String) (key : Bytes)
      → read p b (delete p b d k) j key ≡ (if str_eq k j then err key_error else read p b d j key)
  unfolding read copies_of delete
  read-delete k j key = ground (
    arith,
    kept,
    get-remove d.metadata k j,
    get-cleared k (persist_id j),
    str_eq-prefix "dna:" k j,
    str_eq_iff (persist_id k) (persist_id j),
  )
