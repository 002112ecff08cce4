-- ===== src/Storage/Interface.antt =====
-- `StorageBackend` of storage/interface.py: the operations that every backend has, and what its
-- clients rely on. The time of a write is an argument; a write without metadata has the empty dict.
use model_db.Prelude.{
  ℕ, zero, suc, String, ◌≡◌, Bool, Option, none, some, List, [], ◌∷◌, if◌then◌else◌, Result, ok,
  err, is_ok, str_eq,
}
use model_db.Dict.{Dict}
use model_db.Errors.{Error, key_error}

abbrev pub Bytes : Type 0
Bytes = List ℕ

-- A value of a metadata dict: a text, or a dict (the archive nests its caller's).
mutual
  pub data MetaValue : Type 0 where
    text : String → MetaValue
    nested : MetaFields → MetaValue

  pub data MetaFields : Type 0 where
    end : MetaFields
    field : String → MetaValue → MetaFields → MetaFields

abbrev pub Metadata : Type 0
Metadata = Dict MetaValue

-- a dict as a value of another, and back
abbrev pub to_fields : Metadata → MetaFields
to_fields [] = end
to_fields ((k, v) ∷ m) = field k v (to_fields m)

abbrev pub of_fields : MetaFields → Metadata
of_fields end = []
of_fields (field k v fs) = (k, v) ∷ of_fields fs

-- What `metadata(block_id)` returns.
pub record BlockInfo : Type 0 where
  pub metadata : Metadata
  pub checksum : String
  pub created_at : ℕ

-- An outage of a storage, for the calls that take one as an argument: `none`, or how many writes still
-- go through, and what the next one raises.
abbrev pub Outage : Type 0 → Type 0
Outage E = Option (ℕ × E)

-- one more write: what is left of the outage, or what `put` raises
abbrev pub next_write : {E : Type 0} → Outage E → Result E (Outage E)
next_write none = ok none
next_write (some (zero, x)) = err x
next_write (some (suc n, x)) = ok (some (n, x))

pub record StorageBackend : Type 1 where
  pub Store : Type 0
  pub put : Store → ℕ → String → Bytes → Metadata → Store × String
  pub get : Store → String → Result Error Bytes
  pub exists : Store → String → Bool
  pub delete : Store → String → Store
  pub metadata : Store → String → Result Error BlockInfo
  pub search : Store → Dict String → List String

-- The time stamp that a block keeps when it is written again.
abbrev pub stamp : Result Error BlockInfo → ℕ → ℕ
stamp (ok info) now = info.created_at
stamp (err _) now = now

-- What a client relies on: reads see the latest write, and deletion of one block leaves the others.
pub record IsLawful (sha256 : Bytes → String) (b : StorageBackend) : Type 1 where
  -- the invariant of the backend's own state
  pub IsValid : b.Store → Type 0
  pub put-IsValid :
      (s : b.Store) (t : ℕ) (k : String) (p : Bytes) (m : Metadata)
      → IsValid s
      → IsValid (b.put s t k p m).0
  pub delete-IsValid : (s : b.Store) (k : String) → IsValid s → IsValid (b.delete s k)
  pub checksum-put :
      (s : b.Store) (t : ℕ) (k : String) (p : Bytes) (m : Metadata) → (b.put s t k p m).1 ≡ sha256 p
  pub get-put :
      (s : b.Store) (t : ℕ) (k j : String) (p : Bytes) (m : Metadata)
      → b.get (b.put s t k p m).0 j ≡ (if str_eq k j then ok p else b.get s j)
  pub get-delete :
      (s : b.Store) (k j : String)
      → b.get (b.delete s k) j ≡ (if str_eq k j then err key_error else b.get s j)
  pub exists-eq : (s : b.Store) (k : String) → b.exists s k ≡ is_ok (b.get s k)
  pub metadata-put :
      (s : b.Store) (t : ℕ) (k j : String) (p : Bytes) (m : Metadata)
      → IsValid s
      → b.metadata (b.put s t k p m).0 j ≡ (
          if str_eq k j
          then ok
              (record { metadata = m; checksum = sha256 p; created_at = stamp (b.metadata s k) t })
          else b.metadata s j)
