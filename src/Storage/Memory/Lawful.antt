-- ===== src/Storage/Memory/Lawful.antt =====
-- The memory store meets the contract of the interface.
use model_db.Prelude.{◌≡◌, String, refl, arith, str_eq_iff}
use model_db.Dict.{get-put, get-remove}
use model_db.Storage.Interface.{Bytes, IsLawful, MetaFields}
use model_db.Storage.Memory.{
  MemoryStorageBackend, backend, put, get, exists, delete, block_metadata,
}
use model_db.Storage.Memory.Consistent.{IsConsistent, put-IsConsistent, delete-IsConsistent}

-- the laws, with the invariant of the four dicts as the validity of a state
unfoldable pub backend_laws :
    (sha256 : Bytes → String) (repr : MetaFields → String) → IsLawful sha256 (backend sha256 repr)
unfolding put get exists delete block_metadata
backend_laws sha256 repr = record {
  IsValid = IsConsistent;
  put-IsValid = put-IsConsistent sha256;
  delete-IsValid = delete-IsConsistent;
  checksum-put = λ s t k p m. refl;
  get-put = λ s t k j p m. ground (arith, get-put s.blocks k j p);
  get-delete = λ s k j. ground (arith, get-remove s.blocks k j);
  exists-eq = λ s k. ground arith;
  metadata-put = λ s t k j p m c. ground (
    arith,
    c.metadata_keys k,
    c.checksum_keys k,
    c.created_keys k,
    str_eq_iff k j,
    get-put s.blocks k j p,
    get-put s.metadata k j m,
    get-put s.checksums k j (sha256 p),
    get-put s.created_at k j t,
  );
}

-- The memory store meets the contract of the interface in every state whose four dicts agree: the
-- validity of a state is exactly their consistency, every write and deletion keeps it, reads see
-- the latest write, and an operation on one block leaves the others.
pub backend-IsLawful :
    (sha256 : Bytes → String) (repr : MetaFields → String)
    → (law : IsLawful sha256 (backend sha256 repr)) × ((s : MemoryStorageBackend)
        → law.IsValid s ≡ IsConsistent s)
unfolding backend_laws
backend-IsLawful sha256 repr = (backend_laws sha256 repr, λ s. refl)
