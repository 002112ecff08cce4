-- ===== src/Storage/Memory/Consistent.antt =====
-- The four dicts of the memory store keep the same keys, each once, and what a search lists.
use model_db.Prelude.{
  ℕ, String, ◌≡◌, refl, sym, ◌∙◌, ◌↔◌, Bool, true, Option, none, some, [], ◌∷◌, arith,
  some_injective, All, is_ok, str_eq_iff,
}
use model_db.Dict
use model_db.Dict.{Dict, contains, get-put, get-remove}
use model_db.Dict.Keys.{IsUnique, IsUnique-put, IsUnique-remove, mem, mem-keys, mem-select, holds}
use model_db.Storage.Interface.{Bytes, MetaFields, Metadata}
use model_db.Storage.Memory.{
  MemoryStorageBackend, put, exists, delete, block_metadata, str_of, fits, search,
}

pub record IsConsistent (s : MemoryStorageBackend) : Type 0 where
  pub metadata_keys : (k : String) → contains s.metadata k ≡ contains s.blocks k
  pub checksum_keys : (k : String) → contains s.checksums k ≡ contains s.blocks k
  pub created_keys : (k : String) → contains s.created_at k ≡ contains s.blocks k
  pub unique : IsUnique s.metadata

-- A write to a store whose four dicts have the same keys, each once in the metadata, leaves one.
pub put-IsConsistent :
    (sha256 : Bytes → String) (s : MemoryStorageBackend) (now : ℕ) (k : String) (p : Bytes)
    (m : Metadata)
    → IsConsistent s
    → IsConsistent (put sha256 s now k p m).0
unfolding put
put-IsConsistent sha256 s now k p m c = record {
  metadata_keys =
      λ j. ground (arith, get-put s.metadata k j m, get-put s.blocks k j p, c.metadata_keys j);
  checksum_keys = λ j.
      ground (arith, get-put s.checksums k j (sha256 p), get-put s.blocks k j p, c.checksum_keys j);
  created_keys = λ j. ground (
    arith,
    get-put s.created_at k j now,
    get-put s.blocks k j p,
    c.created_keys j,
    str_eq_iff k j,
  );
  unique = IsUnique-put s.metadata k m c.unique;
}

-- A deletion from a store whose four dicts have the same keys leaves one.
pub delete-IsConsistent :
    (s : MemoryStorageBackend) (k : String) → IsConsistent s → IsConsistent (delete s k)
unfolding delete
delete-IsConsistent s k c = record {
  metadata_keys =
      λ j. ground (arith, get-remove s.metadata k j, get-remove s.blocks k j, c.metadata_keys j);
  checksum_keys =
      λ j. ground (arith, get-remove s.checksums k j, get-remove s.blocks k j, c.checksum_keys j);
  created_keys =
      λ j. ground (arith, get-remove s.created_at k j, get-remove s.blocks k j, c.created_keys j);
  unique = IsUnique-remove s.metadata k c.unique;
}

-- In a consistent store the metadata of exactly the stored blocks can be read.
pub block_metadata-total :
    (s : MemoryStorageBackend) (k : String)
    → IsConsistent s
    → is_ok (block_metadata s k) ≡ exists s k
unfolding block_metadata exists
block_metadata-total s k c = ground (arith, c.metadata_keys k, c.checksum_keys k, c.created_keys k)

fits_iff :
    (repr : MetaFields → String) (filters : Dict String) (m : Metadata)
    → (fits repr filters m ≡ true) ↔ All (λ f. str_of repr (Dict.get m f.0) ≡ f.1) filters
fits_iff repr [] m = (λ _. tt, λ _. refl)
fits_iff repr (f ∷ filters) m =
    ground (arith, fits_iff repr filters m, str_eq_iff (str_of repr (Dict.get m f.0)) f.1)

holds_iff :
    (p : Metadata → Bool) (o : Option Metadata)
    → (holds p o ≡ true) ↔ ((m : Metadata) × (o ≡ some m) × (p m ≡ true))
holds_iff p none = (λ h. absurd (cc), λ (m, h, _). absurd (cc))
holds_iff p (some m) = (λ h. (m, refl, h), λ (n, same, h). rw (some_injective same) h)

search-holds :
    (repr : MetaFields → String) (s : MemoryStorageBackend) (filters : Dict String) (k : String)
    → IsConsistent s
    → mem k (search repr s filters) ≡ holds (fits repr filters) (Dict.get s.metadata k)
unfolding search
search-holds repr s [] k c = ground (arith, mem-keys s.blocks k, c.metadata_keys k)
search-holds repr s (f ∷ filters) k c = mem-select (fits repr (f ∷ filters)) s.metadata k c.unique

-- In a consistent store a search lists a block if and only if it has metadata whose text under the
-- key of every filter is the filter's value; so without filters it lists every stored block.
pub mem-search :
    (repr : MetaFields → String) (s : MemoryStorageBackend) (filters : Dict String) (k : String)
    → IsConsistent s
    → (mem k (search repr s filters) ≡ true) ↔ (
        (m : Metadata) × (Dict.get s.metadata k ≡ some m)
        × All (λ f. str_of repr (Dict.get m f.0) ≡ f.1) filters)
mem-search repr s filters k c =
    let listed = search-holds repr s filters k c in
    let (there, back) = holds_iff (fits repr filters) (Dict.get s.metadata k) in
    (
      λ h.
          let (m, found, fit) = there (sym listed ∙ h) in
          (m, found, (fits_iff repr filters m).0 fit),
      λ (m, found, fit). listed ∙ back (m, found, (fits_iff repr filters m).1 fit),
    )
