-- ===== src/Examples/Storage.antt =====
-- The memory store at work on two blocks.
use model_db.Prelude.{String, ◌≡◌, refl, ◌↔◌, true, some, [], ◌∷◌, All}
use model_db.Dict
use model_db.Dict.{contains}
use model_db.Dict.Keys.{mem}
use model_db.Storage.Interface.{Metadata, MetaFields, text, IsLawful}
use model_db.Storage.Memory.{MemoryStorageBackend, empty, put, str_of, search, backend}
use model_db.Storage.Memory.Consistent.{IsConsistent, put-IsConsistent, mem-search}
use model_db.Storage.Memory.Lawful.{backend-IsLawful}
use model_db.Examples.Cipher.{toy}

-- how Python prints a nested dict; the runs nest none
abbrev pub printed : MetaFields → String
printed _ = "{}"

pub empty-IsConsistent : IsConsistent empty
unfolding Dict.get
empty-IsConsistent = record {
  metadata_keys = λ k. refl;
  checksum_keys = λ k. refl;
  created_keys = λ k. refl;
  unique = tt;
}

abbrev photo : Metadata
photo = ("kind", text "photo") ∷ []

abbrev one_block : MemoryStorageBackend
one_block = (put toy.sha256 empty 7 "a" (1 ∷ 2 ∷ []) photo).0

abbrev one_consistent : IsConsistent one_block
one_consistent = put-IsConsistent toy.sha256 empty 7 "a" (1 ∷ 2 ∷ []) photo empty-IsConsistent

mem-search_example : (mem "a" (search printed one_block (("kind", "photo") ∷ [])) ≡ true) ↔ (
    (m : Metadata) × (Dict.get one_block.metadata "a" ≡ some m)
    × All {A = String × String}
        (λ f. str_of printed (Dict.get m f.0) ≡ f.1)
        (("kind", "photo") ∷ []))
mem-search_example = mem-search printed one_block (("kind", "photo") ∷ []) "a" one_consistent

backend-IsLawful_example :
    (law : IsLawful toy.sha256 (backend toy.sha256 printed)) × ((s : MemoryStorageBackend)
      → law.IsValid s ≡ IsConsistent s)
backend-IsLawful_example = backend-IsLawful toy.sha256 printed
