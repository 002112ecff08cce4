-- ===== src/Events/Store/Laws/Memory.antt =====
-- The memory store of storage/memory_store.py lists what it holds in the order of writing, so that
-- an event store can lie on it.
use model_db.Prelude.{
  String, ◌≡◌, refl, ap, ◌∙◌, inl, inr, Bool, true, false, List, [], ◌∷◌, arith, Bool-cases, str_eq,
}
use model_db.Dict
use model_db.Dict.{Dict, contains}
use model_db.Storage.Interface.{Bytes, MetaFields}
use model_db.Storage.Memory.{put, exists, search, fits}
use model_db.Storage.Memory.Lawful.{backend_laws}
use model_db.Events.Store.Laws.{IsSearchable, Inserted}

Inserted-cons :
    (found : Bool) (x j : String) (before after : List String)
    → Inserted found x before after
    → Inserted found x (j ∷ before) (j ∷ after)
Inserted-cons true x j before after (xs, ys, e1, e2) =
    (j ∷ xs, ys, ap (λ t. j ∷ t) e1, ap (λ t. j ∷ t) e2)
Inserted-cons false x j before after e = ap (λ t. j ∷ t) e

module _ {V : Type 0} (p : V → Bool) where
  select-put_new :
      (d : Dict V) (k : String) (v : V)
      → contains d k ≡ false
      → Inserted (p v) k (Dict.select p d) (Dict.select p (Dict.put d k v))
  unfolding Dict.select Dict.put Dict.get
  select-put_new [] k v h = elim (Bool-cases (p v)) [
    | inl found ↦ rw found ([], [], refl, refl)
    | inr lost ↦ rw lost refl
  ]
  select-put_new ((j, w) ∷ d) k v h = elim (Bool-cases (str_eq j k)) [
    | inl same ↦ absurd (ground arith)
    | inr other ↦
        let absent : contains d k ≡ false = ground arith in
        rw other (elim (Bool-cases (p w)) [
          | inl kept ↦ rw kept (Inserted-cons (p v) k j _ _ (select-put_new d k v absent))
          | inr left ↦ rw left (select-put_new d k v absent)
        ])
  ]

-- A search of the memory store lists a new block after the others.
pub backend-IsSearchable :
    (sha256 : Bytes → String) (repr : MetaFields → String)
    → IsSearchable (backend_laws sha256 repr) repr
unfolding backend_laws put exists search
backend-IsSearchable sha256 repr = record {
  search-put = λ s t x p m f filters valid new.
      select-put_new (fits repr (f ∷ filters)) s.metadata x m (valid.metadata_keys x ∙ new);
}
