-- ===== src/Dict/Keys.antt =====
-- Dictionaries whose keys are distinct, and the keys that a selection lists.
use model_db.Prelude.{
  String, ◌≡◌, refl, ◌∙◌, Bool, false, ◌||◌, Option, none, some, List, [], ◌∷◌, arith,
  if◌then◌else◌, str_eq, str_eq_iff,
}
use model_db.Dict.Base.{Dict, get, contains, put, merge, remove, keys, select, get-put, get-remove}

-- `k in ks` for a list of texts
abbrev pub mem : String → List String → Bool
mem k [] = false
mem k (j ∷ ks) = str_eq j k || mem k ks

-- No key is listed twice.
abbrev pub IsUnique {ℓ} : {V : Type ℓ} → Dict V → Type 0
IsUnique [] = Unit
IsUnique ((k, _) ∷ d) = (contains d k ≡ false) × IsUnique d

abbrev pub holds {ℓ} : {V : Type ℓ} → (V → Bool) → Option V → Bool
holds p none = false
holds p (some v) = p v

module _ {ℓ} {V : Type ℓ} where
  pub IsUnique-put : (d : Dict V) (k : String) (v : V) → IsUnique d → IsUnique (put d k v)
  unfolding put get
  IsUnique-put [] k v u = (refl, tt)
  IsUnique-put ((j, w) ∷ d) k v u =
      ground (arith, IsUnique-put d k v u.1, get-put d k j v, str_eq_iff j k, str_eq_iff k j)

  pub IsUnique-remove : (d : Dict V) (k : String) → IsUnique d → IsUnique (remove d k)
  unfolding remove get
  IsUnique-remove [] k u = tt
  IsUnique-remove ((j, w) ∷ d) k u =
      ground (arith, IsUnique-remove d k u.1, get-remove d k j, str_eq_iff j k, str_eq_iff k j)

  pub mem-keys : (d : Dict V) (k : String) → mem k (keys d) ≡ contains d k
  unfolding keys get
  mem-keys [] k = refl
  mem-keys ((j, w) ∷ d) k = ground (arith, mem-keys d k)

  pub mem-select_absent :
      (p : V → Bool) (d : Dict V) (k : String) → contains d k ≡ false → mem k (select p d) ≡ false
  unfolding select get
  mem-select_absent p [] k h = refl
  mem-select_absent p ((j, w) ∷ d) k h = ground (arith, mem-select_absent p d k)

  -- A selection lists exactly the keys whose value passes the test.
  pub mem-select :
      (p : V → Bool) (d : Dict V) (k : String) → IsUnique d → mem k (select p d) ≡ holds p (get d k)
  unfolding select get
  mem-select p [] k u = refl
  mem-select p ((j, w) ∷ d) k u = ground (
    arith,
    mem-select p d k u.1,
    mem-select_absent p d j u.0,
    mem-select_absent p d k,
    str_eq_iff j k,
  )

  -- `{**d, **e}` reads as `e` where `e` has the key, and as `d` elsewhere.
  pub get-merge :
      (d e : Dict V) (k : String)
      → IsUnique e
      → get (merge d e) k ≡ (if contains e k then get e k else get d k)
  unfolding merge get
  get-merge d [] k u = refl
  get-merge d ((j, v) ∷ e) k u =
      get-merge (put d j v) e k u.1 ∙ ground (arith, get-put d j k v, str_eq_iff j k, u.0)
