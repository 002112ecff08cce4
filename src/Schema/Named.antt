-- ===== src/Schema/Named.antt =====
-- A registry whose collections and fields are listed under their names survives to_dict and from_dict.
use model_db.Prelude.{
  String, ◌≡◌, refl, sym, ap, ◌∙◌, false, [], ◌∷◌, ◌++◌, arith, All, ok, str_eq_iff,
}
use model_db.Dict
use model_db.Dict.{Dict, contains, get-put, get-remove}
use model_db.Dict.Keys.{IsUnique}
use model_db.Schema.{
  FieldSchema, SchemaRegistry, create_collection, fields_to_dict, to_dict, field_of, fields_from,
  registry_from, from_dict,
}

-- every field is listed under its name, once
abbrev pub HasNames : Dict FieldSchema → Type 0
HasNames fields = IsUnique fields × All (λ e. e.1.name ≡ e.0) fields

-- every collection is listed under its name, once, and so are its fields
abbrev pub IsNamed : SchemaRegistry → Type 0
IsNamed registry = IsUnique registry × All (λ e. (e.1.name ≡ e.0) × HasNames e.1.fields) registry

module _ {V : Type 0} where
  -- a new key goes to the end
  put-append :
      (d : Dict V) (k : String) (v : V) → contains d k ≡ false → Dict.put d k v ≡ d ++ ((k, v) ∷ [])
  unfolding Dict.put Dict.get
  put-append [] k v h = refl
  put-append ((j, w) ∷ d) k v h = ground (arith, put-append d k v)

  -- no key of the second is in the first
  abbrev pub Apart : Dict V → Dict V → Type 0
  Apart d = All (λ e. contains d e.0 ≡ false)

  append_nil : (d : Dict V) → d ++ [] ≡ d
  append_nil [] = refl
  append_nil (x ∷ d) = ap (λ r. x ∷ r) (append_nil d)

  Apart-nil : (e : Dict V) → Apart [] e
  unfolding Dict.get
  Apart-nil [] = tt
  Apart-nil (x ∷ e) = (refl, Apart-nil e)

  append_step : (d e : Dict V) (x : String × V) → (d ++ (x ∷ [])) ++ e ≡ d ++ (x ∷ e)
  append_step [] e x = refl
  append_step (y ∷ d) e x = ap (λ r. y ∷ r) (append_step d e x)

  Apart-step :
      (d e : Dict V) (k : String) (v : V)
      → Apart d e
      → contains e k ≡ false
      → Apart (Dict.put d k v) e
  unfolding Dict.get
  Apart-step d [] k v a h = tt
  Apart-step d ((j, w) ∷ e) k v a h = (
    ground (arith, get-put d k j v, str_eq_iff j k, str_eq_iff k j),
    Apart-step d e k v a.1 (ground arith),
  )

fields_round :
    (built fields : Dict FieldSchema)
    → HasNames fields
    → Apart built fields
    → fields_from built (fields_to_dict fields) ≡ ok (built ++ fields)
unfolding fields_from fields_to_dict field_of
fields_round built [] n a = ap ok (sym (append_nil built))
fields_round built ((k, f) ∷ fields) n a =
    let same : record { name = k; datatype = f.datatype; required = f.required } ≡ f =
      ap (λ x. record f { name = x }) (sym n.1.0) in
    ap (λ x. fields_from (Dict.put built k x) (fields_to_dict fields)) same
    ∙ fields_round (Dict.put built k f) fields (n.0.1, n.1.1)
        (Apart-step built fields k f a.1 n.0.0)
    ∙ ap ok (ap (λ d. d ++ fields) (put-append built k f a.0) ∙ append_step built fields (k, f))

registry_round :
    (built registry : SchemaRegistry)
    → IsNamed registry
    → Apart built registry
    → registry_from built (to_dict registry) ≡ ok (built ++ registry)
unfolding registry_from to_dict create_collection
registry_round built [] n a = ap ok (sym (append_nil built))
registry_round built ((k, c) ∷ registry) n a =
    let same : record { name = k; fields = c.fields } ≡ c =
      ap (λ x. record c { name = x }) (sym n.1.0.0) in
    rw (fields_round [] c.fields n.1.0.1 (Apart-nil c.fields)) (
      ap (λ x. registry_from (Dict.put built k x) (to_dict registry)) same
      ∙ registry_round (Dict.put built k c) registry (n.0.1, n.1.1)
          (Apart-step built registry k c a.1 n.0.0)
      ∙ ap ok
          (ap (λ d. d ++ registry) (put-append built k c a.0) ∙ append_step built registry (k, c)))

-- A registry whose collections and fields are each listed once under their own name is read back
-- from its dict form as it was.
pub from_dict-to_dict :
    (registry : SchemaRegistry) → IsNamed registry → from_dict (to_dict registry) ≡ ok registry
unfolding from_dict
from_dict-to_dict registry n = registry_round [] registry n (Apart-nil registry)
