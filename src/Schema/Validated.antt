-- ===== src/Schema/Validated.antt =====
-- What a record that passes the check is.
use model_db.Prelude.{
  String, ◌≡◌, refl, sym, ◌∙◌, inl, inr, Bool, true, false, not, ◌&&◌, ◌||◌, List, [], ◌∷◌, arith,
  Bool-cases, Option-cases, All, ok, >>=-eq-ok, ok-injective, str_eq_iff,
}
use model_db.Dict
use model_db.Dict.{Dict, contains, get-put}
use model_db.Dict.Keys.{IsUnique, IsUnique-put}
use model_db.Schema.{
  FieldSchema, CollectionSchema, SchemaRegistry, Values, get_collection, coerce, coerce_all,
  missing, complain, validate_record,
}

module _ (v : Values) where
  coerced_keys :
      (collection : String) (fields : Dict FieldSchema) (validated record_data : Dict v.Value)
      {result : Dict v.Value}
      → coerce_all v collection fields validated record_data ≡ ok result
      → ((k : String) → contains result k ≡ (contains validated k || contains record_data k))
        × ((k : String) → contains record_data k ≡ true → contains fields k ≡ true)
  unfolding coerce_all Dict.get
  coerced_keys collection fields validated [] h = (λ k. ground arith, λ k m. absurd (cc))
  coerced_keys collection fields validated ((key, value) ∷ rest) h =
      elim (Option-cases (Dict.get fields key)) [
        | inl unknown ↦ absurd (ground (arith, unknown))
        | inr (f, known) ↦
            let (c, one, h') = >>=-eq-ok (coerce v value f) _ (rw (coerce_all, known) at h) in
            let (keys, all_known) =
              coerced_keys collection fields (Dict.put validated key c) rest h' in
            (
              λ k. keys k ∙ ground (arith, get-put validated key k c),
              λ k m. ground (arith, all_known k, known, str_eq_iff key k),
            )
      ]

  none_missing :
      (validated given : Dict v.Value) (fields : Dict FieldSchema)
      → ((k : String) → contains validated k ≡ contains given k)
      → missing v validated fields ≡ []
      → All (λ e. e.1.required ≡ true → contains given e.1.name ≡ true) fields
  unfolding missing
  none_missing validated given [] same h = tt
  none_missing validated given ((k, f) ∷ fields) same h =
      elim (Bool-cases (f.required && not (contains validated f.name))) [
        | inl bad ↦ absurd (cc (rw bad at h))
        | inr good ↦ (
          λ needed. sym (same f.name) ∙ ground arith,
          none_missing validated given fields same (rw good at h),
        )
      ]

  complained :
      (collection : String) (names : List String) (validated : Dict v.Value) {result : Dict v.Value}
      → complain v collection names validated ≡ ok result
      → (names ≡ []) × (validated ≡ result)
  complained collection [] validated h = (refl, ok-injective h)
  complained collection (name ∷ names) validated h = absurd (cc)

  -- A record that is accepted belongs to a collection that exists, has only fields that the
  -- collection knows, is returned with exactly the keys that were given, and, unless the check is
  -- partial, has every required field.
  pub validate_record_sound :
      (registry : SchemaRegistry) (collection : String) (record_data : Dict v.Value)
      (partial : Bool) (result : Dict v.Value)
      → validate_record v registry collection record_data partial ≡ ok result
      → (schema : CollectionSchema) × (get_collection registry collection ≡ ok schema)
        × ((k : String) → contains result k ≡ contains record_data k)
        × ((k : String) → contains record_data k ≡ true → contains schema.fields k ≡ true)
        × (partial ≡ false
            → All (λ e. e.1.required ≡ true → contains record_data e.1.name ≡ true) schema.fields)
  unfolding validate_record
  validate_record_sound registry collection record_data partial result h =
      let (schema, got, h1) = >>=-eq-ok (get_collection registry collection) _ h in
      let (validated, coerced, h2) =
        >>=-eq-ok (coerce_all v collection schema.fields [] record_data) _ h1 in
      let (keys, known) = coerced_keys collection schema.fields [] record_data coerced in
      let given : (k : String) → contains validated k ≡ contains record_data k =
        λ k. unfold Dict.get in keys k in
      elim (Bool-cases partial) [
        | inl lax ↦
            let same : validated ≡ result = ok-injective (rw lax at h2) in
            (schema, got, rw (← same) given, known, λ strict. absurd (cc))
        | inr strict ↦
            let (complete, same) =
              complained collection (missing v validated schema.fields) validated
                (rw strict at h2) in
            (
              schema,
              got,
              rw (← same) given,
              known,
              λ _. none_missing validated record_data schema.fields given complete,
            )
      ]

  coerce_all-IsUnique :
      (collection : String) (fields : Dict FieldSchema) (validated record_data : Dict v.Value)
      {result : Dict v.Value}
      → IsUnique validated
      → coerce_all v collection fields validated record_data ≡ ok result
      → IsUnique result
  unfolding coerce_all
  coerce_all-IsUnique collection fields validated [] u h = rw (← ok-injective h) u
  coerce_all-IsUnique collection fields validated ((key, value) ∷ rest) u h =
      elim (Option-cases (Dict.get fields key)) [
        | inl unknown ↦ absurd (cc (rw (coerce_all, unknown) at h))
        | inr (f, known) ↦
            let (c, _, h') = >>=-eq-ok (coerce v value f) _ (rw (coerce_all, known) at h) in
            coerce_all-IsUnique collection fields (Dict.put validated key c) rest
              (IsUnique-put validated key c u) h'
      ]

  -- what a partial check returns has each key once
  pub validate_record-IsUnique :
      (registry : SchemaRegistry) (collection : String) (record_data : Dict v.Value)
      {result : Dict v.Value}
      → validate_record v registry collection record_data true ≡ ok result
      → IsUnique result
  unfolding validate_record
  validate_record-IsUnique registry collection record_data h =
      let (schema, _, h1) = >>=-eq-ok (get_collection registry collection) _ h in
      let (validated, all, h2) =
        >>=-eq-ok (coerce_all v collection schema.fields [] record_data) _ h1 in
      rw (← ok-injective h2) (coerce_all-IsUnique collection schema.fields [] record_data tt all)
