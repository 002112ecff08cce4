-- ===== src/Location.antt =====
-- The block ids of the package: an object's data lies at "TYPE:id", the archive's blocks at
-- "dna:id" and the entries of the index at "__index__:id". No two of them meet.
use model_db.Prelude.{
  ℕ, ◌<◌, String, ◌≡◌, refl, sym, ap, ◌∙◌, ◌≢◌, List, [], ◌∷◌, arith, ◌==◌, if◌then◌else◌, ◌+ˢ◌,
  codes, codes-append, codes_injective, ◌+ᶜ◌,
}
use model_db.Vocabulary.{DataType, type_value}

-- `f"{obj.object_type.value}:{obj.object_id}"`
abbrev pub location_of : DataType → String → String
location_of object_type object_id = type_value object_type +ˢ (":" +ˢ object_id)

-- what follows the first colon
abbrev after_colon : List ℕ → List ℕ
after_colon [] = []
after_colon (n ∷ cs) = let rest = after_colon cs in if n == 58 then cs else rest

abbrev first_code : List ℕ → ℕ
first_code [] = 0
first_code (n ∷ cs) = n

codes-location_of :
    (t : DataType) (i : String) → codes (location_of t i) ≡ codes (type_value t) +ᶜ (58 ∷ codes i)
codes-location_of t i =
    codes-append (type_value t) (":" +ˢ i)
    ∙ ap (λ cs. codes (type_value t) +ᶜ cs) (codes-append ":" i)

after_colon-type_value :
    (t : DataType) (cs : List ℕ) → after_colon (codes (type_value t) +ᶜ (58 ∷ cs)) ≡ cs
unfolding type_value
after_colon-type_value DataType.database_record cs = refl
after_colon-type_value DataType.tabular cs = refl
after_colon-type_value DataType.ai_model cs = refl
after_colon-type_value DataType.tensor_data cs = refl
after_colon-type_value DataType.image cs = refl
after_colon-type_value DataType.video cs = refl
after_colon-type_value DataType.audio cs = refl
after_colon-type_value DataType.document cs = refl
after_colon-type_value DataType.text_data cs = refl
after_colon-type_value DataType.log cs = refl
after_colon-type_value DataType.time_series cs = refl
after_colon-type_value DataType.binary cs = refl
after_colon-type_value DataType.archive_data cs = refl
after_colon-type_value DataType.unknown cs = refl

first_code-type_value : (t : DataType) (cs : List ℕ) → first_code (codes (type_value t) +ᶜ cs) < 90
unfolding type_value
first_code-type_value DataType.database_record cs = omega arith
first_code-type_value DataType.tabular cs = omega arith
first_code-type_value DataType.ai_model cs = omega arith
first_code-type_value DataType.tensor_data cs = omega arith
first_code-type_value DataType.image cs = omega arith
first_code-type_value DataType.video cs = omega arith
first_code-type_value DataType.audio cs = omega arith
first_code-type_value DataType.document cs = omega arith
first_code-type_value DataType.text_data cs = omega arith
first_code-type_value DataType.log cs = omega arith
first_code-type_value DataType.time_series cs = omega arith
first_code-type_value DataType.binary cs = omega arith
first_code-type_value DataType.archive_data cs = omega arith
first_code-type_value DataType.unknown cs = omega arith

-- The location of an object determines its id.
pub location_of-injective :
    (t u : DataType) (i j : String) → location_of t i ≡ location_of u j → i ≡ j
location_of-injective t u i j h =
    let same : codes (type_value t) +ᶜ (58 ∷ codes i) ≡ codes (type_value u) +ᶜ (58 ∷ codes j) =
      sym (codes-location_of t i) ∙ ap codes h ∙ codes-location_of u j in
    codes_injective i j (
      sym (after_colon-type_value t (codes i))
      ∙ ap after_colon same
      ∙ after_colon-type_value u (codes j))

-- no id of the other two kinds is the location of an object
pub first_code-location_of : (t : DataType) (i : String) → first_code (codes (location_of t i)) < 90
first_code-location_of t i = rw (codes-location_of t i) (first_code-type_value t (58 ∷ codes i))

module _ (t : DataType) (i j : String) where
  pub location-ne-index : location_of t i ≢ ("__index__:" +ˢ j)
  location-ne-index h =
      let here : first_code (codes (location_of t i)) ≡ 95 =
        ap (λ s. first_code (codes s)) h ∙ ap first_code (codes-append "__index__:" j) in
      absurd (omega (arith, first_code-location_of t i))

  pub location-ne-archive : location_of t i ≢ ("dna:" +ˢ j)
  location-ne-archive h =
      let here : first_code (codes (location_of t i)) ≡ 100 =
        ap (λ s. first_code (codes s)) h ∙ ap first_code (codes-append "dna:" j) in
      absurd (omega (arith, first_code-location_of t i))

pub archive-ne-index : (i j : String) → ("dna:" +ˢ i) ≢ ("__index__:" +ˢ j)
archive-ne-index i j h =
    let here : ◌≡◌ {A = ℕ} 100 95 =
      sym (ap first_code (codes-append "dna:" i))
      ∙ ap (λ s. first_code (codes s)) h
      ∙ ap first_code (codes-append "__index__:" j) in
    absurd (omega arith)
