-- ===== src/Examples/Schema.antt =====
-- A collection of people, and a record of it.
use model_db.Prelude.{ℕ, String, ◌≡◌, refl, true, false, some, [], ◌∷◌, ◌==◌, All, ok}
use model_db.Dict
use model_db.Dict.{Dict, contains}
use model_db.Schema.{
  CollectionSchema, SchemaRegistry, Values, get_collection, to_dict, from_dict, validate_record,
  coerce, coerce_all, missing, coercers,
}
use model_db.Schema.Named.{IsNamed, from_dict-to_dict}
use model_db.Schema.Validated.{validate_record_sound}

abbrev pub people : SchemaRegistry
people =
    (
      "people",
      record {
        name = "people";
        fields =
            ("name", record { name = "name"; datatype = "string"; required = true })
            ∷ ("age", record { name = "age"; datatype = "integer"; required = false })
            ∷ [];
      },
    )
    ∷ []

people-IsNamed : IsNamed people
unfolding Dict.get
people-IsNamed = ((refl, tt), ((refl, (((refl, (refl, tt))), (refl, (refl, tt)))), tt))

from_dict-to_dict_example : from_dict (to_dict people) ≡ ok people
from_dict-to_dict_example = from_dict-to_dict people people-IsNamed

-- values are numbers, and 0 is None
abbrev pub numbers : Values
numbers = record { Value = ℕ; is_none = λ n. n == 0; coerce_to = λ c n. some n }

abbrev ada : Dict ℕ
ada = ("name", 5) ∷ []

ada_accepted : validate_record numbers people "people" ada false ≡ ok ada
unfolding validate_record coerce coerce_all missing coercers get_collection Dict.get Dict.put
ada_accepted = refl

validate_record_sound_example :
    (schema : CollectionSchema) × (get_collection people "people" ≡ ok schema)
    × ((k : String) → contains ada k ≡ contains ada k)
    × ((k : String) → contains ada k ≡ true → contains schema.fields k ≡ true)
    × (false ≡ false → All (λ e. e.1.required ≡ true → contains ada e.1.name ≡ true) schema.fields)
validate_record_sound_example =
    validate_record_sound numbers people "people" ada false ada ada_accepted
