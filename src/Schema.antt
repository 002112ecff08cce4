-- ===== src/Schema.antt =====
-- schema/registry.py: the collections with their fields, and the check of a record against them.
-- A Python value is of any type with the test for None, and the five built-in coercions are
-- arguments, `none` where they raise TypeError or ValueError.
pub mod Named
pub mod Validated
use model_db.Prelude.{
  String, Bool, false, not, ◌&&◌, Option, none, some, List, [], ◌∷◌, if◌then◌else◌, Result, ok, err,
  ◌>>=◌, ◌>>◌, str_eq,
}
use model_db.Dict
use model_db.Dict.{Dict, contains}

pub data SchemaError : Type 0 where
  collection_not_found : String → SchemaError
  -- the collection that the exception names, and the field
  schema_validation_error : String → String → SchemaError
  -- `info["datatype"]`
  missing_key : SchemaError

pub record FieldSchema : Type 0 where
  pub name : String
  pub datatype : String
  pub required : Bool

pub record CollectionSchema : Type 0 where
  pub name : String
  pub fields : Dict FieldSchema

abbrev pub SchemaRegistry : Type 0
SchemaRegistry = Dict CollectionSchema

-- `_COERCERS`
pub data Coercer : Type 0 where
  to_text to_float to_int to_bool to_datetime : Coercer

unfoldable pub coercers : String → Option Coercer
coercers datatype =
    if str_eq datatype "string"
    then some Coercer.to_text
    else (if str_eq datatype "decimal"
        then some Coercer.to_float
        else (if str_eq datatype "integer"
            then some Coercer.to_int
            else (if str_eq datatype "boolean"
                then some Coercer.to_bool
                else (if str_eq datatype "datetime" then some Coercer.to_datetime else none))))

pub record Values : Type 1 where
  pub Value : Type 0
  pub is_none : Value → Bool
  pub coerce_to : Coercer → Value → Option Value

unfoldable pub create_collection : SchemaRegistry → String → Dict FieldSchema → SchemaRegistry
create_collection registry name fields =
    Dict.put registry name (record { name = name; fields = fields })

unfoldable pub delete_collection : SchemaRegistry → String → SchemaRegistry
delete_collection registry name = Dict.remove registry name

unfoldable pub get_collection : SchemaRegistry → String → Result SchemaError CollectionSchema
get_collection registry name = elim (Dict.get registry name) [
  | none ↦ err (collection_not_found name)
  | some collection ↦ ok collection
]

abbrev pub has_collection : SchemaRegistry → String → Bool
has_collection registry name = contains registry name

-- the collection object that the registry holds is changed in place
unfoldable pub add_field : SchemaRegistry → String → FieldSchema → Result SchemaError SchemaRegistry
add_field registry collection field_schema = do
  schema ← get_collection registry collection
  ok (
      Dict.put registry collection
        (record schema { fields = Dict.put schema.fields field_schema.name field_schema }))

unfoldable pub remove_field : SchemaRegistry → String → String → Result SchemaError SchemaRegistry
remove_field registry collection field_name = do
  schema ← get_collection registry collection
  ok (
      Dict.put registry collection
        (record schema { fields = Dict.remove schema.fields field_name }))

-- the dicts of `to_dict` and `from_dict`, with the keys that may be missing
pub record FieldInfo : Type 0 where
  pub datatype : Option String
  pub required : Option Bool

pub record CollectionInfo : Type 0 where
  pub fields : Option (Dict FieldInfo)

unfoldable pub fields_to_dict : Dict FieldSchema → Dict FieldInfo
fields_to_dict [] = []
fields_to_dict ((field_name, f) ∷ fields) =
    (field_name, record { datatype = some f.datatype; required = some f.required })
    ∷ fields_to_dict fields

unfoldable pub to_dict : SchemaRegistry → Dict CollectionInfo
to_dict [] = []
to_dict ((name, collection) ∷ registry) =
    (name, record { fields = some (fields_to_dict collection.fields) }) ∷ to_dict registry

-- `FieldSchema(name=field_name, datatype=info["datatype"], required=info.get("required", False))`
unfoldable pub field_of : String → FieldInfo → Result SchemaError FieldSchema
field_of field_name info = elim info.datatype [
  | none ↦ err missing_key
  | some datatype ↦ ok (record {
    name = field_name;
    datatype = datatype;
    required = elim info.required [ none ↦ false | some required ↦ required ];
  })
]

-- the dict comprehension over `collection.get("fields", {}).items()`, with what was built before
unfoldable pub fields_from :
    Dict FieldSchema → Dict FieldInfo → Result SchemaError (Dict FieldSchema)
fields_from built [] = ok built
fields_from built ((field_name, info) ∷ infos) =
    field_of field_name info >>= λ f. fields_from (Dict.put built field_name f) infos

-- `collection.get("fields", {})`
abbrev pub fields_or_empty : CollectionInfo → Dict FieldInfo
fields_or_empty info = elim info.fields [ none ↦ [] | some fields ↦ fields ]

-- the loop of `from_dict`
unfoldable pub registry_from :
    SchemaRegistry → Dict CollectionInfo → Result SchemaError SchemaRegistry
registry_from registry [] = ok registry
registry_from registry ((name, collection) ∷ rest) =
    fields_from [] (fields_or_empty collection) >>= λ fields.
    registry_from (create_collection registry name fields) rest

unfoldable pub from_dict : Dict CollectionInfo → Result SchemaError SchemaRegistry
from_dict = registry_from []

module _ (v : Values) where
  -- `_coerce`
  unfoldable pub coerce : v.Value → FieldSchema → Result SchemaError v.Value
  coerce value field_schema =
      if v.is_none value then ok value else elim (coercers field_schema.datatype) [
        | none ↦ ok value
        | some coercer ↦ elim (v.coerce_to coercer value) [
          | none ↦ err (schema_validation_error "" field_schema.name)
          | some coerced ↦ ok coerced
        ]
      ]

  -- the loop of `validate_record` over the items of the record
  unfoldable pub coerce_all :
      String → Dict FieldSchema → Dict v.Value → Dict v.Value → Result SchemaError (Dict v.Value)
  coerce_all collection fields validated [] = ok validated
  coerce_all collection fields validated ((key, value) ∷ data_items) = elim (Dict.get fields key) [
    | none ↦ err (schema_validation_error collection key)
    | some field_schema ↦ coerce value field_schema >>= λ coerced.
        coerce_all collection fields (Dict.put validated key coerced) data_items
  ]

  -- `[f.name for f in schema.fields.values() if f.required and f.name not in validated]`
  unfoldable pub missing : Dict v.Value → Dict FieldSchema → List String
  missing validated [] = []
  missing validated ((_, f) ∷ fields) =
      let rest = missing validated fields in
      if f.required && not (contains validated f.name) then f.name ∷ rest else rest

  -- `if missing: raise ...`
  abbrev pub complain : String → List String → Dict v.Value → Result SchemaError (Dict v.Value)
  complain collection [] validated = ok validated
  complain collection (name ∷ names) validated = err (schema_validation_error collection name)

  unfoldable pub validate_record :
      SchemaRegistry → String → Dict v.Value → Bool → Result SchemaError (Dict v.Value)
  validate_record registry collection record_data partial = do
    schema ← get_collection registry collection
    validated ← coerce_all collection schema.fields [] record_data
    (if not partial
        then complain collection (missing validated schema.fields) validated
        else ok validated)
