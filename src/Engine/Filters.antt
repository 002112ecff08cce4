-- ===== src/Engine/Filters.antt =====
-- engine/data_engine.py: what a filter and a sort say of records.
use model_db.Prelude.{
  String, Bool, true, false, not, ◌&&◌, Option, none, some, List, [], ◌∷◌, ◌++◌, if◌then◌else◌,
  is_some, keep, all_of, Result, ok, err, ◌>>=◌, map_ok, sorted,
}
use model_db.Dict
use model_db.Dict.{Dict}
use model_db.Schema.{Values}
use model_db.Engine.{
  EngineError, type_error, Comparisons, FilterOperator, eq, ne, gt, lt, ge, le, is_in, not_in,
  between, like, is_null, is_not_null, asc, desc, Sort, Filter, Record, Direction,
}

module _ {v : Values} (w : Comparisons v) where
  -- `fields.get(name)`
  abbrev pub value_of : Dict v.Value → String → v.Value
  value_of fields name = elim (Dict.get fields name) [ none ↦ w.null | some value ↦ value ]

  -- a comparison that may raise TypeError
  abbrev pub compared : Option Bool → Result EngineError Bool
  compared none = err type_error
  compared (some answer) = ok answer

  -- `actual is not None and test`
  abbrev pub unless_none : v.Value → Result EngineError Bool → Result EngineError Bool
  unless_none actual test = if v.is_none actual then ok false else test

  -- `low <= actual <= high`, of which the second test is made if the first holds
  abbrev pub lies_between : v.Value → v.Value × v.Value → Result EngineError Bool
  lies_between actual (low, high) = compared (w.at_most low actual) >>= λ above_low.
      if above_low then compared (w.at_most actual high) else ok false

  abbrev pub unpacked : v.Value → Option (v.Value × v.Value) → Result EngineError Bool
  unpacked actual none = err type_error
  unpacked actual (some bounds) = unless_none actual (lies_between actual bounds)

  -- `_matches_one`
  unfoldable pub matches_one : v.Value → FilterOperator → v.Value → Result EngineError Bool
  matches_one actual eq expected = ok (w.equal actual expected)
  matches_one actual ne expected = ok (not (w.equal actual expected))
  matches_one actual gt expected = unless_none actual (compared (w.above actual expected))
  matches_one actual lt expected = unless_none actual (compared (w.below actual expected))
  matches_one actual ge expected = unless_none actual (compared (w.at_least actual expected))
  matches_one actual le expected = unless_none actual (compared (w.at_most actual expected))
  matches_one actual is_in expected = compared (w.among actual expected)
  matches_one actual not_in expected = map_ok not (compared (w.among actual expected))
  matches_one actual between expected = unpacked actual (w.unpack expected)
  matches_one actual like expected = unless_none actual (ok (w.like actual expected))
  matches_one actual is_null expected = ok (v.is_none actual)
  matches_one actual is_not_null expected = ok (not (v.is_none actual))

  -- `_matches`, which asks no further filter once one fails
  unfoldable pub matches : Dict v.Value → List (Filter v) → Result EngineError Bool
  matches fields [] = ok true
  matches fields (f ∷ filters) =
      let rest = matches fields filters in
      matches_one (value_of fields f.field) f.operator f.value >>= λ hit.
      if hit then rest else ok false

  -- `[record for record in records if _matches(record.fields, filters)]`
  unfoldable pub matching_of :
      List (Filter v) → List (Record v) → Result EngineError (List (Record v))
  matching_of filters [] = ok []
  matching_of filters (r ∷ records) = matches r.fields filters >>= λ hit.
      matching_of filters records >>= λ rest. ok (if hit then r ∷ rest else rest)

  abbrev pub lacks : Sort → Record v → Bool
  lacks s r = v.is_none (value_of r.fields s.field)

  abbrev pub is_true : Option Bool → Bool
  is_true none = false
  is_true (some answer) = answer

  -- one key comes before another in the direction of a sort
  abbrev pub in_direction : Direction → v.Value → v.Value → Bool
  in_direction asc a c = is_true (w.below a c)
  in_direction desc a c = is_true (w.below c a)

  abbrev pub key_of : Sort → Record v → v.Value
  key_of s r = value_of r.fields s.field

  abbrev pub comes_before : Sort → Record v → Record v → Bool
  comes_before s r t = in_direction s.direction (key_of s r) (key_of s t)

  -- every two keys can be compared; `list.sort` raises TypeError where it meets two that cannot
  abbrev pub compares_with : Sort → Record v → List (Record v) → Bool
  compares_with s r = all_of (λ t.
      is_some (w.below (key_of s r) (key_of s t))
      && is_some (w.below (value_of t.fields s.field) (value_of r.fields s.field)))

  unfoldable pub are_comparable : Sort → List (Record v) → Bool
  are_comparable s [] = true
  are_comparable s (r ∷ records) = compares_with s r records && are_comparable s records

  -- one round of `_sort`
  unfoldable pub sort_by : Sort → List (Record v) → Result EngineError (List (Record v))
  sort_by s records =
      let non_null = keep (λ r. not (lacks s r)) records in
      if are_comparable s non_null
      then ok (sorted (comes_before s) non_null ++ keep (lacks s) records)
      else err type_error

  -- `_sort`: the last key first
  unfoldable pub sort_all : List Sort → List (Record v) → Result EngineError (List (Record v))
  sort_all [] records = ok records
  sort_all (s ∷ sorts) records = sort_all sorts records >>= sort_by s
