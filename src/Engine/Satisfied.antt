-- ===== src/Engine/Satisfied.antt =====
-- What it is for a record to meet a filter of engine/data_engine.py, operator by operator.
use model_db.Prelude.{
  ◌≡◌, refl, ap, ◌↔◌, Bool, true, false, Option, none, some, List, [], ◌∷◌, arith, if◌then◌else◌,
  some_injective, All, ok, ◌>>=◌,
}
use model_db.Schema.{Values}
use model_db.Dict.{Dict}
use model_db.Engine.{
  Comparisons, FilterOperator, eq, ne, gt, lt, ge, le, is_in, not_in, between, like, is_null,
  is_not_null, Filter, Record,
}
use model_db.Engine.Filters.{
  value_of, compared, unless_none, lies_between, unpacked, matches_one, matches,
}
use model_db.Engine.Sorted.{passes}

module _ {v : Values} (w : Comparisons v) where
  -- `actual` stands to `expected` as the operator says; an order holds of no `None`
  abbrev pub Holds : v.Value → FilterOperator → v.Value → Type 0
  Holds actual eq expected = w.equal actual expected ≡ true
  Holds actual ne expected = w.equal actual expected ≡ false
  Holds actual gt expected = (v.is_none actual ≡ false) × (w.above actual expected ≡ some true)
  Holds actual lt expected = (v.is_none actual ≡ false) × (w.below actual expected ≡ some true)
  Holds actual ge expected = (v.is_none actual ≡ false) × (w.at_least actual expected ≡ some true)
  Holds actual le expected = (v.is_none actual ≡ false) × (w.at_most actual expected ≡ some true)
  Holds actual is_in expected = w.among actual expected ≡ some true
  Holds actual not_in expected = w.among actual expected ≡ some false
  Holds actual between expected =
      (low : v.Value) × (high : v.Value) × (w.unpack expected ≡ some (low, high))
      × (v.is_none actual ≡ false)
      × (w.at_most low actual ≡ some true)
      × (w.at_most actual high ≡ some true)
  Holds actual like expected = (v.is_none actual ≡ false) × (w.like actual expected ≡ true)
  Holds actual is_null expected = v.is_none actual ≡ true
  Holds actual is_not_null expected = v.is_none actual ≡ false

  -- the fields meet a filter, where a field that is not there reads `None`
  abbrev pub Meets : Dict v.Value → Filter v → Type 0
  Meets fields f = Holds (value_of w fields f.field) f.operator f.value

  compared_iff : (o : Option Bool) → (compared w o ≡ ok true) ↔ (o ≡ some true)
  compared_iff none = (λ h. absurd (cc), λ h. absurd (cc))
  compared_iff (some answer) = (λ h. cc, λ h. cc)

  -- a test of a value that is not `None`
  unless_none_iff :
      (actual : v.Value) (test : _)
      → (unless_none w actual test ≡ ok true) ↔ ((v.is_none actual ≡ false) × (test ≡ ok true))
  unless_none_iff actual test = ground arith

  ordered :
      (actual : v.Value) (o : Option Bool)
      → (unless_none w actual (compared w o) ≡ ok true)
        ↔ ((v.is_none actual ≡ false) × (o ≡ some true))
  ordered actual none = ground arith
  ordered actual (some answer) = ground arith

  both :
      (first second : Option Bool)
      → ((compared w first >>= λ above_low. if above_low then compared w second else ok false)
          ≡ ok true)
        ↔ ((first ≡ some true) × (second ≡ some true))
  both none second = ground arith
  both (some true) none = ground arith
  both (some true) (some answer) = ground arith
  both (some false) second = ground arith

  within :
      (actual : v.Value) (o : Option (v.Value × v.Value))
      → (unpacked w actual o ≡ ok true) ↔ (
          (low : v.Value) × (high : v.Value) × (o ≡ some (low, high))
          × (v.is_none actual ≡ false)
          × (w.at_most low actual ≡ some true)
          × (w.at_most actual high ≡ some true))
  within actual none = (λ h. absurd (cc), λ h. absurd (ground (arith, h.2)))
  within actual (some (low, high)) =
      let lies = lies_between w actual (low, high) in
      let (split, join) = both (w.at_most low actual) (w.at_most actual high) in
      (
        λ h.
            let (there, inside) = (unless_none_iff actual lies).0 h in
            let (above_low, below_high) = split inside in
            (low, high, refl, there, above_low, below_high),
        λ h.
            let same = some_injective h.2 in
            (unless_none_iff actual lies).1
              (h.3, join (rw (ap (λ q. q.0) same) h.4, rw (ap (λ q. q.1) same) h.5)),
      )

  matches_one_iff :
      (actual : v.Value) (operator : FilterOperator) (expected : v.Value)
      → (matches_one w actual operator expected ≡ ok true) ↔ Holds actual operator expected
  unfolding matches_one
  matches_one_iff actual eq expected = (λ h. cc, λ h. cc)
  matches_one_iff actual ne expected = ground arith
  matches_one_iff actual gt expected = ordered actual (w.above actual expected)
  matches_one_iff actual lt expected = ordered actual (w.below actual expected)
  matches_one_iff actual ge expected = ordered actual (w.at_least actual expected)
  matches_one_iff actual le expected = ordered actual (w.at_most actual expected)
  matches_one_iff actual is_in expected = compared_iff (w.among actual expected)
  matches_one_iff actual not_in expected = ground arith
  matches_one_iff actual between expected = within actual (w.unpack expected)
  matches_one_iff actual like expected = ground arith
  matches_one_iff actual is_null expected = (λ h. cc, λ h. cc)
  matches_one_iff actual is_not_null expected = ground arith

  -- a record passes the filters if and only if it meets each
  pub passes-Meets :
      (filters : List (Filter v)) (r : Record v)
      → (passes w filters r ≡ true) ↔ All (Meets r.fields) filters
  unfolding matches
  passes-Meets [] r = (λ _. tt, λ _. refl)
  passes-Meets (f ∷ filters) r = ground (
    arith,
    passes-Meets filters r,
    matches_one_iff (value_of w r.fields f.field) f.operator f.value,
  )
