-- ===== src/Events/Codec/RoundTrip.antt =====
-- A difference, applied to the old state, gives the new one.
use model_db.Prelude.{
  String, ◌≡◌, refl, sym, ap, ◌∙◌, inl, inr, false, not, ◌&&◌, Option, none, some, List, [], ◌∷◌,
  ◌++◌, arith, if◌then◌else◌, Bool-cases, Option-cases, is_some, ok, str_eq, str_eq_iff,
  str_eq_refl,
}
use model_db.Events.Json.{
  Json, object, Fields, end, field, get, put, remove, get-put, get-remove, look,
}
use model_db.Events.Codec.{
  Op, set, same_json, replaced, removed, changed, changed_at, diff_at, diff, set_at, unset_at,
  apply_op, apply_ops,
}
use model_db.Events.Codec.Nested.{
  under, map-append, apply_ops-append, apply_ops-under, removed-under, changed-under,
}
use model_db.Events.Codec.Same.{IsUnique, AreUnique, is_object, IsTelling, Same, text-Same}

removed-applies :
    (s old new : Fields)
    → (s' : Fields) × (apply_ops s (removed old new []) ≡ ok s')
      × ((j : String)
          → get s' j ≡ (if is_some (get old j) && not (is_some (get new j)) then none else get s j))
unfolding removed apply_ops apply_op unset_at get
removed-applies s end new = (s, refl, λ j. refl)
removed-applies s (field key v old) new = elim (Bool-cases (is_some (get new key))) [
  | inl there ↦
      let (s', h, at_key) = removed-applies s old new in
      (s', rw there h, λ j. ground (arith, at_key j, str_eq_iff key j))
  | inr gone ↦
      let (s', h, at_key) = removed-applies (remove s key) old new in
      (s', rw gone h, λ j. ground (arith, at_key j, str_eq_iff key j, get-remove s key j))
]

module _ (dumps : Json → String) where
  -- the operations `ops` lead from `s` to an object that holds at `key` what `value` is, and at
  -- every other key what was there
  abbrev Writes : Fields → List Op → String → Json → Type 0
  Writes s ops key value =
      (s' : Fields) × (apply_ops s ops ≡ ok s')
      × Same dumps (get s' key) (some value)
      × ((j : String) → str_eq key j ≡ false → get s' j ≡ get s j)

  -- the operations `ops` lead from `s` to an object that holds what `new` has, and else what was
  -- there
  abbrev Updates : Fields → List Op → Fields → Type 0
  Updates s ops new =
      (s' : Fields) × (apply_ops s ops ≡ ok s')
      × ((j : String) (v : Json) → get new j ≡ some v → Same dumps (get s' j) (some v))
      × ((j : String) → get new j ≡ none → get s' j ≡ get s j)

  abbrev Rebuilds : Fields → List Op → Fields → Type 0
  Rebuilds s ops new =
      (s' : Fields) × (apply_ops s ops ≡ ok s') × Same dumps (some (object s')) (some (object new))

  set-Writes :
      (s : Fields) (key : String) (value : Json) → Writes s (set (key, []) value ∷ []) key value
  unfolding apply_ops apply_op set_at
  set-Writes s key value = (
    put s key value,
    refl,
    λ path. rw (get-put s key key value, str_eq_refl key) refl,
    λ j h. rw (get-put s key j value, h) refl,
  )

  telling-Same :
      IsTelling dumps
      → (v w : Json) → dumps v ≡ dumps w
      → (is_object v && is_object w) ≡ false
      → Same dumps (some v) (some w)
  telling-Same x (object d) (object e) h both = absurd (cc)
  telling-Same x (object d) w h both = absurd (x.object_text d w both h)
  telling-Same x v (object e) h both = absurd (x.object_text e v refl (sym h))
  telling-Same x v w h both = text-Same dumps v w refl refl h

  replaced-Writes :
      IsTelling dumps
      → (s : Fields) (key : String) (v value : Json) → get s key ≡ some v
      → (is_object v && is_object value) ≡ false
      → Writes s (replaced dumps v value (key, [])) key value
  unfolding apply_ops
  replaced-Writes x s key v value h either = elim (Bool-cases (same_json dumps v value)) [
    | inl same ↦ rw same (
      s,
      refl,
      λ path.
          rw h (telling-Same x v value ((str_eq_iff (dumps v) (dumps value)).0 same) either path),
      λ j _. refl,
    )
    | inr other ↦ rw other (set-Writes s key value)
  ]

  Same-everywhere :
      (f s1 s2 g : Fields)
      → ((j : String)
          → get s2 j ≡ (if is_some (get f j) && not (is_some (get g j)) then none else get s1 j))
      → ((j : String) (v : Json) → get g j ≡ some v → Same dumps (get s1 j) (some v))
      → ((j : String) → get g j ≡ none → get s1 j ≡ get f j)
      → Same dumps (some (object s2)) (some (object g))
  Same-everywhere f s1 s2 g at_key has keeps [] = refl
  Same-everywhere f s1 s2 g at_key has keeps (k ∷ path) = elim (Option-cases (get g k)) [
    | inl gone ↦
        let e : get s2 k ≡ none = ground (arith, at_key k, keeps k gone) in
        ap (look dumps path) (e ∙ sym gone)
    | inr (v, there) ↦
        let e : get s2 k ≡ get s1 k = ground (arith, at_key k) in rw (e, there) (has k v there path)
  ]

  -- what both loops of `_diff` do together
  diff_at-Rebuilds :
      (f g : Fields) → Updates f (changed dumps f g []) g → Rebuilds f (diff_at dumps f g []) g
  diff_at-Rebuilds f g (s1, h1, has, keeps) =
      let (s2, h2, at_key) = removed-applies s1 f g in
      (
        s2,
        rw (apply_ops-append f (changed dumps f g []) (removed f g []), h1) h2,
        Same-everywhere f s1 s2 g at_key has keeps,
      )

  -- a difference of two objects that lies below a key
  nested-Writes :
      (s f g : Fields) (key : String)
      → get s key ≡ some (object f)
      → Rebuilds f (diff_at dumps f g []) g
      → Writes s (diff_at dumps f g (key ∷ [])) key (object g)
  nested-Writes s f g key h (c, h1, same) = (
    put s key (object c),
    rw
        (
          changed-under dumps f g key [],
          removed-under f g key [],
          ← map-append (under key) (changed dumps f g []) (removed f g []),
        )
        (apply_ops-under s f c key (diff_at dumps f g []) h h1),
    λ path. rw (get-put s key key (object c), str_eq_refl key) (same path),
    λ j e. rw (get-put s key j (object c), e) refl,
  )

  -- one key, and then the others
  Writes-Updates :
      (s old new : Fields) (key : String) (value : Json) (ops rest : List Op)
      → get new key ≡ none
      → (first : Writes s ops key value) → Updates first.0 rest new
      → Updates s (ops ++ rest) (field key value new)
  unfolding get
  Writes-Updates s old new key value ops rest unique (s1, h1, at_key, others) (s2, h2, has, keeps) =
      (
        s2,
        rw (apply_ops-append s ops rest, h1) h2,
        λ j v e path. elim (Bool-cases (str_eq key j)) [
          | inl same ↦
              let k_eq : key ≡ j = (str_eq_iff key j).0 same in
              let v_eq : value ≡ v = ground arith in
              rw (← k_eq, ← v_eq, keeps key unique) (at_key path)
          | inr other ↦ let e' : get new j ≡ some v = ground arith in has j v e' path
        ],
        λ j e. elim (Bool-cases (str_eq key j)) [
          | inl same ↦ absurd (ground arith)
          | inr other ↦ let e' : get new j ≡ none = ground arith in keeps j e' ∙ others j other
        ],
      )

module _ (dumps : Json → String) (x : IsTelling dumps) where
  mutual
    unfolding changed get IsUnique apply_ops

    changed-Updates :
        (s old new : Fields)
        → AreUnique new
        → ((j : String) (v : Json) → get new j ≡ some v → get s j ≡ get old j)
        → Updates dumps s (changed dumps old new []) new
    changed-Updates s old end u h = (s, refl, λ j v e. absurd (cc), λ j e. refl)
    changed-Updates s old (field key value new) (unique, u1, u2) h =
        let first : Writes dumps s (changed_at dumps (get old key) value [] key) key value =
          changed_at-Writes s (get old key) key value u1
            (h key value (rw (str_eq_refl key) refl)) in
        Writes-Updates dumps s old new key value _ (changed dumps old new []) unique first (
          changed-Updates first.0 old new u2 (λ j v e. elim (Bool-cases (str_eq key j)) [
            | inl same ↦ let k_eq : key ≡ j = (str_eq_iff key j).0 same in absurd (cc)
            | inr other ↦ first.3 j other ∙ h j v (rw other e)
          ]))

    changed_at-Writes :
        (s : Fields) (old : Option Json) (key : String) (value : Json)
        → IsUnique value
        → get s key ≡ old
        → Writes dumps s (changed_at dumps old value [] key) key value
    changed_at-Writes s none key value u h = set-Writes dumps s key value
    changed_at-Writes s (some (object f)) key (object g) u h =
        nested-Writes dumps s f g key h
          (diff_at-Rebuilds dumps f g (changed-Updates f f g u (λ j v _. refl)))
    changed_at-Writes s (some v) key value u h = replaced-Writes dumps x s key v value h refl

  -- Applying a difference succeeds, and at every path the result holds what the new object holds.
  pub diff-Rebuilds :
      (old new : Fields)
      → AreUnique new
      → (s : Fields) × (apply_ops old (diff dumps old new) ≡ ok s)
        × Same dumps (some (object s)) (some (object new))
  unfolding diff
  diff-Rebuilds old new u =
      diff_at-Rebuilds dumps old new (changed-Updates old old new u (λ j v _. refl))
