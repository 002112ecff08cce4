-- ===== src/Events/Codec/Valid.antt =====
-- The operations of a difference pass the codec's own checks.
use model_db.Prelude.{
  ℕ, zero, suc, ◌+◌, ◌≤◌, String, ◌≡◌, refl, inl, inr, false, Option, none, some, List, [], ◌∷◌,
  ◌++◌, arith, Bool-cases, is_some, length, All, length-append, ok, str_eq,
}
use model_db.Events.Json.{Json, array, object, Fields, end, field, get}
use model_db.Events.Codec.{
  KeyPath, Op, set, unset, extend, same_json, replaced, removed, changed, changed_at, diff, strings,
  path_json, op_json, ops_json, keys_of, path_of, check_op, check_ops, validate, apply,
}
use model_db.Events.Codec.RoundTrip.{diff-Rebuilds}
use model_db.Events.Codec.Same.{AreUnique, IsTelling, Same}

abbrev AreKeys : List String → Type 0
AreKeys = All (λ k. str_eq k "" ≡ false)

-- no key is empty, and the path is not too deep
abbrev IsValidPath : KeyPath → Type 0
IsValidPath (k, ks) = AreKeys (k ∷ ks) × (length (k ∷ ks) ≤ 32)

abbrev IsValid : Op → Type 0
IsValid (set path _) = IsValidPath path
IsValid (unset path) = IsValidPath path

keys_of-strings : (ks : List String) → AreKeys ks → keys_of (strings ks) ≡ some ks
unfolding keys_of
keys_of-strings [] h = refl
keys_of-strings (k ∷ ks) (h, hs) = rw (h, keys_of-strings ks hs) refl

path_of-path_json : (path : KeyPath) → IsValidPath path → path_of (some (path_json path)) ≡ ok path
path_of-path_json (k, ks) (h, short) = rw (keys_of-strings (k ∷ ks) h, path_of) (ground arith)

check_op-op_json : (op : Op) → IsValid op → check_op (op_json op) ≡ ok op
unfolding check_op op_json get
check_op-op_json (set path value) h = rw (path_of-path_json path h) refl
check_op-op_json (unset path) h = rw (path_of-path_json path h) refl

validate-ops_json : (ops : List Op) → All IsValid ops → validate (array (ops_json ops)) ≡ ok ops
unfolding validate check_ops
validate-ops_json [] h = refl
validate-ops_json (op ∷ ops) (h, hs) = rw (check_op-op_json op h, validate-ops_json ops hs) refl

-- Objects that lie at most `n` deep below the keys, none of which is empty.
unfoldable mutual
  pub Fits : ℕ → Json → Type 0
  Fits n (object d) = AllFit n d
  Fits n _ = Unit

  pub AllFit : ℕ → Fields → Type 0
  AllFit n end = Unit
  AllFit zero (field k v d) = ⊥
  AllFit (suc n) (field k v d) = (str_eq k "" ≡ false) × Fits n v × AllFit (suc n) d

All-append : (xs ys : List Op) → All IsValid xs → All IsValid ys → All IsValid (xs ++ ys)
All-append [] ys _ h = h
All-append (x ∷ xs) ys (h, hs) h' = (h, All-append xs ys hs h')

AreKeys-append :
    (path : List String) (key : String)
    → AreKeys path
    → str_eq key "" ≡ false
    → AreKeys (path ++ (key ∷ []))
AreKeys-append [] key _ h = (h, tt)
AreKeys-append (k ∷ path) key (h, hs) h' = (h, AreKeys-append path key hs h')

extend-IsValidPath :
    (path : List String) (key : String) (n : ℕ)
    → AreKeys path
    → length path + suc n ≤ 32
    → str_eq key "" ≡ false
    → IsValidPath (extend path key)
extend-IsValidPath [] key n _ short h = ((h, tt), omega arith)
extend-IsValidPath (k ∷ path) key n (h, hs) short h' =
    ((h, AreKeys-append path key hs h'), omega (arith, length-append path (key ∷ [])))

removed-IsValid :
    (n : ℕ) (old new : Fields) (path : List String)
    → AreKeys path
    → length path + n ≤ 32
    → AllFit n old
    → All IsValid (removed old new path)
unfolding removed AllFit
removed-IsValid n end new path h short f = tt
removed-IsValid zero (field key v old) new path h short f = absurd f
removed-IsValid (suc n) (field key v old) new path h short (f, _, fs) =
    elim (Bool-cases (is_some (get new key))) [
      | inl there ↦ rw there (removed-IsValid (suc n) old new path h short fs)
      | inr gone ↦
          rw gone (
            extend-IsValidPath path key n h short f,
            removed-IsValid (suc n) old new path h short fs,
          )
    ]

get-Fits :
    (n : ℕ) (d : Fields) (key : String) (v : Json)
    → AllFit (suc n) d
    → get d key ≡ some v
    → Fits n v
unfolding get AllFit
get-Fits n end key v f e = absurd (cc)
get-Fits n (field k w d) key v (_, f, fs) e = elim (Bool-cases (str_eq k key)) [
  | inl same ↦ let e' : w ≡ v = ground arith in rw (← e') f
  | inr other ↦ let e' : get d key ≡ some v = ground arith in get-Fits n d key v fs e'
]

module _ (dumps : Json → String) where
  replaced-IsValid :
      (v value : Json) (path : KeyPath)
      → IsValidPath path
      → All IsValid (replaced dumps v value path)
  replaced-IsValid v value path h = elim (Bool-cases (same_json dumps v value)) [
    | inl same ↦ rw same tt
    | inr other ↦ rw other (h, tt)
  ]

  mutual
    unfolding changed AllFit

    changed-IsValid :
        (n : ℕ) (old new : Fields) (path : List String)
        → AreKeys path
        → length path + n ≤ 32
        → AllFit n old
        → AllFit n new
        → All IsValid (changed dumps old new path)
    changed-IsValid n old end path h short f g = tt
    changed-IsValid zero old (field key value new) path h short f g = absurd g
    changed-IsValid (suc n) old (field key value new) path h short f (g, gv, gs) =
        All-append (changed_at dumps (get old key) value path key) (changed dumps old new path)
          (changed_at-IsValid n (get old key) value path key h short g
            (λ v e. get-Fits n old key v f e) gv)
          (changed-IsValid (suc n) old new path h short f gs)

    changed_at-IsValid :
        (n : ℕ) (old : Option Json) (value : Json) (path : List String) (key : String)
        → AreKeys path
        → length path + suc n ≤ 32
        → str_eq key "" ≡ false
        → ((v : Json) → old ≡ some v → Fits n v)
        → Fits n value
        → All IsValid (changed_at dumps old value path key)
    changed_at-IsValid n none value path key h short e f g =
        (extend-IsValidPath path key n h short e, tt)
    changed_at-IsValid n (some (object a)) (object b) path key h short e f g =
        let keys = AreKeys-append path key h e in
        let short' : length (path ++ (key ∷ [])) + n ≤ 32 =
          omega (arith, length-append path (key ∷ [])) in
        All-append (changed dumps a b (path ++ (key ∷ []))) (removed a b (path ++ (key ∷ [])))
          (changed-IsValid n a b (path ++ (key ∷ [])) keys short' (f (object a) refl) g)
          (removed-IsValid n a b (path ++ (key ∷ [])) keys short' (f (object a) refl))
    changed_at-IsValid n (some v) value path key h short e f g =
        replaced-IsValid v value (extend path key) (extend-IsValidPath path key n h short e)

  -- The payload that `diff` writes for two objects whose keys are not empty and lie at most 32
  -- deep, no key of the new one twice, is accepted by `apply`, which gives an object that holds at
  -- every path what the new one holds. The JSON text of an object is taken to be that of no other
  -- value.
  pub apply-diff :
      IsTelling dumps
      → (old new : Fields) → AllFit 32 old
      → AllFit 32 new
      → AreUnique new
      → (s : Fields) × (apply old (array (ops_json (diff dumps old new))) ≡ ok s)
        × Same dumps (some (object s)) (some (object new))
  unfolding apply diff
  apply-diff x old new f g u =
      let valid =
        All-append (changed dumps old new []) (removed old new [])
          (changed-IsValid 32 old new [] tt (omega arith) f g)
          (removed-IsValid 32 old new [] tt (omega arith) f) in
      rw (validate-ops_json (changed dumps old new [] ++ removed old new []) valid)
        (diff-Rebuilds dumps x old new u)
