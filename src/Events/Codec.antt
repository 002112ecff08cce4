-- ===== src/Events/Codec.antt =====
-- `PathOpsCodec` of events/codec.py: a change of an object as a list of operations at paths.
-- `dumps` is json.dumps(value, sort_keys=True).
pub mod Same
pub mod Nested
pub mod RoundTrip
pub mod Valid
use model_db.Prelude.{
  ℕ, String, Bool, Option, none, some, List, [], ◌∷◌, ◌++◌, ltb, if◌then◌else◌, is_some, length,
  Result, ok, err, ◌>>=◌, str_eq,
}
use model_db.Events.Json.{
  Json, null, string, array, object, Items, nil, item, Fields, end, field, get, put, remove,
}
use model_db.Events.Errors.{EventError, invalid_event}

abbrev pub max_path_depth : ℕ
max_path_depth = 32

-- a path that is not empty: its first key and the others
abbrev pub KeyPath : Type 0
KeyPath = String × List String

-- an operation, once it is checked
pub data Op : Type 0 where
  set : KeyPath → Json → Op
  unset : KeyPath → Op

-- `[*path, key]`
abbrev pub extend : List String → String → KeyPath
extend [] key = (key, [])
extend (k ∷ path) key = (k, path ++ (key ∷ []))

-- the second loop of `_diff`
unfoldable pub removed : Fields → Fields → List String → List Op
removed end new path = []
removed (field key _ old) new path =
    let rest = removed old new path in
    if is_some (get new key) then rest else unset (extend path key) ∷ rest

module _ (dumps : Json → String) where
  abbrev pub same_json : Json → Json → Bool
  same_json a b = str_eq (dumps a) (dumps b)

  abbrev pub replaced : Json → Json → KeyPath → List Op
  replaced v value path = if same_json v value then [] else set path value ∷ []

  -- the first loop of `_diff`, and its branches at one key
  unfoldable mutual
    pub changed : Fields → Fields → List String → List Op
    changed old end path = []
    changed old (field key value new) path =
        changed_at (get old key) value path key ++ changed old new path

    pub changed_at : Option Json → Json → List String → String → List Op
    changed_at none value path key = set (extend path key) value ∷ []
    changed_at (some (object f)) (object g) path key =
        changed f g (path ++ (key ∷ [])) ++ removed f g (path ++ (key ∷ []))
    changed_at (some v) value path key = replaced v value (extend path key)

  -- `_diff` from a path on
  abbrev pub diff_at : Fields → Fields → List String → List Op
  diff_at old new path = changed old new path ++ removed old new path

  unfoldable pub diff : Fields → Fields → List Op
  diff old new = diff_at old new []

-- the JSON of an operation, as `_diff` builds it
abbrev pub strings : List String → Items
strings [] = nil
strings (s ∷ ss) = item (string s) (strings ss)

abbrev pub path_json : KeyPath → Json
path_json (k, ks) = array (strings (k ∷ ks))

unfoldable pub op_json : Op → Json
op_json (set path value) =
    object (field "op" (string "set") (field "path" (path_json path) (field "value" value end)))
op_json (unset path) = object (field "op" (string "unset") (field "path" (path_json path) end))

abbrev pub ops_json : List Op → Items
ops_json [] = nil
ops_json (op ∷ ops) = item (op_json op) (ops_json ops)

abbrev pub prepend : String → Option (List String) → Option (List String)
prepend s none = none
prepend s (some ss) = some (s ∷ ss)

-- `all(isinstance(p, str) and p for p in path)`, with the texts
unfoldable pub keys_of : Items → Option (List String)
keys_of nil = some []
keys_of (item (string s) rest) =
    let others = keys_of rest in if str_eq s "" then none else prepend s others
keys_of (item _ rest) = none

abbrev pub non_empty : List String → Result EventError KeyPath
non_empty [] = err invalid_event
non_empty (k ∷ ks) = if ltb max_path_depth (length (k ∷ ks)) then err invalid_event else ok (k, ks)

-- the checks of `path`
abbrev pub path_of : Option Json → Result EventError KeyPath
path_of (some (array keys)) = elim (keys_of keys) [
  | none ↦ err invalid_event
  | some ks ↦ non_empty ks
]
path_of _ = err invalid_event

abbrev pub with_value : Option Json → KeyPath → Result EventError Op
with_value none path = err invalid_event
with_value (some value) path = ok (set path value)

abbrev pub op_of : Option Json → Fields → Result EventError Op
op_of (some (string kind)) op =
    if str_eq kind "set"
    then path_of (get op "path") >>= with_value (get op "value")
    else (if str_eq kind "unset"
        then path_of (get op "path") >>= (λ path. ok (unset path))
        else err invalid_event)
op_of _ op = err invalid_event

-- one round of the loop of `validate`, with the operation that it lets through
unfoldable pub check_op : Json → Result EventError Op
check_op (object op) = op_of (get op "op") op
check_op _ = err invalid_event

unfoldable pub check_ops : Items → Result EventError (List Op)
check_ops nil = ok []
check_ops (item op ops) = check_op op >>= λ first. check_ops ops >>= λ rest. ok (first ∷ rest)

unfoldable pub validate : Json → Result EventError (List Op)
validate (array ops) = check_ops ops
validate _ = err invalid_event

-- `child is None`: a key that is missing, or null
abbrev pub child : Option Json → Result EventError (Option Fields)
child none = ok none
child (some null) = ok none
child (some (object d)) = ok (some d)
child (some _) = err invalid_event

-- a "set" in the object `node`, at the key `key` or below it
unfoldable pub set_at : Fields → String → List String → Json → Result EventError Fields
set_at node key [] value = ok (put node key value)
set_at node key (k ∷ path) value = child (get node key) >>= λ c.
    set_at (elim c [ none ↦ end | some d ↦ d ]) k path value >>= λ c'. ok (put node key (object c'))

-- an "unset", which stops where there is nothing
unfoldable pub unset_at : Fields → String → List String → Result EventError Fields
unset_at node key [] = ok (remove node key)
unset_at node key (k ∷ path) = child (get node key) >>= λ c. elim c [
  | none ↦ ok node
  | some d ↦ unset_at d k path >>= λ c'. ok (put node key (object c'))
]

unfoldable pub apply_op : Fields → Op → Result EventError Fields
apply_op state (set (key, path) value) = set_at state key path value
apply_op state (unset (key, path)) = unset_at state key path

unfoldable pub apply_ops : Fields → List Op → Result EventError Fields
apply_ops state [] = ok state
apply_ops state (op ∷ ops) = apply_op state op >>= λ next. apply_ops next ops

unfoldable pub apply : Fields → Json → Result EventError Fields
apply state payload = validate payload >>= apply_ops state
