-- ===== src/Events/Codec/Nested.antt =====
-- The operations of a change below one more key, and what they do to the object at that key.
use model_db.Prelude.{
  String, ◌≡◌, refl, sym, ap, ◌∙◌, inl, inr, Option, none, some, List, [], ◌∷◌, ◌++◌, map,
  Bool-cases, is_some, ok, ◌>>=◌, Result-cases, >>=-eq-ok, ok-injective, str_eq_refl,
}
use model_db.Events.Json.{
  Json, object, Fields, end, field, get, put, get-put, put-get_self, put-put,
}
use model_db.Events.Codec.{
  KeyPath, Op, set, unset, extend, same_json, replaced, removed, changed, changed_at, set_at,
  unset_at, apply_op, apply_ops,
}

-- the operation, below one more key
abbrev pub under : String → Op → Op
under k (set (key, path) value) = set (k, key ∷ path) value
under k (unset (key, path)) = unset (k, key ∷ path)

pub extend-under :
    (k : String) (path : List String) (key : String)
    → extend (k ∷ path) key ≡ (k, (extend path key).0 ∷ (extend path key).1)
extend-under k [] key = refl
extend-under k (j ∷ path) key = refl

pub map-append :
    {A B : Type 0} (f : A → B) (xs ys : List A) → map f (xs ++ ys) ≡ map f xs ++ map f ys
map-append f [] ys = refl
map-append f (x ∷ xs) ys = ap (λ t. f x ∷ t) (map-append f xs ys)

pub apply_ops-append :
    (state : Fields) (xs ys : List Op)
    → apply_ops state (xs ++ ys) ≡ (apply_ops state xs >>= λ s. apply_ops s ys)
unfolding apply_ops
apply_ops-append state [] ys = refl
apply_ops-append state (x ∷ xs) ys = elim (Result-cases (apply_op state x)) [
  | inl (s, h) ↦ rw h (apply_ops-append s xs ys)
  | inr (e, h) ↦ rw h refl
]

-- Operations below a key that holds an object act on that object.
pub apply_op-under :
    (node c c' : Fields) (k : String) (op : Op)
    → get node k ≡ some (object c)
    → apply_op c op ≡ ok c'
    → apply_op node (under k op) ≡ ok (put node k (object c'))
unfolding apply_op set_at unset_at
apply_op-under node c c' k (set (key, path) value) h h' = rw (h, h') refl
apply_op-under node c c' k (unset (key, path)) h h' = rw (h, h') refl

pub apply_ops-under :
    (node c c' : Fields) (k : String) (ops : List Op)
    → get node k ≡ some (object c)
    → apply_ops c ops ≡ ok c'
    → apply_ops node (map (under k) ops) ≡ ok (put node k (object c'))
unfolding apply_ops
apply_ops-under node c c' k [] h h' =
    ap ok (sym (put-get_self node k (object c') (h ∙ ap (λ d. some (object d)) (ok-injective h'))))
apply_ops-under node c c' k (op ∷ ops) h h' =
    let (c1, first, rest) = >>=-eq-ok (apply_op c op) _ h' in
    rw (apply_op-under node c c1 k op h first) (
      apply_ops-under (put node k (object c1)) c1 c' k ops
        (rw (get-put node k k (object c1), str_eq_refl k) refl) rest
      ∙ ap ok (put-put node k _ _))

pub removed-under :
    (old new : Fields) (k : String) (path : List String)
    → removed old new (k ∷ path) ≡ map (under k) (removed old new path)
unfolding removed
removed-under end new k path = refl
removed-under (field key v old) new k path = elim (Bool-cases (is_some (get new key))) [
  | inl there ↦ rw there (removed-under old new k path)
  | inr gone ↦ rw (gone, removed-under old new k path, extend-under k path key) refl
]

pub replaced-under :
    (dumps : Json → String) (v value : Json) (k : String) (at_path : KeyPath)
    → replaced dumps v value (k, at_path.0 ∷ at_path.1)
      ≡ map (under k) (replaced dumps v value at_path)
replaced-under dumps v value k at_path = elim (Bool-cases (same_json dumps v value)) [
  | inl same ↦ rw same refl
  | inr other ↦ rw other refl
]

-- The operations of a difference that starts one key deeper.
mutual
  unfolding changed

  pub changed-under :
      (dumps : Json → String) (old new : Fields) (k : String) (path : List String)
      → changed dumps old new (k ∷ path) ≡ map (under k) (changed dumps old new path)
  changed-under dumps old end k path = refl
  changed-under dumps old (field key value new) k path =
      rw (changed_at-under dumps (get old key) value k path key, changed-under dumps old new k path)
        (sym (map-append (under k) (changed_at dumps (get old key) value path key) _))

  pub changed_at-under :
      (dumps : Json → String) (old : Option Json) (value : Json) (k : String) (path : List String)
      (key : String)
      → changed_at dumps old value (k ∷ path) key
        ≡ map (under k) (changed_at dumps old value path key)
  changed_at-under dumps none value k path key = rw (extend-under k path key) refl
  changed_at-under dumps (some (object f)) (object g) k path key =
      rw (changed-under dumps f g k (path ++ (key ∷ [])), removed-under f g k (path ++ (key ∷ [])))
        (sym (map-append (under k) (changed dumps f g (path ++ (key ∷ []))) _))
  changed_at-under dumps (some v) value k path key =
      rw (extend-under k path key) (replaced-under dumps v value k (extend path key))
