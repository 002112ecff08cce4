-- ===== src/Events/Json.antt =====
-- JSON values as Python holds them: an object is a dict with text keys in insertion order. A number
-- is the text that json.dumps writes for it, so that 1 and 1.0 differ.
use model_db.Prelude.{
  String, ◌≡◌, refl, inl, inr, Bool, Option, none, some, List, [], ◌∷◌, arith, if◌then◌else◌,
  Bool-cases, str_eq, str_eq_iff, str_eq_refl,
}

mutual
  pub data Json : Type 0 where
    null : Json
    boolean : Bool → Json
    number : String → Json
    string : String → Json
    array : Items → Json
    object : Fields → Json

  pub data Items : Type 0 where
    nil : Items
    item : Json → Items → Items

  pub data Fields : Type 0 where
    end : Fields
    field : String → Json → Fields → Fields

-- `d.get(k)`, where a missing key is told from a null
unfoldable pub get : Fields → String → Option Json
get end k = none
get (field j v d) k = if str_eq j k then some v else get d k

-- `d[k] = v`
unfoldable pub put : Fields → String → Json → Fields
put end k v = field k v end
put (field j w d) k v = if str_eq j k then field j v d else field j w (put d k v)

-- `d.pop(k, None)`
unfoldable pub remove : Fields → String → Fields
remove end k = end
remove (field j w d) k = let rest = remove d k in if str_eq j k then rest else field j w rest

pub get-put :
    (d : Fields) (k j : String) (v : Json)
    → get (put d k v) j ≡ (if str_eq k j then some v else get d j)
unfolding get put
get-put end k j v = refl
get-put (field i w d) k j v =
    ground (arith, str_eq_iff k j, str_eq_iff i k, str_eq_iff i j, get-put d k j v)

pub get-remove :
    (d : Fields) (k j : String) → get (remove d k) j ≡ (if str_eq k j then none else get d j)
unfolding get remove
get-remove end k j = ground arith
get-remove (field i w d) k j =
    ground (arith, str_eq_iff k j, str_eq_iff i k, str_eq_iff i j, get-remove d k j)

-- To write what is there changes nothing.
pub put-get_self : (d : Fields) (k : String) (v : Json) → get d k ≡ some v → put d k v ≡ d
unfolding get put
put-get_self end k v h = absurd (cc)
put-get_self (field j w d) k v h = elim (Bool-cases (str_eq j k)) [
  | inl same ↦ ground (arith, str_eq_iff j k)
  | inr other ↦ ground (arith, str_eq_iff j k, put-get_self d k v)
]

pub put-put : (d : Fields) (k : String) (v w : Json) → put (put d k v) k w ≡ put d k w
unfolding put
put-put end k v w = ground (arith, str_eq_refl k)
put-put (field j u d) k v w = elim (Bool-cases (str_eq j k)) [
  | inl same ↦ ground (arith, str_eq_iff j k)
  | inr other ↦ ground (arith, str_eq_iff j k, put-put d k v w)
]

-- What is at a path: an object, or another value with its text, or nothing.
pub data Seen : Type 0 where
  an_object : Seen
  a_value : String → Seen

-- the value at a key of a value
abbrev pub step : Option Json → String → Option Json
step (some (object d)) k = get d k
step _ k = none

module _ (dumps : Json → String) where
  abbrev pub seen : Json → Seen
  seen (object _) = an_object
  seen v = a_value (dumps v)

  abbrev pub look : List String → Option Json → Option Seen
  look [] none = none
  look [] (some v) = some (seen v)
  look (k ∷ path) v = look path (step v k)
