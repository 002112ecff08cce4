-- ===== src/Events/Codec/Same.antt =====
-- Objects that hold the same at every path.
use model_db.Prelude.{
  String, ◌≡◌, refl, sym, ap, ◌∙◌, ◌≢◌, Bool, true, false, Option, none, some, List, [], ◌∷◌,
}
use model_db.Events.Json.{Json, object, Fields, end, field, get, look, step, seen, a_value}

-- No key of an object, or of an object in it, is listed twice.
unfoldable mutual
  pub IsUnique : Json → Type 0
  IsUnique (object d) = AreUnique d
  IsUnique _ = Unit

  pub AreUnique : Fields → Type 0
  AreUnique end = Unit
  AreUnique (field k v d) = (get d k ≡ none) × IsUnique v × AreUnique d

abbrev pub is_object : Json → Bool
is_object (object _) = true
is_object _ = false

module _ (dumps : Json → String) where
  -- the JSON text of an object is that of no other value
  pub record IsTelling : Type 0 where
    pub object_text : (d : Fields) (v : Json) → is_object v ≡ false → dumps (object d) ≢ dumps v

  -- At every path there is the same.
  abbrev pub Same : Option Json → Option Json → Type 0
  Same a b = (path : List String) → look dumps path a ≡ look dumps path b

pub look-none : (dumps : Json → String) (path : List String) → look dumps path none ≡ none
look-none dumps [] = refl
look-none dumps (k ∷ path) = look-none dumps path

pub seen-text :
    (dumps : Json → String) (v : Json) → is_object v ≡ false → seen dumps v ≡ a_value (dumps v)
seen-text dumps (object d) h = absurd (cc)
seen-text dumps _ h = refl

pub step-none : (v : Json) (k : String) → is_object v ≡ false → step (some v) k ≡ none
step-none (object d) k h = absurd (cc)
step-none _ k h = refl

-- Values that are no objects and have the same text are the same.
pub text-Same :
    (dumps : Json → String) (v w : Json)
    → is_object v ≡ false
    → is_object w ≡ false
    → dumps v ≡ dumps w
    → Same dumps (some v) (some w)
text-Same dumps v w hv hw h [] =
    ap some (seen-text dumps v hv ∙ ap a_value h ∙ sym (seen-text dumps w hw))
text-Same dumps v w hv hw h (k ∷ path) =
    ap (look dumps path) (step-none v k hv ∙ sym (step-none w k hw))
