-- ===== src/Prelude/Results.antt =====
-- What a Python call that may raise returns: a value, or an exception of type `E`.
use mathlib.Core.Path.{◌≡◌, refl}
use mathlib.Core.Logic.{◌⊎◌, inl, inr}
use mathlib.Core.Bool.{Bool, true, false}

pub data Result (E A : Type 0) : Type 0 where
  ok : A → Result E A
  err : E → Result E A

infixl 5 ◌>>=◌ ◌>>◌
abbrev pub ◌>>=◌ : {E A B : Type 0} → Result E A → (A → Result E B) → Result E B
err failure >>= next = err failure
ok value >>= next = next value

abbrev pub map_ok : {E A B : Type 0} → (A → B) → Result E A → Result E B
map_ok f (ok a) = ok (f a)
map_ok f (err e) = err e

abbrev pub is_ok : {E A : Type 0} → Result E A → Bool
is_ok (ok _) = true
is_ok (err _) = false

-- `if not test: raise failure`
abbrev pub guard : {E : Type 0} → Bool → E → Result E (Unit {0})
guard false failure = err failure
guard true failure = ok tt

abbrev pub ◌>>◌ : {E B : Type 0} → Result E (Unit {0}) → Result E B → Result E B
first >> second = first >>= λ _. second

pub Result-cases :
    {E A : Type 0} (r : Result E A) → ((a : A) × (r ≡ ok a)) ⊎ ((e : E) × (r ≡ err e))
Result-cases (ok a) = inl (a, refl)
Result-cases (err e) = inr (e, refl)

-- A chain that succeeds had a first step that did, and a rest that did on its value.
pub >>=-eq-ok :
    {E A B : Type 0} (first : Result E A) (next : A → Result E B) {result : B}
    → (first >>= next) ≡ ok result
    → (value : A) × (first ≡ ok value) × (next value ≡ ok result)
>>=-eq-ok (err failure) next chain = cc
>>=-eq-ok (ok value) next chain = (value, refl, chain)

pub >>-eq-ok :
    {E B : Type 0} (first : Result E (Unit {0})) (next : Result E B) {result : B}
    → (first >> next) ≡ ok result
    → (first ≡ ok tt) × (next ≡ ok result)
>>-eq-ok (ok _) next chain = (refl, chain)
>>-eq-ok (err _) next chain = cc

pub ok-injective : {E A : Type 0} {a b : A} → ◌≡◌ {A = Result E A} (ok a) (ok b) → a ≡ b
ok-injective h = cc

pub map_ok-eq-ok :
    {E A B : Type 0} (f : A → B) (m : Result E A) {b : B}
    → map_ok f m ≡ ok b
    → (a : A) × (m ≡ ok a) × (f a ≡ b)
map_ok-eq-ok f (ok a) h = (a, refl, cc)
map_ok-eq-ok f (err e) h = cc

pub is_ok-ok : {E A : Type 0} (r : Result E A) → is_ok r ≡ true → (a : A) × (r ≡ ok a)
is_ok-ok (ok a) h = (a, refl)
is_ok-ok (err e) h = absurd (cc)

-- A method: the object before, the object after, and the value or the exception.
abbrev pub Action : (S E A : Type 0) → Type 0
Action S E A = S → S × Result E A

module _ {S E : Type 0} where
  -- what comes after a step, if it raised nothing
  abbrev pub resume : {A B : Type 0} → (A → Action S E B) → S × Result E A → S × Result E B
  resume next (s, ok a) = next a s
  resume next (s, err e) = (s, err e)

  infixl 5 ◌>>=ᴹ◌
  abbrev pub ◌>>=ᴹ◌ : {A B : Type 0} → Action S E A → (A → Action S E B) → Action S E B
  ◌>>=ᴹ◌ m next s = resume next (m s)

  abbrev pub pure : {A : Type 0} → A → Action S E A
  pure a s = (s, ok a)

  -- a computation that reads the object and does not change it
  abbrev pub reads : {A : Type 0} → (S → Result E A) → Action S E A
  reads f s = (s, f s)

module _ {S E A B : Type 0} where
  -- A method that starts with a reading step and returns had a step that did, and went on from it.
  pub reads-eq-ok :
      (r : Result E A) (next : A → Action S E B) {s s' : S} {value : B}
      → resume next (s, r) ≡ (s', ok value)
      → (a : A) × (r ≡ ok a) × (next a s ≡ (s', ok value))
  reads-eq-ok (ok a) next h = (a, refl, h)
  reads-eq-ok (err e) next h = absurd (cc)

  -- A method that starts with a reading step and raises does so there, or after it.
  pub reads-eq-err :
      (r : Result E A) (next : A → Action S E B) {s s' : S} {e : E}
      → resume next (s, r) ≡ (s', err e)
      → (s' ≡ s) ⊎ ((a : A) × (r ≡ ok a) × (next a s ≡ (s', err e)))
  reads-eq-err (ok a) next h = inr (a, refl, h)
  reads-eq-err (err f) next h = inl (cc)
