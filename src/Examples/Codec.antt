-- ===== src/Examples/Codec.antt =====
-- Readers and writers that are inverse to each other: every value is written as numbers that end
-- by themselves.
use Prim.Native.Nat.{Ordering, compare}
use Prim.Native.Char.{IsScalar, code, Char, char}
use text.Mathlib.TextEquality
use model_db.Prelude.{ℕ, zero, suc, String, ◌≡◌, refl, ap, ◌∙◌, Option, none, some, [], ◌∷◌}
use model_db.Storage.Interface.{Bytes}

-- write before what follows; read, and what follows
pub record Codec (A : Type 0) : Type 0 where
  pub write : A → Bytes → Bytes
  pub read : Bytes → Option (A × Bytes)
  pub read-write : (a : A) (r : Bytes) → read (write a r) ≡ some (a, r)

abbrev then_read :
    {A B : Type 0} → Option (A × Bytes) → (A → Bytes → Option (B × Bytes)) → Option (B × Bytes)
then_read none f = none
then_read (some (a, r)) f = f a r

pub pair : {A B : Type 0} → Codec A → Codec B → Codec (A × B)
pair c d = record {
  write = λ x r. c.write x.0 (d.write x.1 r);
  read = λ bytes. then_read (c.read bytes) (λ a r. then_read (d.read r) (λ y s. some ((a, y), s)));
  read-write = λ x r. rw (c.read-write x.0 (d.write x.1 r), d.read-write x.1 r) refl;
}

-- a type through another that holds it
pub via :
    {A B : Type 0} (f : A → B) (g : B → Option A) → ((a : A) → g (f a) ≡ some a) → Codec B → Codec A
via {A} f g back c = record {
  write = λ a r. c.write (f a) r;
  read = λ bytes. then_read (c.read bytes) (λ y r. kept (g y) r);
  read-write = λ a r. rw (c.read-write (f a) r, back a) refl;
}
  where
    kept : Option A → Bytes → Option (A × Bytes)
    kept none r = none
    kept (some a) r = some (a, r)

pub number : Codec ℕ
number = record { write = λ n r. n ∷ r; read = first; read-write = λ n r. refl }
  where
    first : Bytes → Option (ℕ × Bytes)
    first [] = none
    first (n ∷ r) = some (n, r)

module _ (n : ℕ) where
  abbrev scalar_of :
      (o p q : Ordering)
      → compare n 55296 ≡ o
      → compare 57343 n ≡ p
      → compare n 1114112 ≡ q
      → Option (IsScalar n)
  scalar_of Ordering.lt p q h k l = some (rw h tt)
  scalar_of Ordering.eq Ordering.lt Ordering.lt h k l = some (rw (h, k, l) tt)
  scalar_of Ordering.eq Ordering.lt Ordering.eq h k l = none
  scalar_of Ordering.eq Ordering.lt Ordering.gt h k l = none
  scalar_of Ordering.eq Ordering.eq q h k l = none
  scalar_of Ordering.eq Ordering.gt q h k l = none
  scalar_of Ordering.gt Ordering.lt Ordering.lt h k l = some (rw (h, k, l) tt)
  scalar_of Ordering.gt Ordering.lt Ordering.eq h k l = none
  scalar_of Ordering.gt Ordering.lt Ordering.gt h k l = none
  scalar_of Ordering.gt Ordering.eq q h k l = none
  scalar_of Ordering.gt Ordering.gt q h k l = none

  scalar_found :
      (o p q : Ordering) (h : compare n 55296 ≡ o) (k : compare 57343 n ≡ p)
      (l : compare n 1114112 ≡ q)
      → IsScalar n
      → (t : IsScalar n) × (scalar_of o p q h k l ≡ some t)
  scalar_found Ordering.lt p q h k l s = (rw h tt, refl)
  scalar_found Ordering.eq Ordering.lt Ordering.lt h k l s = (rw (h, k, l) tt, refl)
  scalar_found Ordering.eq Ordering.lt Ordering.eq h k l s = absurd (rw (h, k, l) at s)
  scalar_found Ordering.eq Ordering.lt Ordering.gt h k l s = absurd (rw (h, k, l) at s)
  scalar_found Ordering.eq Ordering.eq q h k l s = absurd (rw (h, k) at s)
  scalar_found Ordering.eq Ordering.gt q h k l s = absurd (rw (h, k) at s)
  scalar_found Ordering.gt Ordering.lt Ordering.lt h k l s = (rw (h, k, l) tt, refl)
  scalar_found Ordering.gt Ordering.lt Ordering.eq h k l s = absurd (rw (h, k, l) at s)
  scalar_found Ordering.gt Ordering.lt Ordering.gt h k l s = absurd (rw (h, k, l) at s)
  scalar_found Ordering.gt Ordering.eq q h k l s = absurd (rw (h, k) at s)
  scalar_found Ordering.gt Ordering.gt q h k l s = absurd (rw (h, k) at s)

abbrev char_of : (n : ℕ) → Option (IsScalar n) → Option Char
char_of n none = none
char_of n (some s) = some (char n s)

abbrev from_code : ℕ → Option Char
from_code n =
    char_of n (scalar_of n (compare n 55296) (compare 57343 n) (compare n 1114112) refl refl refl)

from_code-code : (c : Char) → from_code (code c) ≡ some c
from_code-code (char n s) =
    let (t, found) =
      scalar_found n (compare n 55296) (compare 57343 n) (compare n 1114112) refl refl refl s in
    ap (char_of n) found ∙ ap some (TextEquality.Char-path (char n t) (char n s) refl)

abbrev write_text : String → Bytes → Bytes
write_text String.[] r = 0 ∷ r
write_text (String.◌∷◌ c s) r = suc (code c) ∷ write_text s r

abbrev add_char : Option Char → Option (String × Bytes) → Option (String × Bytes)
add_char none rest = none
add_char (some c) none = none
add_char (some c) (some (s, r)) = some (String.◌∷◌ c s, r)

abbrev read_text : Bytes → Option (String × Bytes)
read_text [] = none
read_text (zero ∷ r) = some (String.[], r)
read_text (suc n ∷ r) = add_char (from_code n) (read_text r)

read_text-write_text : (s : String) (r : Bytes) → read_text (write_text s r) ≡ some (s, r)
read_text-write_text String.[] r = refl
read_text-write_text (String.◌∷◌ c s) r =
    rw (read_text-write_text s r) (ap (λ o. add_char o (some (s, r))) (from_code-code c))

pub string : Codec String
string = record { write = write_text; read = read_text; read-write = read_text-write_text }

pub maybe : {A : Type 0} → Codec A → Codec (Option A)
maybe {A} c = record { write = put; read = take_one; read-write = back }
  where
    put : Option A → Bytes → Bytes
    put none r = 0 ∷ r
    put (some a) r = 1 ∷ c.write a r

    present : A → Bytes → Option (Option A × Bytes)
    present a r = some (some a, r)

    take_one : Bytes → Option (Option A × Bytes)
    take_one [] = none
    take_one (zero ∷ r) = some (none, r)
    take_one (suc _ ∷ r) = then_read (c.read r) present

    back : (o : Option A) (r : Bytes) → take_one (put o r) ≡ some (o, r)
    back none r = refl
    back (some a) r = rw (c.read-write a r) refl
