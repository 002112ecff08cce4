-- ===== src/Prelude/Text.antt =====
-- Texts: whole texts are compared as native strings, walked texts are lists of code points.
use Prim.Native.Nat.{ℕ}
use Prim.Native.Char.{code}
use Prim.Native.String.{String, ◌++◌}
use Prim.Native.String.append
use mathlib.Core.Path.{◌≡◌, refl, ap, ◌∙◌}
use native.Mathlib.Omega.{arith}
use mathlib.Core.Logic.{◌↔◌}
use mathlib.Core.Bool.{Bool, true}
use mathlib.Core.List.{List, [], ◌∷◌}
use text.Mathlib.Text.{◌==◌}
use text.Mathlib.TextEquality
use text.Mathlib.TextPositions
use text.Mathlib.TextLemmas.{append_cancel_left}

abbrev pub str_eq : String → String → Bool
str_eq = ◌==◌

pub str_eq_iff : (s t : String) → (str_eq s t ≡ true) ↔ (s ≡ t)
str_eq_iff = TextEquality.eq_iff

pub str_eq_refl : (s : String) → str_eq s s ≡ true
str_eq_refl = TextPositions.eq_refl

-- Python's `s + t` on texts.
infixr 65 ◌+ˢ◌
abbrev pub ◌+ˢ◌ : String → String → String
s +ˢ t = s ++ t

pub +ˢ_cancel_left : (s t u : String) → s +ˢ t ≡ s +ˢ u → t ≡ u
+ˢ_cancel_left = append_cancel_left

abbrev pub codes : String → List ℕ
codes String.[] = []
codes (String.◌∷◌ c s) = code c ∷ codes s

-- A common prefix makes no difference to a comparison.
pub str_eq-prefix : (s t u : String) → str_eq (s +ˢ t) (s +ˢ u) ≡ str_eq t u
str_eq-prefix s t u =
    ground (arith, str_eq_iff t u, str_eq_iff (s +ˢ t) (s +ˢ u), +ˢ_cancel_left s t u)

-- `xs + ys` on lists of code points
infixr 65 ◌+ᶜ◌
abbrev pub ◌+ᶜ◌ : List ℕ → List ℕ → List ℕ
[] +ᶜ ds = ds
(n ∷ cs) +ᶜ ds = n ∷ (cs +ᶜ ds)

pub codes-append : (s t : String) → codes (s +ˢ t) ≡ codes s +ᶜ codes t
codes-append String.[] t = ap codes (append.nil t)
codes-append (String.◌∷◌ c s) t =
    ap codes (append.cons c s t) ∙ ap (λ cs. code c ∷ cs) (codes-append s t)

pub codes_injective : (s t : String) → codes s ≡ codes t → s ≡ t
codes_injective String.[] String.[] h = refl
codes_injective String.[] (String.◌∷◌ d t) h = absurd (cc)
codes_injective (String.◌∷◌ c s) String.[] h = absurd (cc)
codes_injective (String.◌∷◌ c s) (String.◌∷◌ d t) h =
    let first : c ≡ d = TextEquality.Char-path c d (cc) in
    let rest : s ≡ t = codes_injective s t (cc) in cc
