-- ===== src/Examples/Events.antt =====
-- A sealed record.
use Prim.Native.String.{String}
use Prim.Native.Char.{char}
use model_db.Prelude.{
  ℕ, zero, suc, ◌≡◌, refl, sym, ap, ◌∙◌, ◌≢◌, ◌⊎◌, ◌++◌, length, ok, err, codes, codes_injective,
}
use model_db.Storage.Interface.{Bytes}
use model_db.Events.Errors.{stream_corrupt}
use model_db.Events.Sealing.{Texts, IsDistinct, seal, open_sealed, open_sealed-seal}
use model_db.Examples.Cipher.{toy, toy-IsAuthenticated}
use model_db.Examples.Dna.{message, old_key, nonce}

-- a number as so many strokes
abbrev pub strokes : ℕ → String
strokes zero = String.[]
strokes (suc n) = String.◌∷◌ (char 49 tt) (strokes n)

pub length-codes-strokes : (n : ℕ) → length (codes (strokes n)) ≡ n
length-codes-strokes zero = refl
length-codes-strokes (suc n) = ap suc (length-codes-strokes n)

abbrev pub texts : Texts
texts = record { utf8 = codes; decimal = strokes; hkdf = λ info key. info ++ key }

pub texts-IsDistinct : IsDistinct texts
texts-IsDistinct = record {
  utf8_injective = codes_injective;
  decimal_injective =
      λ m n h. sym (length-codes-strokes m) ∙ ap (λ s. length (codes s)) h ∙ length-codes-strokes n;
}

open_sealed-seal_example :
    (open_sealed toy texts old_key "s1" "event" 3
        (seal toy texts nonce old_key "s1" "event" 3 message)
      ≡ ok message)
    × ((other : Bytes) (seq' : ℕ)
        → (old_key ≢ other) ⊎ (3 ≢ seq')
        → open_sealed toy texts other "s1" "event" seq'
            (seal toy texts nonce old_key "s1" "event" 3 message)
          ≡ err (stream_corrupt "s1"))
open_sealed-seal_example =
    open_sealed-seal toy toy-IsAuthenticated texts texts-IsDistinct nonce old_key refl "s1" "event"
      3 message
