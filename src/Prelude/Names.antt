-- ===== src/Prelude/Names.antt =====
-- The ids that events/store.py and engine/data_engine.py accept.
use Prim.Native.Nat.{ℕ, zero, suc}
use mathlib.Core.Bool.{Bool, true, false, ◌&&◌, ◌||◌}
use mathlib.Core.List.{List, [], ◌∷◌}
use model_db.Prelude.Tests.{if◌then◌else◌, leb, ◌==◌}
use model_db.Prelude.Lists.{length}

-- `match` of STREAM_ID_RE in events/store.py and RECORD_ID_RE in engine/data_engine.py, which are the
-- same: `$` also matches before a newline at the end.
abbrev pub is_letter_or_digit : ℕ → Bool
is_letter_or_digit c = (leb 48 c && leb c 57) || (leb 65 c && leb c 90) || (leb 97 c && leb c 122)

abbrev pub is_id_char : ℕ → Bool
is_id_char c = is_letter_or_digit c || c == 95 || c == 46 || c == 45

-- up to `room` characters, and then the end
unfoldable pub id_rest : ℕ → List ℕ → Bool
id_rest room [] = true
id_rest zero (c ∷ cs) = c == 10 && length cs == 0
id_rest (suc room) (c ∷ cs) =
    let more = id_rest room cs in if is_id_char c then more else c == 10 && length cs == 0

abbrev pub is_id : List ℕ → Bool
is_id [] = false
is_id (c ∷ cs) = is_letter_or_digit c && id_rest 63 cs
