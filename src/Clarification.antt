-- ===== src/Clarification.antt =====
-- mce/ambiguity.py, and the Candidate of ontology/ontology.py: a question with numbered options,
-- built from the candidates for a word, and the value that an answer to it means. A confidence and
-- a similarity are floats; the text functions of Python and difflib's ratio are arguments.
pub mod Numbers
pub mod Confidence
use model_db.Prelude.{
  ℕ, ◌+◌, String, Bool, ◌||◌, Option, none, some, List, [], ◌∷◌, ◌++◌, ◌==◌, if◌then◌else◌, length,
  all_of, any_of, Result, ok, err, ◌>>=◌, ◌>>◌, map_ok, str_eq,
}

pub record Language : Type 1 where
  pub Float : Type 0
  -- `a > b` and `a >= b`
  pub above : Float → Float → Bool
  pub at_least : Float → Float → Bool
  pub float_zero : Float
  -- `a - b`
  pub minus : Float → Float → Float
  -- `ANSWER_FUZZY_THRESHOLD`, 0.75
  pub answer_threshold : Float
  -- `SequenceMatcher(None, a, b).ratio()`
  pub ratio : String → String → Float
  pub strip : String → String
  pub lower : String → String
  pub is_digit : String → Bool
  -- `int(text)`, none for its ValueError: a superscript is a digit and no number
  pub int_of : String → Option ℕ
  -- `value.replace("_", " ").capitalize()`
  pub label_of : String → String

pub record Candidate (w : Language) : Type 0 where
  pub value : String
  pub confidence : w.Float
  pub matched_alias : String
  pub is_typo : Bool

pub record ClarificationOption : Type 0 where
  pub index : ℕ
  pub value : String
  pub label : String

pub record ClarificationQuestion : Type 0 where
  pub subject : String
  pub options : List ClarificationOption

pub data AnswerError : Type 0 where
  value_error : AnswerError

-- the two variables of the loop in `build_question`
pub record Building : Type 0 where
  pub seen : List String
  pub options : List ClarificationOption

abbrev pub is_seen : String → List String → Bool
is_seen value seen = any_of (str_eq value) seen

unfoldable pub option_numbered : ℕ → List ClarificationOption → Option String
option_numbered chosen [] = none
option_numbered chosen (o ∷ options) =
    let rest = option_numbered chosen options in if o.index == chosen then some o.value else rest

module _ (w : Language) where
  -- `max(candidates, key=lambda c: c.confidence)` of the first candidate and the others
  abbrev pub most_confident : Candidate w → List (Candidate w) → Candidate w
  most_confident best [] = best
  most_confident best (c ∷ cs) =
      most_confident (if w.above c.confidence best.confidence then c else best) cs

  unfoldable pub subject : List (Candidate w) → Result AnswerError String
  subject [] = err value_error
  subject (c ∷ cs) =
      if all_of (λ other. str_eq other.matched_alias c.matched_alias) cs
      then ok c.matched_alias
      else ok (most_confident c cs).matched_alias

  unfoldable pub add_option : Building → Candidate w → Building
  add_option b c = if is_seen c.value b.seen then b else record {
    seen = c.value ∷ b.seen;
    options =
        b.options
        ++ (record { index = length b.options + 1; value = c.value; label = w.label_of c.value }
            ∷ []);
  }

  unfoldable pub add_options : Building → List (Candidate w) → Building
  add_options b [] = b
  add_options b (c ∷ cs) = add_options (add_option b c) cs

  unfoldable pub build_question : List (Candidate w) → Result AnswerError ClarificationQuestion
  build_question candidates =
      let built = add_options (record { seen = []; options = [] }) candidates in
      subject candidates >>= λ about. ok (record { subject = about; options = built.options })

  unfoldable pub option_named : String → List ClarificationOption → Option String
  option_named normalized [] = none
  option_named normalized (o ∷ options) =
      let rest = option_named normalized options in
      if str_eq normalized (w.lower o.value) || str_eq normalized (w.lower o.label)
      then some o.value
      else rest

  -- the loop over `best_value` and `best_ratio`, and the test after it
  unfoldable pub closest :
      String → Option String → w.Float → List ClarificationOption → Option String
  closest normalized best_value best_ratio [] =
      if w.at_least best_ratio w.answer_threshold then best_value else none
  closest normalized best_value best_ratio (o ∷ options) =
      let similarity = w.ratio normalized (w.lower o.label) in
      let better = w.above similarity best_ratio in
      closest normalized (if better then some o.value else best_value)
        (if better then similarity else best_ratio) options

  abbrev pub int_or_raise : Option ℕ → Result AnswerError ℕ
  int_or_raise none = err value_error
  int_or_raise (some n) = ok n

  abbrev pub named_or_closest : String → List ClarificationOption → Option String → Option String
  named_or_closest normalized options (some value) = some value
  named_or_closest normalized options none = closest normalized none w.float_zero options

  unfoldable pub resolve_answer :
      ClarificationQuestion → String → Result AnswerError (Option String)
  resolve_answer question answer =
      let text = w.strip answer in
      let normalized = w.lower text in
      if str_eq text ""
      then ok none
      else (if w.is_digit text
          then map_ok (λ chosen. option_numbered chosen question.options)
              (int_or_raise (w.int_of text))
          else ok (
              named_or_closest normalized question.options
                (option_named normalized question.options)))
