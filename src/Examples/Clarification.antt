-- ===== src/Examples/Clarification.antt =====
-- A question about a balance, answered by a number.
use model_db.Prelude.{
  ℕ, ◌-◌, String, ◌≡◌, refl, ◌↔◌, false, ◌||◌, none, some, List, [], ◌∷◌, arith, ltb, leb,
  if◌then◌else◌, ok, str_eq,
}
use model_db.Clarification.{
  Language, Candidate, ClarificationQuestion, build_question, resolve_answer, add_options,
  add_option, subject,
}
use mathlib.Core.List.{Perm}
use model_db.Clarification.Confidence.{
  IsOrdered, IsAhead, evaluate_ambiguity, evaluate_ambiguity-IsAhead,
}
use model_db.Clarification.Numbers.{resolve_answer-number}

-- of all texts only "1" and "2" are numbers, and only equal texts are similar
abbrev plain : Language
plain = record {
  Float = ℕ;
  above = λ m n. ltb n m;
  at_least = λ m n. leb n m;
  float_zero = 0;
  minus = λ m n. m - n;
  answer_threshold = 75;
  ratio = λ s t. if str_eq s t then 100 else 0;
  strip = λ s. s;
  lower = λ s. s;
  is_digit = λ s. str_eq s "1" || str_eq s "2";
  int_of = λ s. if str_eq s "1" then some 1 else (if str_eq s "2" then some 2 else none);
  label_of = λ s. s;
}

abbrev candidate : String → ℕ → Candidate plain
candidate value confidence = record {
  value = value;
  confidence = confidence;
  matched_alias = "balance";
  is_typo = false;
}

abbrev balances : List (Candidate plain)
balances =
    candidate "opening_balance" 80
    ∷ candidate "opening_balance" 70
    ∷ candidate "settlement_balance" 80
    ∷ []

abbrev question : ClarificationQuestion
question = record {
  subject = "balance";
  options =
      record { index = 1; value = "opening_balance"; label = "opening_balance" }
      ∷ record { index = 2; value = "settlement_balance"; label = "settlement_balance" }
      ∷ [];
}

asks : build_question plain balances ≡ ok question
unfolding build_question add_options add_option subject
asks = refl

resolve_answer-number_example : resolve_answer plain question "2" ≡ ok (some "settlement_balance")
resolve_answer-number_example =
    resolve_answer-number plain balances question "2" 2 asks refl refl refl

plain-IsOrdered : IsOrdered plain
plain-IsOrdered = record {
  asymmetric = λ a b h. ground arith;
  transitive = λ a b c h1 h2. ground arith;
  antitone = λ a b c m h1 h2. ground arith;
}

evaluate_ambiguity-IsAhead_example :
    Perm (evaluate_ambiguity plain balances 75 5).candidates balances
    × (((evaluate_ambiguity plain balances 75 5).clarification_required ≡ false)
        ↔ IsAhead plain 75 5 (evaluate_ambiguity plain balances 75 5).candidates)
evaluate_ambiguity-IsAhead_example = evaluate_ambiguity-IsAhead plain-IsOrdered balances 75 5
