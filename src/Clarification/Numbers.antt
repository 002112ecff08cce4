-- ===== src/Clarification/Numbers.antt =====
-- An answer that is a number.
use model_db.Prelude.{
  ℕ, zero, suc, ◌+◌, ◌-◌, String, ◌≡◌, refl, sym, ap, ◌∙◌, inl, inr, true, false, Option, none,
  some, List, [], ◌∷◌, ◌++◌, arith, if◌then◌else◌, Bool-cases, length, get_elem?, ok, >>=-eq-ok,
  ok-injective, str_eq,
}
use model_db.Clarification.{
  Language, Candidate, ClarificationOption, ClarificationQuestion, Building, is_seen, add_option,
  add_options, build_question, option_numbered, resolve_answer, subject,
}

-- the candidates' values, each where it occurs first, less those in `seen`
abbrev pub fresh_values : {w : Language} → List String → List (Candidate w) → List String
fresh_values seen [] = []
fresh_values seen (c ∷ cs) =
    let skipped = fresh_values seen cs in
    let added = fresh_values (c.value ∷ seen) cs in
    if is_seen c.value seen then skipped else c.value ∷ added

-- the item at a position that is counted from 1
abbrev pub nth : List String → ℕ → Option String
nth values zero = none
nth values (suc i) = get_elem? values i

abbrev pub values : List ClarificationOption → List String
values [] = []
values (o ∷ options) = o.value ∷ values options

-- the options are numbered from `suc k` on
abbrev IsNumbered : ℕ → List ClarificationOption → Type 0
IsNumbered k [] = Unit
IsNumbered k (o ∷ options) = (o.index ≡ suc k) × IsNumbered (suc k) options

IsNumbered-append :
    (k : ℕ) (options : List ClarificationOption) (o : ClarificationOption)
    → IsNumbered k options
    → o.index ≡ k + (length options + 1)
    → IsNumbered k (options ++ (o ∷ []))
IsNumbered-append k [] o _ h = (omega arith, tt)
IsNumbered-append k (p ∷ options) o (h1, h2) h =
    (h1, IsNumbered-append (suc k) options o h2 (omega arith))

values-append :
    (options : List ClarificationOption) (o : ClarificationOption)
    → values (options ++ (o ∷ [])) ≡ values options ++ (o.value ∷ [])
values-append [] o = refl
values-append (p ∷ options) o = ap (λ t. p.value ∷ t) (values-append options o)

append-single : (xs ys : List String) (v : String) → (xs ++ (v ∷ [])) ++ ys ≡ xs ++ (v ∷ ys)
append-single [] ys v = refl
append-single (x ∷ xs) ys v = ap (λ t. x ∷ t) (append-single xs ys v)

append-nil : (xs : List String) → xs ++ [] ≡ xs
append-nil [] = refl
append-nil (x ∷ xs) = ap (λ t. x ∷ t) (append-nil xs)

nth-nil : (i : ℕ) → nth [] i ≡ none
nth-nil zero = refl
nth-nil (suc i) = refl

option_numbered-nth :
    (n k : ℕ) (options : List ClarificationOption)
    → IsNumbered k options
    → option_numbered n options ≡ nth (values options) (n - k)
unfolding option_numbered
option_numbered-nth n k [] _ = sym (nth-nil (n - k))
option_numbered-nth n k (o ∷ options) (h1, h2) =
    ground (arith, option_numbered-nth n (suc k) options h2)

module _ (w : Language) where
  add_option-IsNumbered :
      (b : Building) (c : Candidate w)
      → IsNumbered 0 b.options
      → IsNumbered 0 (add_option w b c).options
  unfolding add_option
  add_option-IsNumbered b c h = elim (Bool-cases (is_seen c.value b.seen)) [
    | inl seen ↦ rw seen h
    | inr unseen ↦ rw unseen (IsNumbered-append 0 b.options _ h (omega arith))
  ]

  add_options-IsNumbered :
      (b : Building) (cs : List (Candidate w))
      → IsNumbered 0 b.options
      → IsNumbered 0 (add_options w b cs).options
  unfolding add_options
  add_options-IsNumbered b [] h = h
  add_options-IsNumbered b (c ∷ cs) h =
      add_options-IsNumbered (add_option w b c) cs (add_option-IsNumbered b c h)

  -- what `add_option` adds to the values
  add_option-values :
      (b : Building) (c : Candidate w) (cs : List (Candidate w))
      → values (add_option w b c).options ++ fresh_values (add_option w b c).seen cs
        ≡ values b.options ++ fresh_values b.seen (c ∷ cs)
  unfolding add_option
  add_option-values b c cs = elim (Bool-cases (is_seen c.value b.seen)) [
    | inl seen ↦ rw seen refl
    | inr unseen ↦
        rw (unseen, values-append b.options _) (append-single (values b.options) _ c.value)
  ]

  add_options-values :
      (b : Building) (cs : List (Candidate w))
      → values (add_options w b cs).options ≡ values b.options ++ fresh_values b.seen cs
  unfolding add_options
  add_options-values b [] = sym (append-nil (values b.options))
  add_options-values b (c ∷ cs) =
      add_options-values (add_option w b c) cs ∙ add_option-values b c cs

  abbrev start : Building
  start = record { seen = []; options = [] }

  abbrev built : List (Candidate w) → List ClarificationOption
  built cs = (add_options w start cs).options

  built-options :
      (cs : List (Candidate w)) {question : ClarificationQuestion}
      → build_question w cs ≡ ok question
      → built cs ≡ question.options
  unfolding build_question
  built-options cs h =
      let (about, _, same) = >>=-eq-ok (subject w cs) _ h in ap (λ q. q.options) (ok-injective same)

  -- An answer that is the number `n` means the `n`-th of the candidates' values, each counted
  -- where it occurs first, and nothing if there is no such value.
  pub resolve_answer-number :
      (candidates : List (Candidate w)) (question : ClarificationQuestion) (answer : String) (n : ℕ)
      → build_question w candidates ≡ ok question
      → str_eq (w.strip answer) "" ≡ false
      → w.is_digit (w.strip answer) ≡ true
      → w.int_of (w.strip answer) ≡ some n
      → resolve_answer w question answer ≡ ok (nth (fresh_values [] candidates) n)
  unfolding resolve_answer
  resolve_answer-number candidates question answer n asked given digits number =
      let same : n - 0 ≡ n = omega arith in
      rw (given, digits, number)
        (ap ok (
          ap (option_numbered n) (sym (built-options candidates asked))
          ∙ option_numbered-nth n 0 (built candidates) (add_options-IsNumbered start candidates tt)
          ∙ ap (nth (values (built candidates))) same
          ∙ ap (λ vs. nth vs n) (add_options-values start candidates)))
