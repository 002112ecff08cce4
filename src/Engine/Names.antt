-- ===== src/Engine/Names.antt =====
-- The block id of a record, "collection:record_id", tells both apart, since no record id has a colon.
use model_db.Prelude.{
  ℕ, zero, suc, String, ◌≡◌, refl, sym, ap, ◌∙◌, inl, inr, Bool, true, false, ◌&&◌, List, [], ◌∷◌,
  arith, ◌==◌, ==_iff, if◌then◌else◌, Bool-cases, length, any_of, ◌+ˢ◌, codes, codes-append,
  codes_injective, ◌+ᶜ◌, is_id_char, is_id, id_rest,
}
use model_db.Engine.Records.{block_id}

abbrev pub has_colon : List ℕ → Bool
has_colon = any_of (λ c. c == 58)

-- what lies before the last colon, and after it
abbrev split : List ℕ → List ℕ × List ℕ
split [] = ([], [])
split (c ∷ cs) = let rest = split cs in if has_colon cs then (c ∷ rest.0, rest.1) else ([], cs)

has_colon-append : (cs ds : List ℕ) → has_colon (cs +ᶜ (58 ∷ ds)) ≡ true
has_colon-append [] ds = refl
has_colon-append (c ∷ cs) ds = ground (arith, has_colon-append cs ds)

split-append : (cs ds : List ℕ) → has_colon ds ≡ false → split (cs +ᶜ (58 ∷ ds)) ≡ (cs, ds)
split-append [] ds h = rw h refl
split-append (c ∷ cs) ds h = rw (has_colon-append cs ds, split-append cs ds h) refl

codes-block_id : (c i : String) → codes (block_id c i) ≡ codes c +ᶜ (58 ∷ codes i)
unfolding block_id
codes-block_id c i = codes-append c (":" +ˢ i) ∙ ap (λ cs. codes c +ᶜ cs) (codes-append ":" i)

pub block_id_injective :
    (c d i j : String)
    → has_colon (codes i) ≡ false
    → has_colon (codes j) ≡ false
    → block_id c i ≡ block_id d j
    → (c ≡ d) × (i ≡ j)
block_id_injective c d i j hi hj h =
    let same : ◌≡◌ {A = List ℕ × List ℕ} (codes c, codes i) (codes d, codes j) =
      sym (split-append (codes c) (codes i) hi)
      ∙ ap split (sym (codes-block_id c i) ∙ ap codes h ∙ codes-block_id d j)
      ∙ split-append (codes d) (codes j) hj in
    (codes_injective c d (ap (λ t. t.0) same), codes_injective i j (ap (λ t. t.1) same))

newline-NoColon :
    (c : ℕ) (cs : List ℕ) → (c == 10 && length cs == 0) ≡ true → has_colon (c ∷ cs) ≡ false
newline-NoColon c [] h = ground (arith, ==_iff c 10, ==_iff c 58)
newline-NoColon c (d ∷ cs) h = absurd (ground arith)

-- an id that the code accepts has no colon
id_rest-NoColon : (room : ℕ) (cs : List ℕ) → id_rest room cs ≡ true → has_colon cs ≡ false
unfolding id_rest
id_rest-NoColon room [] h = refl
id_rest-NoColon zero (c ∷ cs) h = newline-NoColon c cs h
id_rest-NoColon (suc room) (c ∷ cs) h = elim (Bool-cases (is_id_char c)) [
  | inl good ↦
      let later : has_colon cs ≡ false = id_rest-NoColon room cs (rw good at h) in
      let here : (c == 58) ≡ false = ground (arith, ==_iff c 58) in rw (here, later) refl
  | inr last ↦ newline-NoColon c cs (rw last at h)
]

pub is_id-NoColon : (cs : List ℕ) → is_id cs ≡ true → has_colon cs ≡ false
is_id-NoColon [] h = absurd (cc)
is_id-NoColon (c ∷ cs) h = ground (arith, id_rest-NoColon 63 cs, ==_iff c 58)
