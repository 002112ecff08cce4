-- ===== src/Engine/Effects.antt =====
-- What the blocks hold after several records were written, or removed, one after the other.
use model_db.Prelude.{
  ℕ, zero, suc, ◌≤◌, ◌<◌, String, ◌≡◌, refl, ap, ◌∙◌, ◌⊎◌, inl, inr, Bool, false, none, some, List,
  [], ◌∷◌, map, arith, if◌then◌else◌, some_injective, length, take, any_of, All, ok, err, str_eq,
  str_eq_refl,
}
use model_db.Schema.{Values}
use model_db.Errors.{key_error}
use model_db.Storage.Interface.{Bytes, StorageBackend, IsLawful, Outage}
use model_db.Engine.{EngineError, Comparisons, Texts, Record, MdcDataEngine}
use model_db.Engine.Records.{block_id, put_record, remove_record}
use model_db.Engine.Calls.{updated_record, update_all, remove_all}
use model_db.Engine.Creating.{put_records}
use model_db.Dict.{Dict}

abbrev pub id_of : {v : Values} → Record v → String
id_of r = block_id r.collection r.record_id

-- `i` is the id of none of the records
abbrev pub IsOther : {v : Values} → String → List (Record v) → Type 0
IsOther i = All (λ r. str_eq (id_of r) i ≡ false)

-- no two records have the same id
abbrev pub AreDistinct : {v : Values} → List (Record v) → Type 0
AreDistinct [] = Unit
AreDistinct (r ∷ rs) = IsOther (id_of r) rs × AreDistinct rs

IsOther-take :
    {v : Values} (i : String) (n : ℕ) (rs : List (Record v)) → IsOther i rs → IsOther i (take n rs)
IsOther-take i zero rs h = tt
IsOther-take i (suc n) [] h = tt
IsOther-take i (suc n) (r ∷ rs) (h, hs) = (h, IsOther-take i n rs hs)

pub AreDistinct-take :
    {v : Values} (n : ℕ) (rs : List (Record v)) → AreDistinct rs → AreDistinct (take n rs)
AreDistinct-take zero rs h = tt
AreDistinct-take (suc n) [] h = tt
AreDistinct-take (suc n) (r ∷ rs) (h, hs) =
    (IsOther-take (id_of r) n rs h, AreDistinct-take n rs hs)

module _ {sha256 : Bytes → String} {b : StorageBackend} (law : IsLawful sha256 b) {v : Values}
    (w : Comparisons v) (x : Texts v) where
  -- the engine after the records were written
  abbrev pub after_puts : List (Record v) → MdcDataEngine b → MdcDataEngine b
  after_puts [] s = s
  after_puts (r ∷ rs) s = after_puts rs (put_record b w x none false r s).0

  -- the records are written, if the outage does not begin before
  abbrev pub AreWritten : Outage EngineError → List (Record v) → MdcDataEngine b → Type 0
  AreWritten outage rs s =
      (put_records b w x none outage rs s ≡ (after_puts rs s, ok tt))
      × ((n : ℕ) (e : EngineError) → outage ≡ some (n, e) → length rs ≤ n)

  -- the records before the outage are written, and it is raised
  abbrev pub AreBroken : Outage EngineError → List (Record v) → MdcDataEngine b → Type 0
  AreBroken outage rs s =
      (n : ℕ) × (e : EngineError) × (outage ≡ some (n, e))
      × (n < length rs)
      × (put_records b w x none outage rs s ≡ (after_puts (take n rs) s, err e))

  pub put_records-after :
      (outage : Outage EngineError) (rs : List (Record v)) (s : MdcDataEngine b)
      → AreWritten outage rs s ⊎ AreBroken outage rs s
  unfolding put_records put_record
  put_records-after outage [] s = inl (refl, λ n e h. omega arith)
  put_records-after none (r ∷ rs) s = elim (put_records-after none rs _) [
    | inl (done, fits) ↦ inl (done, λ n e h. absurd (cc))
    | inr broken ↦ let begun = broken.2 in absurd (cc)
  ]
  put_records-after (some (zero, e)) (r ∷ rs) s = inr (0, e, refl, omega arith, refl)
  put_records-after (some (suc n, e)) (r ∷ rs) s = elim (put_records-after (some (n, e)) rs _) [
    | inl (done, fits) ↦
        inl (done, λ m f h. omega (arith, fits n e refl, ap (λ q. q.0) (some_injective h)))
    | inr (m, f, begun, few, done) ↦ inr (suc m, f, cc, omega (arith, few), done)
  ]

  pub schema-after_puts :
      (rs : List (Record v)) (s : MdcDataEngine b) → (after_puts rs s).schema ≡ s.schema
  unfolding put_record
  schema-after_puts [] s = refl
  schema-after_puts (r ∷ rs) s = schema-after_puts rs _

  -- a block that none of the records is written to
  pub get-after_puts_other :
      (rs : List (Record v)) (s : MdcDataEngine b) (i : String)
      → IsOther i rs
      → b.get (after_puts rs s).storage i ≡ b.get s.storage i
  unfolding put_record
  get-after_puts_other [] s i _ = refl
  get-after_puts_other (r ∷ rs) s i (h, hs) =
      get-after_puts_other rs _ i hs ∙ law.get-put s.storage _ _ i _ _ ∙ rw h refl

  -- each record is in its block
  pub get-after_puts :
      (rs : List (Record v)) (s : MdcDataEngine b)
      → AreDistinct rs
      → All (λ r. b.get (after_puts rs s).storage (id_of r) ≡ ok (x.dump r)) rs
  unfolding put_record
  get-after_puts [] s _ = tt
  get-after_puts (r ∷ rs) s (h, hs) = (
    get-after_puts_other rs _ (id_of r) h
        ∙ law.get-put s.storage _ _ (id_of r) _ _
        ∙ rw (str_eq_refl (id_of r)) refl,
    get-after_puts rs _ hs,
  )

  -- an update writes the changed records
  pub update_all-after :
      (now : ℕ) (validated : Dict v.Value) (rs : List (Record v)) (s : MdcDataEngine b)
      → update_all b w x none now validated rs s ≡ (
        after_puts (map (updated_record b w x none now validated) rs) s,
        ok (map (updated_record b w x none now validated) rs),
      )
  unfolding update_all put_record
  update_all-after now validated [] s = refl
  update_all-after now validated (r ∷ rs) s = rw (update_all-after now validated rs _) refl

  pub schema-remove_all :
      (rs : List (Record v)) (s : MdcDataEngine b) → (remove_all b w x none rs s).schema ≡ s.schema
  unfolding remove_all remove_record
  schema-remove_all [] s = refl
  schema-remove_all (r ∷ rs) s = schema-remove_all rs _

  abbrev pub is_one_of : String → List (Record v) → Bool
  is_one_of i = any_of (λ r. str_eq (id_of r) i)

  pub get-remove_all :
      (rs : List (Record v)) (s : MdcDataEngine b) (i : String)
      → b.get (remove_all b w x none rs s).storage i
        ≡ (if is_one_of i rs then err key_error else b.get s.storage i)
  unfolding remove_all remove_record
  get-remove_all [] s i = refl
  get-remove_all (r ∷ rs) s i =
      get-remove_all rs _ i ∙ ground (arith, law.get-delete s.storage (id_of r) i)
