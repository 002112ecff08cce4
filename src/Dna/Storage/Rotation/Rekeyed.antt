-- ===== src/Dna/Storage/Rotation/Rekeyed.antt =====
-- After a rotation every block reads under the new key as it did before.
use model_db.Prelude.{
  ℕ, ◌+◌, ◌^◌, ◌<◌, String, ◌≡◌, refl, ◌∙◌, ◌⊎◌, inl, inr, true, Option, none, some, List, [], ◌∷◌,
  arith, Bool-cases, is_some-some, length, All, ok, err, >>=-eq-ok, ok-injective, map_ok-eq-ok,
  str_eq, str_eq_iff,
}
use model_db.Dict
use model_db.Dict.{Dict, contains}
use model_db.Dict.Keys.{mem}
use model_db.Errors.{decryption_error}
use model_db.Storage.Interface.{Bytes, Metadata, StorageBackend, IsLawful}
use model_db.Platform.{Platform, IsAuthenticated}
use model_db.Dna.Crypto.{nonce_len, encrypt}
use model_db.Dna.Storage.{DnaStorageBackend, Supply, put_with, read}
use model_db.Dna.Storage.Archive.{IsConfigured, HasWritten, put_with-HasWritten}
use model_db.Dna.Storage.Rotation.{Plan, plan_block, plan_blocks, add_to_plan, write_blocks}

module _ (p : Platform) (b : StorageBackend) (d : DnaStorageBackend b.Store)
    (old_key new_key : Bytes) where
  -- The block can be read by one of the two keys, the old one first.
  abbrev pub Reads : String → Bytes → Type 0
  Reads j plain =
      (read p b d j old_key ≡ ok plain)
      ⊎ ((read p b d j old_key ≡ err decryption_error) × (read p b d j new_key ≡ ok plain))

  -- Every entry of the plan is what the old key reads.
  abbrev pub IsRead : Dict Bytes → Type 0
  IsRead = All (λ e. read p b d e.0 old_key ≡ ok e.1)

  -- What the first loop finds, if it finds every block readable.
  abbrev pub Covers : List String → Plan → Type 0
  Covers ids plan =
      IsRead plan.0
      × (length plan.0 + plan.1 ≡ length ids)
      × ((j : String) (plain : Bytes)
          → mem j ids ≡ true
          → Reads j plain
          → (mem j (Dict.keys plan.0) ≡ true) ⊎ (read p b d j new_key ≡ ok plain))

  plan_step :
      (i : String) (ids : List String) (found : Option Bytes) (rest : Plan)
      → plan_block p b d old_key new_key i ≡ ok found
      → Covers ids rest
      → Covers (i ∷ ids) (add_to_plan i found rest)
  unfolding plan_block Dict.keys
  plan_step i ids none rest one c =
      (c.0, omega (arith, c.1), λ j plain m r. ground (arith, str_eq_iff i j, c.2 j plain))
  plan_step i ids (some plaintext) rest one c =
      ((ground arith, c.0), omega (arith, c.1), λ j plain m r. ground (arith, c.2 j plain))

  pub plan_blocks-Covers :
      (ids : List String) (plan : Plan)
      → plan_blocks p b d old_key new_key ids ≡ ok plan
      → Covers ids plan
  unfolding plan_blocks
  plan_blocks-Covers [] plan h = rw (← ok-injective h) (tt, refl, λ j plain m r. absurd (cc))
  plan_blocks-Covers (i ∷ ids) plan h =
      let (found, one, h') = >>=-eq-ok (plan_block p b d old_key new_key i) _ h in
      let (rest, others, h'') = map_ok-eq-ok (add_to_plan i found) _ h' in
      rw (← h'') (plan_step i ids found rest one (plan_blocks-Covers ids rest others))

-- the state between two writes of the second loop
pub record IsReady (p : Platform) (b : StorageBackend) (law : IsLawful p.sha256 b)
    (d : DnaStorageBackend b.Store) : Type 0 where
  pub store : b.Store
  pub kept : d.persist ≡ some store
  pub valid : law.IsValid store
  pub odd : IsConfigured d
  pub few : d.ecc_copies < 256

module _ (p : Platform) (a : IsAuthenticated p) (b : StorageBackend) (law : IsLawful p.sha256 b)
    (new_key : Bytes) (supplies : ℕ → Supply)
    (sized : (n : ℕ) → length (supplies n).nonce ≡ nonce_len) where
  -- The sealed plaintexts of the plan fit the header.
  abbrev pub IsShort : Dict Bytes → Type 0
  IsShort = All (λ e. (n : ℕ) → length (encrypt p new_key (supplies n).nonce e.1) < 2 ^ 32)

  -- every block of the plan is in the index
  abbrev pub IsIndexed : DnaStorageBackend b.Store → Dict Bytes → Type 0
  IsIndexed d = All (λ e. contains d.metadata e.0 ≡ true)

  IsReady-HasWritten :
      {d d' : DnaStorageBackend b.Store} {k : String} {plain : Bytes}
      → IsReady p b law d
      → HasWritten p b law d d' new_key k plain
      → IsReady p b law d'
  IsReady-HasWritten r w = record {
    store = w.store;
    kept = w.kept;
    valid = w.valid;
    odd = rw w.same_copies r.odd;
    few = rw w.same_copies r.few;
  }

  IsIndexed-HasWritten :
      {d d' : DnaStorageBackend b.Store} {k : String} {plain : Bytes} (plan : Dict Bytes)
      → HasWritten p b law d d' new_key k plain
      → IsIndexed d plan
      → IsIndexed d' plan
  IsIndexed-HasWritten [] w i = tt
  IsIndexed-HasWritten (e ∷ plan) w i =
      (ground (arith, w.indexed e.0), IsIndexed-HasWritten plan w i.1)

  -- what the second loop leaves
  abbrev pub Rewrites : DnaStorageBackend b.Store → Dict Bytes → DnaStorageBackend b.Store → Type 0
  Rewrites d plan d' =
      (d'.explicit_key ≡ d.explicit_key)
      × ((j : String) (plain : Bytes)
          → All (λ e. e.0 ≡ j → e.1 ≡ plain) plan
          → (mem j (Dict.keys plan) ≡ true) ⊎ (read p b d j new_key ≡ ok plain)
          → read p b d' j new_key ≡ ok plain)

  write_step :
      (d d1 : DnaStorageBackend b.Store) (n : ℕ) (k : String) (plain : Bytes) (plan : Dict Bytes)
      {meta : Metadata} {checksum : String}
      → Dict.get d.metadata k ≡ some meta
      → put_with p b d (supplies n) k plain meta new_key ≡ ok (d1, checksum)
      → write_blocks p b d new_key supplies n ((k, plain) ∷ plan)
        ≡ write_blocks p b d1 new_key supplies (n + 1) plan
  unfolding write_blocks
  write_step d d1 n k plain plan found put = ground arith

  -- What holds before a write of `k` for a later block holds after it.
  after_write :
      {d d1 : DnaStorageBackend b.Store} {k : String} {plain : Bytes} (plan : Dict Bytes)
      → HasWritten p b law d d1 new_key k plain
      → (j : String) (other : Bytes) → (k ≡ j → plain ≡ other)
      → (mem j (Dict.keys ((k, plain) ∷ plan)) ≡ true) ⊎ (read p b d j new_key ≡ ok other)
      → (mem j (Dict.keys plan) ≡ true) ⊎ (read p b d1 j new_key ≡ ok other)
  unfolding Dict.keys
  after_write {d} {d1} {k} {plain} plan w j other same o = elim (Bool-cases (str_eq k j)) [
    | inl this ↦
        let e : k ≡ j = ground (arith, str_eq_iff k j) in inr (rw (← e, ← same e) w.reads_back)
    | inr another ↦ elim o [
      | inl later ↦ inl (ground arith)
      | inr now ↦ inr (rw (w.reads_others j new_key (λ e. ground (arith, str_eq_iff k j))) now)
    ]
  ]

  pub write_blocks-Rewrites :
      (d : DnaStorageBackend b.Store) (n : ℕ) (plan : Dict Bytes)
      → IsReady p b law d
      → IsIndexed d plan
      → IsShort plan
      → (d' : DnaStorageBackend b.Store) × (write_blocks p b d new_key supplies n plan
          ≡ (d', ok tt))
        × Rewrites d plan d'
  unfolding write_blocks Dict.keys
  write_blocks-Rewrites d n [] r i s = (d, refl, (refl, λ j plain same o. ground arith))
  write_blocks-Rewrites d n ((k, plain) ∷ plan) r i s =
      let (meta, found) = is_some-some (Dict.get d.metadata k) i.0 in
      let (d1, put, w) =
        put_with-HasWritten p a b law d (supplies n) k plain meta new_key r.kept r.valid r.odd r.few
          (sized n) (s.0 n) in
      let (d', rest, reads) =
        write_blocks-Rewrites d1 (n + 1) plan (IsReady-HasWritten r w)
          (IsIndexed-HasWritten plan w i.1) s.1 in
      (
        d',
        write_step d d1 n k plain plan found put ∙ rest,
        (
          reads.0 ∙ w.same_key,
          λ j other same o. reads.1 j other same.1 (after_write plan w j other same.0 o),
        ),
      )
