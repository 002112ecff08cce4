-- ===== src/Dna/Storage/Rotation/Readable.antt =====
-- When the planning loop of a key rotation succeeds, and what the plan then holds.
use model_db.Prelude.{
  String, ◌≡◌, refl, sym, ap, ◌∙◌, inl, inr, true, Option, none, some, List, [], ◌∷◌, arith,
  if◌then◌else◌, Bool-cases, All, Result, ok, err, ◌>>=◌, is_ok, Result-cases, >>=-eq-ok,
  ok-injective, map_ok-eq-ok, str_eq, str_eq_iff,
}
use model_db.Dict.{Dict, contains}
use model_db.Dict.Keys.{mem}
use model_db.Errors.{
  Error, key_error, value_error, index_error, struct_error, assertion_error, compression_error,
  zlib_error, compression_not_available, object_not_found, object_unavailable, data_integrity,
  dna_decode_error, decryption_error,
}
use model_db.Storage.Interface.{Bytes, StorageBackend}
use model_db.Platform.{Platform}
use model_db.Dna.Storage.{DnaStorageBackend, read, copies_of}
use model_db.Dna.Storage.Rotation.{is_decryption_error, Plan, plan_block, plan_blocks, add_to_plan}
use model_db.Dna.Storage.Rotation.Rekeyed.{Reads, IsRead}

-- The second attempt at a block, under the new key, succeeds after a DecryptionError only.
second_read :
    (e : Error) (r : Result Error Bytes) {found : Option Bytes}
    → (if is_decryption_error e then (r >>= λ _. ok none) else err e) ≡ ok found
    → (plain : Bytes) × (e ≡ decryption_error) × (r ≡ ok plain)
second_read decryption_error (ok plain) h = (plain, refl, refl)
second_read decryption_error (err e) h = absurd (cc)
second_read key_error r h = absurd (cc)
second_read value_error r h = absurd (cc)
second_read index_error r h = absurd (cc)
second_read struct_error r h = absurd (cc)
second_read assertion_error r h = absurd (cc)
second_read compression_error r h = absurd (cc)
second_read zlib_error r h = absurd (cc)
second_read (compression_not_available _) r h = absurd (cc)
second_read (object_not_found _) r h = absurd (cc)
second_read (object_unavailable _ _) r h = absurd (cc)
second_read (data_integrity _) r h = absurd (cc)
second_read dna_decode_error r h = absurd (cc)

module _ (p : Platform) (b : StorageBackend) (d : DnaStorageBackend b.Store)
    (old_key new_key : Bytes) where
  plan_block-Reads :
      (j : String) {plain : Bytes}
      → Reads p b d old_key new_key j plain
      → is_ok (plan_block p b d old_key new_key j) ≡ true
  unfolding plan_block
  plan_block-Reads j (inl h) = ground arith
  plan_block-Reads j (inr h) = ground arith

  Reads-plan_block :
      (j : String) {found : Option Bytes}
      → plan_block p b d old_key new_key j ≡ ok found
      → (plain : Bytes) × Reads p b d old_key new_key j plain
  unfolding plan_block
  Reads-plan_block j h = elim (Result-cases (read p b d j old_key)) [
    | inl (plain, e) ↦ (plain, inl e)
    | inr (e, failed) ↦
        let (plain, e_is, again) =
          second_read e (read p b d j new_key) (rw (plan_block, failed) at h) in
        (plain, inr (failed ∙ ap err e_is, again))
  ]

  pub is_ok-plan_blocks :
      (ids : List String)
      → ((j : String) → mem j ids ≡ true → (plain : Bytes) × Reads p b d old_key new_key j plain)
      → is_ok (plan_blocks p b d old_key new_key ids) ≡ true
  unfolding plan_blocks
  is_ok-plan_blocks [] h = refl
  is_ok-plan_blocks (i ∷ ids) h =
      let first = plan_block-Reads i (h i (ground (arith, str_eq_iff i i))).1 in
      let others = is_ok-plan_blocks ids (λ j m. h j (ground arith)) in ground arith

  pub Reads-plan_blocks :
      (ids : List String) (j : String) {plan : Plan}
      → plan_blocks p b d old_key new_key ids ≡ ok plan
      → mem j ids ≡ true
      → (plain : Bytes) × Reads p b d old_key new_key j plain
  unfolding plan_blocks
  Reads-plan_blocks [] j h m = absurd (cc)
  Reads-plan_blocks (i ∷ ids) j h m =
      let (found, one, h') = >>=-eq-ok (plan_block p b d old_key new_key i) _ h in
      let (rest, others, _) = map_ok-eq-ok (add_to_plan i found) _ h' in
      elim (Bool-cases (str_eq i j)) [
        | inl this ↦
            let e : i ≡ j = ground (arith, str_eq_iff i j) in rw (← e) (Reads-plan_block i one)
        | inr another ↦ Reads-plan_blocks ids j others (ground arith)
      ]

  pub contains-read :
      {store : b.Store} (k : String) (key : Bytes) {plain : Bytes}
      → d.persist ≡ some store
      → read p b d k key ≡ ok plain
      → contains d.metadata k ≡ true
  unfolding read copies_of
  contains-read k key kept h = ground (arith, kept)

  pub IsIndexed-IsRead :
      {store : b.Store} (plan : Dict Bytes)
      → d.persist ≡ some store
      → IsRead p b d old_key new_key plan
      → All (λ e. contains d.metadata e.0 ≡ true) plan
  IsIndexed-IsRead [] kept h = tt
  IsIndexed-IsRead (e ∷ plan) kept h =
      (contains-read e.0 old_key kept h.0, IsIndexed-IsRead plan kept h.1)

  one :
      {i j : String} {first plain : Bytes}
      → i ≡ j
      → read p b d i old_key ≡ ok first
      → Reads p b d old_key new_key j plain
      → first ≡ plain
  one {i} {j} here h (inl r) = ok-injective (sym h ∙ rw here r)
  one {i} {j} here h (inr r) = absurd (cc)

  pub one_plaintext :
      (plan : Dict Bytes) (j : String) (plain : Bytes)
      → IsRead p b d old_key new_key plan
      → Reads p b d old_key new_key j plain
      → All (λ e. e.0 ≡ j → e.1 ≡ plain) plan
  one_plaintext [] j plain h r = tt
  one_plaintext (e ∷ plan) j plain h r = (λ here. one here h.0 r, one_plaintext plan j plain h.1 r)
