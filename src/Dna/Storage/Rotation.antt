-- ===== src/Dna/Storage/Rotation.antt =====
-- `rotate_key` of dna/storage.py. All blocks are read before any is written; the writes follow one
-- at a time, and an exception between them leaves those that were done.
pub mod Outcome
pub mod Readable
pub mod Rekeyed
use model_db.Prelude.{
  ℕ, ◌+◌, String, Bool, true, false, not, ◌||◌, Option, none, some, List, [], ◌∷◌, ◌==◌,
  if◌then◌else◌, length, list_eq, Result, ok, err, ◌>>=◌, ◌>>◌, map_ok,
}
use model_db.Dict
use model_db.Dict.{Dict}
use model_db.Errors.{Error, value_error, decryption_error}
use model_db.Storage.Interface.{Bytes, Metadata, StorageBackend}
use model_db.Storage.Memory.{item}
use model_db.Platform.{Platform}
use model_db.Dna.Storage.{DnaStorageBackend, Supply, Dna, key_of, put_with, read}

pub record ArchiveRotationReport : Type 0 where
  pub blocks : ℕ
  pub already_current : ℕ

-- `except DecryptionError`
abbrev pub is_decryption_error : Error → Bool
is_decryption_error decryption_error = true
is_decryption_error _ = false

-- `plan` and `already`: the plaintexts to write again, and how many blocks need not be.
abbrev pub Plan : Type 0
Plan = Dict Bytes × ℕ

abbrev pub add_to_plan : String → Option Bytes → Plan → Plan
add_to_plan block_id none (plan, already) = (plan, already + 1)
add_to_plan block_id (some plaintext) (plan, already) = ((block_id, plaintext) ∷ plan, already)

module _ (p : Platform) (b : StorageBackend) where
  -- the body of the first loop: the plaintext of a block under the old key, nothing for one that is
  -- under the new key already
  unfoldable pub plan_block : Dna p b → Bytes → Bytes → String → Result Error (Option Bytes)
  plan_block d old_key new_key block_id = elim (read p b d block_id old_key) [
    | ok plaintext ↦ ok (some plaintext)
    | err e ↦
        if is_decryption_error e then (read p b d block_id new_key >>= λ _. ok none) else err e
  ]

  unfoldable pub plan_blocks : Dna p b → Bytes → Bytes → List String → Result Error Plan
  plan_blocks d old_key new_key [] = ok ([], 0)
  plan_blocks d old_key new_key (block_id ∷ ids) =
      let rest = plan_blocks d old_key new_key ids in
      plan_block d old_key new_key block_id >>= λ found. map_ok (add_to_plan block_id found) rest

  -- the second loop; the n-th write has the n-th supply
  unfoldable pub write_blocks :
      Dna p b → Bytes → (ℕ → Supply) → ℕ → Dict Bytes → Dna p b × Result Error (Unit {0})
  write_blocks d new_key supplies n [] = (d, ok tt)
  write_blocks d new_key supplies n ((block_id, plaintext) ∷ plan) =
      elim (item (Dict.get d.metadata block_id) >>= λ meta.
      put_with p b d (supplies n) block_id plaintext meta new_key) [
        | ok (d', _) ↦ write_blocks d' new_key supplies (n + 1) plan
        | err e ↦ (d, err e)
      ]

  -- the end of the call, after the plan was made
  unfoldable pub carry_out :
      Dna p b → Bytes → (ℕ → Supply) → Plan → Dna p b × Result Error ArchiveRotationReport
  carry_out d new_key supplies (plan, already) =
      let (d', done) = write_blocks d new_key supplies 0 plan in
      elim done [
        | ok _ ↦ (
          record d' { explicit_key = some new_key },
          ok (record { blocks = length plan; already_current = already }),
        )
        | err e ↦ (d', err e)
      ]

  unfoldable pub rotate_key :
      Bytes → Dna p b → Bytes → (ℕ → Supply) → Dna p b × Result Error ArchiveRotationReport
  rotate_key default_key d new_key supplies =
      let old_key = key_of p b default_key d in
      if not (length new_key == 32) || list_eq new_key old_key
      then (d, err value_error)
      else elim (plan_blocks d old_key new_key (Dict.keys d.metadata)) [
        | err e ↦ (d, err e)
        | ok plan ↦ carry_out d new_key supplies plan
      ]
