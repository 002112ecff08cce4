-- ===== src/Dna/Storage/Rotation/Outcome.antt =====
-- What a key rotation does to the archive as a whole.
use model_db.Prelude.{
  ℕ, ◌+◌, ◌^◌, ◌<◌, String, ◌≡◌, refl, sym, ◌∙◌, inl, inr, true, false, not, ◌||◌, some, [], ◌∷◌,
  arith, ◌==◌, ==_iff, Bool-cases, length, list_eq, ok, err, is_ok-ok, Result-cases,
}
use model_db.Dict
use model_db.Dict.{Dict, contains}
use model_db.Dict.Keys.{mem-keys}
use model_db.Errors.{Error, value_error}
use model_db.Storage.Interface.{Bytes, StorageBackend, IsLawful}
use model_db.Platform.{Platform, IsAuthenticated}
use model_db.Dna.Crypto.{nonce_len, encrypt}
use model_db.Dna.Storage.{DnaStorageBackend, Supply, key_of, read, copies_of, get}
use model_db.Dna.Storage.Rotation.{
  ArchiveRotationReport, Plan, plan_blocks, write_blocks, carry_out, rotate_key,
}
use model_db.Dna.Storage.Rotation.Rekeyed.{
  Reads, IsRead, plan_blocks-Covers, IsReady, IsShort, write_blocks-Rewrites,
}
use model_db.Dna.Storage.Rotation.Readable.{
  is_ok-plan_blocks, Reads-plan_blocks, IsIndexed-IsRead, one_plaintext,
}

-- Every block of the index can be read by one of the two keys.
abbrev pub IsReadable :
    (p : Platform) (b : StorageBackend) → DnaStorageBackend b.Store → Bytes → Bytes → Type 0
IsReadable p b d old_key new_key =
    (j : String)
    → contains d.metadata j ≡ true
    → (plain : Bytes) × Reads p b d old_key new_key j plain

-- Whatever the archive holds is short enough to be sealed again.
abbrev pub IsSealable :
    (p : Platform) (b : StorageBackend)
    → DnaStorageBackend b.Store
    → Bytes
    → Bytes
    → (ℕ → Supply)
    → Type 0
IsSealable p b d old_key new_key supplies =
    (j : String) (plain : Bytes)
    → read p b d j old_key ≡ ok plain
    → (n : ℕ) → length (encrypt p new_key (supplies n).nonce plain) < 2 ^ 32

IsShort-IsRead :
    (p : Platform) (a : IsAuthenticated p) (b : StorageBackend) (law : IsLawful p.sha256 b)
    (d : DnaStorageBackend b.Store) (old_key new_key : Bytes) (supplies : ℕ → Supply)
    (sized : (n : ℕ) → length (supplies n).nonce ≡ nonce_len) (plan : Dict Bytes)
    → IsSealable p b d old_key new_key supplies
    → IsRead p b d old_key new_key plan
    → IsShort p a b law new_key supplies sized plan
IsShort-IsRead p a b law d old_key new_key supplies sized [] s h = tt
IsShort-IsRead p a b law d old_key new_key supplies sized (e ∷ plan) s h =
    (s e.0 e.1 h.0, IsShort-IsRead p a b law d old_key new_key supplies sized plan s h.1)

module _ (p : Platform) (a : IsAuthenticated p) (b : StorageBackend) (law : IsLawful p.sha256 b)
    (d : DnaStorageBackend b.Store) (default_key new_key : Bytes) (supplies : ℕ → Supply)
    (sized : (n : ℕ) → length (supplies n).nonce ≡ nonce_len) where
  -- A valid new key, other than the one in use.
  abbrev pub IsNew : Type 0
  IsNew = (length new_key ≡ 32) × (list_eq new_key (key_of p b default_key d) ≡ false)

  carried_out :
      (d' : DnaStorageBackend b.Store) (todo : Dict Bytes) (already : ℕ)
      → write_blocks p b d new_key supplies 0 todo ≡ (d', ok tt)
      → carry_out p b d new_key supplies (todo, already) ≡ (
        record d' { explicit_key = some new_key },
        ok (record { blocks = length todo; already_current = already }),
      )
  unfolding carry_out
  carried_out d' todo already written = ground arith

  carried :
      (d' : DnaStorageBackend b.Store) (plan : Plan)
      → IsNew
      → plan_blocks p b d (key_of p b default_key d) new_key (Dict.keys d.metadata) ≡ ok plan
      → write_blocks p b d new_key supplies 0 plan.0 ≡ (d', ok tt)
      → rotate_key p b default_key d new_key supplies ≡ (
        record d' { explicit_key = some new_key },
        ok (record { blocks = length plan.0; already_current = plan.1 }),
      )
  unfolding rotate_key
  carried d' (todo, already) new planned written =
      let size : (length new_key == 32) ≡ true =
        ground (arith, ==_iff (length new_key) 32, new.0) in
      rw (size, new.1, planned) (carried_out d' todo already written)

  -- A rotation to a new key of 32 bytes succeeds whenever each block of a durable archive can be
  -- read by the old key or, after a DecryptionError, by the new one. The object then uses the new
  -- key, the report accounts for every block, and `get` returns for each what it held before.
  pub rotate_key-rereads :
      IsReady p b law d
      → IsNew
      → IsReadable p b d (key_of p b default_key d) new_key
      → IsSealable p b d (key_of p b default_key d) new_key supplies
      → (d' : DnaStorageBackend b.Store) × (report : ArchiveRotationReport) × (rotate_key p b
            default_key d new_key supplies
          ≡ (d', ok report))
        × (d'.explicit_key ≡ some new_key)
        × (report.blocks + report.already_current ≡ length (Dict.keys d.metadata))
        × ((j : String) (plain : Bytes)
            → contains d.metadata j ≡ true
            → Reads p b d (key_of p b default_key d) new_key j plain
            → get p b default_key d' j ≡ ok plain)
  unfolding get read copies_of
  rotate_key-rereads r new readable sealable =
      let ids = Dict.keys d.metadata in
      let old_key = key_of p b default_key d in
      let (plan, planned) = is_ok-ok (plan_blocks p b d old_key new_key ids) (
        is_ok-plan_blocks p b d old_key new_key ids
          (λ j m. readable j (sym (mem-keys d.metadata j) ∙ m))) in
      let (is_read, counted, covers) = plan_blocks-Covers p b d old_key new_key ids plan planned in
      let (d', written, (_, reads)) =
        write_blocks-Rewrites p a b law new_key supplies sized d 0 plan.0 r
          (IsIndexed-IsRead p b d old_key new_key plan.0 r.kept is_read)
          (IsShort-IsRead p a b law d old_key new_key supplies sized plan.0 sealable is_read) in
      (
        record d' { explicit_key = some new_key },
        record { blocks = length plan.0; already_current = plan.1 },
        carried d' plan new planned written,
        refl,
        counted,
        λ j plain m was.
            reads j plain (one_plaintext p b d old_key new_key plan.0 j plain is_read was)
              (covers j plain (mem-keys d.metadata j ∙ m) was),
      )

module _ (p : Platform) (b : StorageBackend) (d : DnaStorageBackend b.Store)
    (default_key new_key : Bytes) (supplies : ℕ → Supply) where
  refused :
      (e : Error)
      → plan_blocks p b d (key_of p b default_key d) new_key (Dict.keys d.metadata) ≡ err e
      → (e' : Error) × (rotate_key p b default_key d new_key supplies ≡ (d, err e'))
  unfolding rotate_key
  refused e failed =
      elim (Bool-cases (not (length new_key == 32) || list_eq new_key (key_of p b default_key d))) [
        | inl bad ↦ (value_error, rw bad refl)
        | inr good ↦ (e, rw (good, failed) refl)
      ]

  -- If one block of the index can be read by neither key, the rotation raises and the archive, its
  -- key and its durable store are what they were.
  pub rotate_key-unreadable :
      (j : String)
      → contains d.metadata j ≡ true
      → ((plain : Bytes) → ¬ Reads p b d (key_of p b default_key d) new_key j plain)
      → (e : Error) × (rotate_key p b default_key d new_key supplies ≡ (d, err e))
  unfolding rotate_key
  rotate_key-unreadable j m unread =
      elim (Result-cases
        (plan_blocks p b d (key_of p b default_key d) new_key (Dict.keys d.metadata))) [
          | inl (plan, planned) ↦
              let (plain, r) =
                Reads-plan_blocks p b d (key_of p b default_key d) new_key (Dict.keys d.metadata) j
                  planned (mem-keys d.metadata j ∙ m) in
              absurd (unread plain r)
          | inr (e, failed) ↦ refused e failed
        ]
