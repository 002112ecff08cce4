-- ===== src/Engine/Changed.antt =====
-- What `update` and `delete` leave in a storage that keeps a block for each record.
use model_db.Prelude.{
  ℕ, String, ◌≡◌, refl, ap, ◌∙◌, inl, inr, true, none, some, List, [], ◌∷◌, map, if◌then◌else◌,
  Bool-cases, length, All, Result, ok, Result-cases, ok-injective,
}
use model_db.Schema.{Values, has_collection, validate_record}
use model_db.Storage.Interface.{Bytes, StorageBackend, IsLawful}
use model_db.Engine.{
  EngineError, Comparisons, Texts, Record, UpdateOperation, DeleteOperation, OperationResult,
  MdcDataEngine,
}
use model_db.Engine.Records.{lift_schema, block_id, get_record, matching}
use model_db.Engine.Calls.{updated_record, update, delete, is_empty, remove_all}
use model_db.Engine.Effects.{
  id_of, IsOther, AreDistinct, after_puts, schema-after_puts, get-after_puts, get-after_puts_other,
  update_all-after, schema-remove_all, is_one_of, get-remove_all,
}
use model_db.Engine.Updated.{AreUpdated, map-AreUpdated}
use model_db.Schema.Validated.{validate_record-IsUnique}
use model_db.Engine.Created.{IsPlain, lift_schema-ok, get_record-plain, get_record-same}

module _ {sha256 : Bytes → String} {b : StorageBackend} (law : IsLawful sha256 b) {v : Values}
    (w : Comparisons v) (x : Texts v) where
  -- `get_record` finds a record that is in its block
  abbrev pub IsFound : MdcDataEngine b → MdcDataEngine b → Record v → Type 0
  IsFound s s' r =
      has_collection s.schema r.collection ≡ true
      → get_record b w x none s' r.collection r.record_id ≡ ok (some r)

  -- Written records are found.
  pub get_record-after :
      (rs : List (Record v)) (s s' : MdcDataEngine b)
      → s'.schema ≡ s.schema
      → All (IsPlain x) rs
      → All (λ r. b.get s'.storage (id_of r) ≡ ok (x.dump r)) rs
      → All (IsFound s s') rs
  get_record-after [] s s' same _ _ = tt
  get_record-after (r ∷ rs) s s' same (plain, plains) (there, rest) = (
    λ known. get_record-plain b w x s' r.collection r.record_id r (rw same known) there plain,
    get_record-after rs s s' same plains rest,
  )

  -- On a storage that keeps a block for each record: if `update` returns, then its records are those
  -- that match the filters, each with its id, collection and time of creation, the version counted up
  -- by one, the time of the update, the accepted values under their keys, every other field as it was,
  -- and the checksum of the new fields; if no two of them have the same block id and their JSON texts
  -- read back, then `get_record` finds each of them, and under a block id that none of the matching
  -- records has it finds what it found before.
  pub update-Changes :
      (now : ℕ) (op : UpdateOperation v) (s s' : MdcDataEngine b) (res : OperationResult v)
      → update b w x none now op s ≡ (s', ok res)
      → (rs : List (Record v)) × (validated : _) × (matching b w x none op.collection op.filters
            none s
          ≡ ok rs)
        × (validate_record v s.schema op.collection op.data_fields true ≡ ok validated)
        × AreUpdated x now validated rs res.records
        × (AreDistinct res.records → All (IsPlain x) res.records → All (IsFound s s') res.records)
        × ((collection i : String)
            → IsOther (block_id collection i) res.records
            → get_record b w x none s' collection i ≡ get_record b w x none s collection i)
  unfolding update
  update-Changes now op s s' res h =
      elim (Result-cases (matching b w x none op.collection op.filters none s)) [
        | inr (e, bad) ↦ absurd (cc (rw (update, bad) at h))
        | inl (rs, matched) ↦ elim (Bool-cases (is_empty rs)) [
          | inl nothing ↦ absurd (cc (rw (update, matched, nothing) at h))
          | inr something ↦
              elim (Result-cases
                (lift_schema (validate_record v s.schema op.collection op.data_fields true))) [
                  | inr (e, bad) ↦ absurd (cc (rw (update, matched, something, bad) at h))
                  | inl (validated, accepted) ↦
                      let valid = lift_schema-ok _ accepted in
                      let changed = map (updated_record b w x none now validated) rs in
                      let done : ◌≡◌ {A = MdcDataEngine b × Result EngineError (OperationResult v)}
                          (
                            after_puts law w x changed s,
                            ok (record {
                              kind = "UPDATE";
                              collection = op.collection;
                              records = changed;
                              count = length changed;
                            }),
                          )
                          (s', ok res) =
                        rw
                          (
                            update,
                            matched,
                            something,
                            accepted,
                            update_all-after law w x now validated rs s,
                          )
                          at h in
                      let same : changed ≡ res.records =
                        ap (λ t. t.records) (ok-injective (ap (λ t. t.1) done)) in
                      let final : after_puts law w x changed s ≡ s' = ap (λ t. t.0) done in
                      (
                        rs,
                        validated,
                        matched,
                        valid,
                        rw (← same) (
                            map-AreUpdated x now validated b w
                              (validate_record-IsUnique v s.schema op.collection op.data_fields
                                valid)
                              rs),
                        rw (← same, ← final)
                            (λ distinct plain.
                              get_record-after changed s (after_puts law w x changed s)
                                (schema-after_puts law w x changed s) plain
                                (get-after_puts law w x changed s distinct)),
                        rw (← same, ← final)
                            (λ collection i other.
                              get_record-same b w x s (after_puts law w x changed s) collection i
                                (schema-after_puts law w x changed s)
                                (get-after_puts_other law w x changed s (block_id collection i)
                                  other)),
                      )
                ]
        ]
      ]

  get_record-removed :
      (rs : List (Record v)) (s : MdcDataEngine b) (collection i : String)
      → has_collection s.schema collection ≡ true
      → get_record b w x none (remove_all b w x none rs s) collection i ≡ (
          if is_one_of law w x (block_id collection i) rs
          then ok none
          else get_record b w x none s collection i)
  unfolding get_record
  get_record-removed rs s collection i known =
      rw
        (schema-remove_all law w x rs s, known, get-remove_all law w x rs s (block_id collection i))
        (elim (Bool-cases (is_one_of law w x (block_id collection i) rs)) [
          | inl one ↦ rw one refl
          | inr other ↦ rw other refl
        ])

  -- If `delete` returns, then its records are those that match the filters; `get_record` finds none
  -- of them any more, and finds under every other block id what it found before.
  pub delete-Removes :
      (op : DeleteOperation v) (s s' : MdcDataEngine b) (res : OperationResult v)
      → delete b w x none op s ≡ (s', ok res)
      → (matching b w x none op.collection op.filters none s ≡ ok res.records)
        × ((collection i : String)
            → has_collection s.schema collection ≡ true
            → get_record b w x none s' collection i ≡ (
                if is_one_of law w x (block_id collection i) res.records
                then ok none
                else get_record b w x none s collection i))
  unfolding delete
  delete-Removes op s s' res h =
      elim (Result-cases (matching b w x none op.collection op.filters none s)) [
        | inr (e, bad) ↦ absurd (cc (rw (delete, bad) at h))
        | inl (rs, matched) ↦ elim (Bool-cases (is_empty rs)) [
          | inl nothing ↦ absurd (cc (rw (delete, matched, nothing) at h))
          | inr something ↦
              let done : ◌≡◌ {A = MdcDataEngine b × Result EngineError (OperationResult v)}
                  (
                    remove_all b w x none rs s,
                    ok (record {
                      kind = "DELETE";
                      collection = op.collection;
                      records = rs;
                      count = length rs;
                    }),
                  )
                  (s', ok res) =
                rw (delete, matched, something) at h in
              let same : rs ≡ res.records =
                ap (λ t. t.records) (ok-injective (ap (λ t. t.1) done)) in
              let final : remove_all b w x none rs s ≡ s' = ap (λ t. t.0) done in
              (
                matched ∙ ap ok same,
                λ collection i known.
                    rw (← final, ← same) (get_record-removed rs s collection i known),
              )
        ]
      ]
