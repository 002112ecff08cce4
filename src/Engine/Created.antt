-- ===== src/Engine/Created.antt =====
-- What `create` leaves in a storage that keeps a block for each record.
use model_db.Prelude.{
  String, ◌≡◌, refl, sym, ap, ◌∙◌, inl, inr, true, false, ◌&&◌, none, some, [], ◌∷◌, if◌then◌else◌,
  Bool-cases, Option-cases, is_some, Result, ok, err, Result-cases, >>=-eq-ok, ok-injective, str_eq,
  codes, is_id,
}
use model_db.Schema.{Values, SchemaRegistry, has_collection, get_collection, validate_record}
use model_db.Schema.Validated.{validate_record_sound}
use model_db.Storage.Interface.{Bytes, StorageBackend, IsLawful}
use model_db.Dict
use model_db.Engine.{
  EngineError, Comparisons, Texts, Record, CreateOperation, OperationResult, Moment, MdcDataEngine,
}
use model_db.Engine.Records.{lift_schema, block_id, put_record, has_record, get_record}
use model_db.Engine.Creating.{new_record, create, chosen_id}
use model_db.Engine.Effects.{id_of}

-- The JSON text of a record reads back as the record.
abbrev pub IsPlain : {v : Values} → Texts v → Record v → Type 0
IsPlain x r = x.load (x.dump r) ≡ some r

has_collection-known :
    (registry : SchemaRegistry) (collection : String) {schema : _}
    → get_collection registry collection ≡ ok schema
    → has_collection registry collection ≡ true
unfolding get_collection
has_collection-known registry collection h = elim (Option-cases (Dict.get registry collection)) [
  | inl unknown ↦ absurd (cc (rw (unknown, get_collection) at h))
  | inr (_, known) ↦ rw known refl
]

pub lift_schema-ok : {A : Type 0} (r : _) {a : A} → lift_schema r ≡ ok a → r ≡ ok a
lift_schema-ok (ok a) h = ap ok (ok-injective h)
lift_schema-ok (err _) h = absurd (cc)

module _ (b : StorageBackend) {v : Values} (w : Comparisons v) (x : Texts v) where
  -- what a new record is
  pub new_record-fields :
      (m : Moment) (op : CreateOperation v) (s : MdcDataEngine b) (r : Record v)
      → new_record b w x none m op s ≡ ok r
      → (has_collection s.schema op.collection ≡ true)
        × (r.collection ≡ op.collection)
        × (r.version ≡ 1)
        × (chosen_id b w x none m op.collection op.record_id ≡ ok r.record_id)
        × (validate_record v s.schema op.collection op.data_fields false ≡ ok r.fields)
  unfolding new_record
  new_record-fields m op s r h =
      let (validated, accepted, h1) =
        >>=-eq-ok (lift_schema (validate_record v s.schema op.collection op.data_fields false)) _
          h in
      let (i, chosen, h2) = >>=-eq-ok (chosen_id b w x none m op.collection op.record_id) _ h1 in
      let known = lift_schema-ok _ accepted in
      let sound =
        validate_record_sound v s.schema op.collection op.data_fields false validated known in
      let made = ok-injective h2 in
      (
        has_collection-known s.schema op.collection sound.1,
        ap (λ t. t.collection) (sym made),
        ap (λ t. t.version) (sym made),
        chosen ∙ ap (λ t. ok t.record_id) made,
        known ∙ ap (λ t. ok t.fields) made,
      )

  pub chosen_id-some :
      (m : Moment) (collection i j : String)
      → chosen_id b w x none m collection (some i) ≡ ok j
      → j ≡ i
  chosen_id-some m collection i j h = elim (Bool-cases (is_id (codes i))) [
    | inl good ↦ sym (ok-injective (rw good at h))
    | inr bad ↦ absurd (cc (rw bad at h))
  ]

  pub get_record-plain :
      (s : MdcDataEngine b) (collection i : String) (r : Record v)
      → has_collection s.schema collection ≡ true
      → b.get s.storage (block_id collection i) ≡ ok (x.dump r)
      → IsPlain x r
      → get_record b w x none s collection i ≡ ok (some r)
  unfolding get_record
  get_record-plain s collection i r known there plain = rw (known, there, plain) refl

  pub get_record-same :
      (s s' : MdcDataEngine b) (collection i : String)
      → s'.schema ≡ s.schema
      → b.get s'.storage (block_id collection i) ≡ b.get s.storage (block_id collection i)
      → get_record b w x none s' collection i ≡ get_record b w x none s collection i
  unfolding get_record
  get_record-same s s' collection i same there = rw (same, there) refl

module _ {sha256 : Bytes → String} {b : StorageBackend} (law : IsLawful sha256 b) {v : Values}
    (w : Comparisons v) (x : Texts v) where
  get_record-put :
      (s : MdcDataEngine b) (r : Record v) (collection i : String)
      → IsPlain x r
      → has_collection s.schema collection ≡ true
      → get_record b w x none (put_record b w x none false r s).0 collection i ≡ (
          if str_eq (id_of r) (block_id collection i)
          then ok (some r)
          else get_record b w x none s collection i)
  unfolding put_record
  get_record-put s r collection i plain known =
      let there =
        law.get-put s.storage r.updated_at (id_of r) (block_id collection i) (x.dump r) _ in
      elim (Bool-cases (str_eq (id_of r) (block_id collection i))) [
        | inl same ↦
            rw same (get_record-plain b w x _ collection i r known (there ∙ rw same refl) plain)
        | inr other ↦ rw other (get_record-same b w x s _ collection i refl (there ∙ rw other refl))
      ]

  -- If `create` returns, then its one record is of the collection, has version 1, the fields that the
  -- registry accepted and the id that was asked for, which no record had; and if its JSON text reads
  -- back, then `get_record` finds it, and finds under every other block id what it found before.
  pub create-Stores :
      (m : Moment) (op : CreateOperation v) (s s' : MdcDataEngine b) (res : OperationResult v)
      → create b w x none m op s ≡ (s', ok res)
      → (r : Record v) × (res.records ≡ r ∷ [])
        × (r.collection ≡ op.collection)
        × (r.version ≡ 1)
        × (validate_record v s.schema op.collection op.data_fields false ≡ ok r.fields)
        × ((i : String)
            → op.record_id ≡ some i
            → (r.record_id ≡ i) × (has_record b w x none s op.collection i ≡ false))
        × (IsPlain x r
            → (collection i : String) → has_collection s.schema collection ≡ true
            → get_record b w x none s' collection i ≡ (
                if str_eq (id_of r) (block_id collection i)
                then ok (some r)
                else get_record b w x none s collection i))
  unfolding create put_record
  create-Stores m op s s' res h = elim (Result-cases (new_record b w x none m op s)) [
    | inr (e, bad) ↦ absurd (cc (rw (create, bad) at h))
    | inl (r, made) ↦
        elim (Bool-cases
          (is_some op.record_id && has_record b w x none s op.collection r.record_id)) [
            | inl taken ↦ absurd (cc (rw (create, made, taken) at h))
            | inr free ↦
                let (known, same, first, chosen, fields) = new_record-fields b w x m op s r made in
                let done : ◌≡◌ {A = MdcDataEngine b × Result EngineError (OperationResult v)}
                    (
                      (put_record b w x none false r s).0,
                      ok (record {
                        kind = "CREATE";
                        collection = op.collection;
                        records = r ∷ [];
                        count = 1;
                      }),
                    )
                    (s', ok res) =
                  rw (create, made, free) at h in
                (
                  r,
                  ap (λ t. t.records) (sym (ok-injective (ap (λ t. t.1) done))),
                  same,
                  first,
                  fields,
                  λ i e.
                      let named : r.record_id ≡ i =
                        chosen_id-some b w x m op.collection i r.record_id (rw e at chosen) in
                      let absent : has_record b w x none s op.collection r.record_id ≡ false =
                        rw e at free in
                      (named, rw (← named) absent),
                  λ plain collection i there.
                      rw (← ap (λ t. t.0) done) (get_record-put s r collection i plain there),
                )
          ]
  ]
