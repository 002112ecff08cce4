-- ===== src/Events/Store/Rotation.antt =====
-- events/store.py: the change of the master key, which opens and seals every record again in memory
-- before it writes the first. A write may raise: the outage is an argument.
pub mod Forgotten
pub mod Interrupted
pub mod Stopped
use model_db.Prelude.{
  ℕ, zero, suc, ◌+◌, ◌-◌, ◌*◌, ◌/◌, ◌%◌, ◌^◌, ◌≤◌, ◌<◌, String, ◌≡◌, refl, sym, ap, ◌∙◌, fun_ext,
  ◌≢◌, ◌↔◌, ◌⊎◌, inl, inr, Bool, true, false, not, ◌&&◌, ◌||◌, Option, none, some, List, [], ◌∷◌,
  ◌++◌, map, arith, ltb, leb, ◌==◌, ==_iff, if◌then◌else◌, leb→le, ltb→lt, Bool-cases, Option-cases,
  is_some, is_some-some, some_injective, length, get_elem?, take, drop, replicate, keep, all_of,
  any_of, All, length-append, take-length-append, drop-length-append, length-replicate, list_eq,
  list_eq_iff, get_or, has_prefix, has_prefix-append, Result, ok, err, ◌>>=◌, ◌>>◌, guard, map_ok,
  is_ok, is_ok-ok, Result-cases, >>=-eq-ok, >>-eq-ok, ok-injective, map_ok-eq-ok, str_eq,
  str_eq_iff, str_eq_refl, ◌+ˢ◌, +ˢ_cancel_left, str_eq-prefix, codes, codes-append,
  codes_injective, ◌+ᶜ◌, Action, resume, ◌>>=ᴹ◌, pure, reads, sorted, insert_sorted, sorted-Perm,
  sorted-IsSorted, IsSorted, IsWeakOrder, All-sorted, reads-eq-ok, reads-eq-err, is_id_char, is_id,
  id_rest,
}
use model_db.Storage.Interface.{Bytes, Metadata, text, StorageBackend, Outage, next_write}
use model_db.Events.Errors.{EventError, invalid_event, value_error, stream_corrupt}
use model_db.Events.Sealing.{seal, open_sealed}
use model_db.Events.Store.{
  Environment, EventStore, Method, RotationReport, snapshot_prefix, starts_with, seq_of,
}
use model_db.Events.Store.Reading.{lift, block_ids}
use model_db.Events.Store.Listing.{list_streams_in}
use model_db.Events.Store.Writing.{write_keycheck, open_keycheck, check_key}
use model_db.Events.Store.Requests.{
  keycheck_id, keycheck_stream, key_for, record_metadata, store_block,
}

-- a block to write again: its id, its metadata and the new bytes
abbrev pub Planned : Type 0
Planned = String × Metadata × Bytes

-- the plan and the count of records that are under the new key already
abbrev pub Plan : Type 0
Plan = List Planned × ℕ

-- whether a key check opens
abbrev pub is_open : Result EventError Bytes → Result EventError Bool
is_open (ok _) = ok true
is_open (err (stream_corrupt _)) = ok false
is_open (err x) = err x

module _ (b : StorageBackend) (e : Environment) where
  -- `_kind_and_seq`
  unfoldable pub kind_and_seq : String → String × ℕ
  kind_and_seq x =
      let seq = seq_of e x in
      if starts_with snapshot_prefix x
      then ("snapshot", seq)
      else (if seq == 0 then "base" else "event", seq)

  -- `_finished_under`
  unfoldable pub finished_under : Bytes → EventStore b → Result EventError Bool
  finished_under master s =
      if b.exists s.storage keycheck_id then is_open (open_keycheck b e master s) else ok false

  module _ (now : ℕ) (nonces : String → Bytes) (old_master new_master : Bytes) where
    -- a record that opens under the new key, after the old one failed
    abbrev pub count_current : String → Plan → Result EventError Bytes → Result EventError Plan
    count_current stream (plan, already) (ok _) = ok (plan, already + 1)
    count_current stream plan (err x) = err (stream_corrupt stream)

    abbrev pub reseal :
        String
        → String
        → String
        → ℕ
        → Bytes
        → Plan
        → Result EventError Bytes
        → Result EventError Plan
    reseal stream x kind seq blob (plan, already) (ok plain) =
        let meta =
          record_metadata stream (if str_eq kind "snapshot" then "snapshot" else "event") in
        ok (
          plan
              ++ ((
                x,
                meta,
                seal e.platform e.texts (nonces x) (key_for e new_master stream) stream kind seq
                    plain,
              )
                  ∷ []),
          already,
        )
    reseal stream x kind seq blob plan (err _) =
        count_current stream plan
          (open_sealed e.platform e.texts (key_for e new_master stream) stream kind seq blob)

    -- the loop over the blocks of one stream
    unfoldable pub plan_blocks : b.Store → String → Plan → List String → Result EventError Plan
    plan_blocks s stream plan [] = ok plan
    plan_blocks s stream plan (x ∷ ids) =
        let (kind, seq) = kind_and_seq x in
        lift (b.get s x) >>= λ blob.
        reseal stream x kind seq blob plan
          (open_sealed e.platform e.texts (key_for e old_master stream) stream kind seq blob)
        >>= λ plan'. plan_blocks s stream plan' ids

    -- the loop over the streams
    unfoldable pub plan_streams : b.Store → Plan → List (String × ℕ) → Result EventError Plan
    plan_streams s plan [] = ok plan
    plan_streams s plan ((stream, _) ∷ streams) =
        plan_blocks s stream plan
          (block_ids b e s stream "event" ++ block_ids b e s stream "snapshot")
        >>= λ plan'. plan_streams s plan' streams

    -- the loop that writes; it gives what is left of the outage
    unfoldable pub write_plan : Outage EventError → List Planned → Method b (Outage EventError)
    write_plan outage [] s = (s, ok outage)
    write_plan outage ((x, meta, sealed) ∷ plan) s =
        resume (λ rest t. write_plan rest plan (store_block t now x sealed meta))
          (s, next_write outage)

    -- `if streams: self._write_keycheck(new_master)`
    unfoldable pub write_check : Outage EventError → Bool → Method b (Unit {0})
    write_check outage false s = (s, ok tt)
    write_check outage true s =
        resume (λ _ t. (write_keycheck b e now nonces new_master t, ok tt)) (s, next_write outage)

    abbrev pub adopt : Bool → EventStore b → EventStore b
    adopt verified s = record s { master = new_master; key_verified = verified; tails = [] }

    -- what comes after the last write
    abbrev pub finish : List (String × ℕ) → Plan → Method b RotationReport
    finish streams (plan, already) s = (
      adopt (not (length streams == 0) || s.key_verified) s,
      ok (record { streams = length streams; records = length plan; already_current = already }),
    )

    -- the writes, once the plan is made
    unfoldable pub carry_out :
        Outage EventError → List (String × ℕ) → Plan → Method b RotationReport
    carry_out outage streams plan = write_plan outage plan.0 >>=ᴹ λ rest.
        write_check rest (not (length streams == 0)) >>=ᴹ λ _. finish streams plan

    abbrev pub plan_and_write : Outage EventError → List (String × ℕ) → Method b RotationReport
    plan_and_write outage streams = reads (λ t. plan_streams t.storage ([], 0) streams) >>=ᴹ λ plan.
        carry_out outage streams plan

    -- an earlier run got to the end, or not
    abbrev pub rotate_from : Outage EventError → List (String × ℕ) → Bool → Method b RotationReport
    rotate_from outage streams true s = (
      adopt true s,
      ok (record {
        streams = length streams;
        records = 0;
        already_current =
            length (b.search s.storage (("kind", "event") ∷ []))
            + length (b.search s.storage (("kind", "snapshot") ∷ []));
      }),
    )
    rotate_from outage streams false s =
        (check_key b e now nonces false >>=ᴹ λ _. plan_and_write outage streams) s

  unfoldable pub rotate_key :
      ℕ → (String → Bytes) → Outage EventError → Bytes → Method b RotationReport
  rotate_key now nonces outage new_master s =
      if not (length new_master == 32)
      then (s, err value_error)
      else (if list_eq new_master s.master
          then (s, err invalid_event)
          else (reads (finished_under new_master) >>=ᴹ λ finished.
                rotate_from now nonces s.master new_master outage (list_streams_in b e s.storage)
                  finished)
              s)
