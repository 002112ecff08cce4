-- ===== src/Events/Store/Reading.antt =====
-- events/store.py: how the log of a stream is found, opened and replayed. Nothing here changes the
-- store.
pub mod Replayed
pub mod Rebuilt
use model_db.Prelude.{
  ℕ, zero, suc, ◌+◌, ◌-◌, ◌*◌, ◌/◌, ◌%◌, ◌^◌, ◌≤◌, ◌<◌, String, ◌≡◌, refl, sym, ap, ◌∙◌, fun_ext,
  ◌≢◌, ◌↔◌, ◌⊎◌, inl, inr, Bool, true, false, not, ◌&&◌, ◌||◌, Option, none, some, List, [], ◌∷◌,
  ◌++◌, map, arith, ltb, leb, ◌==◌, ==_iff, if◌then◌else◌, leb→le, ltb→lt, Bool-cases, Option-cases,
  is_some, is_some-some, some_injective, length, get_elem?, take, drop, replicate, keep, all_of,
  any_of, All, length-append, take-length-append, drop-length-append, length-replicate, list_eq,
  list_eq_iff, get_or, has_prefix, has_prefix-append, Result, ok, err, ◌>>=◌, ◌>>◌, guard, map_ok,
  is_ok, is_ok-ok, Result-cases, >>=-eq-ok, >>-eq-ok, ok-injective, map_ok-eq-ok, str_eq,
  str_eq_iff, str_eq_refl, ◌+ˢ◌, +ˢ_cancel_left, str_eq-prefix, codes, codes-append,
  codes_injective, ◌+ᶜ◌, Action, resume, ◌>>=ᴹ◌, pure, reads, sorted, insert_sorted, sorted-Perm,
  sorted-IsSorted, IsSorted, IsWeakOrder, All-sorted, reads-eq-ok, reads-eq-err, is_id_char, is_id,
  id_rest,
}
use model_db.Dict
use model_db.Dict.{Dict}
use model_db.Errors.{Error}
use model_db.Storage.Interface.{Bytes, StorageBackend}
use model_db.Index.{is_key_error}
use model_db.Events.Errors.{
  EventError, stream_not_found, invalid_event, state_not_yet, stream_corrupt, storage, record_key,
}
use model_db.Events.Json.{Json, Fields, object}
use model_db.Events.Sealing.{derive_stream_key, open_sealed}
use model_db.Events.Store.{
  StateCodec, EventRecord, base, event, snapshot, StreamEvent, StateView, Environment, event_prefix,
  snapshot_prefix, starts_with, seq_of, stream_of, earlier, later,
}

abbrev pub search_filter : String → String → Dict String
search_filter stream kind = ("stream", stream) ∷ ("kind", kind) ∷ []

-- `record["ts"]` of any record, and the other keys of a base, a snapshot and an event
abbrev pub ts_of : EventRecord → ℕ
ts_of (base ts _ _ _) = ts
ts_of (event ts _ _) = ts
ts_of (snapshot ts _) = ts

abbrev pub note_of : EventRecord → Option String
note_of (base _ _ note _) = note
note_of (event _ note _) = note
note_of (snapshot _ _) = none

abbrev pub codec_of : EventRecord → Result EventError String
codec_of (base _ codec _ _) = ok codec
codec_of _ = err record_key

abbrev pub state_of : EventRecord → Result EventError Fields
state_of (base _ _ _ state) = ok state
state_of (snapshot _ state) = ok state
state_of (event _ _ _) = err record_key

abbrev pub payload_of : EventRecord → Result EventError Json
payload_of (event _ _ payload) = ok payload
payload_of _ = err record_key

module _ {A : Type 0} where
  -- what `storage.get` raises, where nothing catches it
  abbrev pub lift : Result Error A → Result EventError A
  lift (ok a) = ok a
  lift (err x) = err (storage x)

  -- `except KeyError: raise StreamCorruptError`
  abbrev pub or_missing : String → Result Error A → Result EventError A
  or_missing stream (ok a) = ok a
  or_missing stream (err x) =
      if is_key_error x then err (stream_corrupt stream) else err (storage x)

  abbrev pub or_corrupt : String → Option A → Result EventError A
  or_corrupt stream none = err (stream_corrupt stream)
  or_corrupt stream (some a) = ok a

abbrev pub is_before : Option ℕ → ℕ → Bool
is_before none t = false
is_before (some at) t = ltb at t

-- the last entry of a list that has one
abbrev pub last_of : ℕ × String → List (ℕ × String) → ℕ × String
last_of x [] = x
last_of x (y ∷ ys) = last_of y ys

-- the loop of `_ordered_event_ids` over the sorted ids
unfoldable pub check_numbers : String → ℕ → List (ℕ × String) → Result EventError (Unit {0})
check_numbers stream expected [] = ok tt
check_numbers stream expected ((seq, _) ∷ ids) =
    let rest = check_numbers stream (suc expected) ids in
    if seq == expected then rest else err (stream_corrupt stream)

module _ (b : StorageBackend) (e : Environment) where
  unfoldable pub block_ids : b.Store → String → String → List String
  block_ids s stream kind = b.search s (search_filter stream kind)

  -- `[(_seq_of(b), b) for b in ids if b.startswith(prefix)]`
  unfoldable pub numbered : String → List String → List (ℕ × String)
  numbered prefix [] = []
  numbered prefix (x ∷ ids) =
      let rest = numbered prefix ids in
      if starts_with prefix x then (seq_of e x, x) ∷ rest else rest

  abbrev pub none_missing : String → List (ℕ × String) → Result EventError (List (ℕ × String))
  none_missing stream [] = err (stream_not_found stream)
  none_missing stream (x ∷ ids) = check_numbers stream 0 (x ∷ ids) >> ok (x ∷ ids)

  unfoldable pub ordered_event_ids : b.Store → String → Result EventError (List (ℕ × String))
  ordered_event_ids s stream =
      none_missing stream (sorted (earlier e) (numbered event_prefix (block_ids s stream "event")))

  -- `_open`
  unfoldable pub open_record :
      b.Store → Bytes → String → String → ℕ → String → Result EventError EventRecord
  open_record s key stream kind seq block_id = do
    blob ← or_missing stream (b.get s block_id)
    plaintext ← open_sealed e.platform e.texts key stream kind seq blob
    or_corrupt stream (e.load plaintext)

  -- `_codec`
  unfoldable pub find_codec : String → String → Result EventError StateCodec
  find_codec stream name = or_corrupt stream (Dict.get e.codecs name)

  -- `ids[n][1]`
  abbrev pub id_at : String → List (ℕ × String) → ℕ → Result EventError String
  id_at stream ids n = elim (get_elem? ids n) [ none ↦ err record_key | some (_, x) ↦ ok x ]

  -- where a replay stands: `state`, `applied` and `applied_ts`
  abbrev pub Replay : Type 0
  Replay = Fields × ℕ × ℕ

  -- the loop over the snapshots, latest first, with what to start from if there is none
  unfoldable pub from_snapshot :
      b.Store
      → Bytes
      → String
      → Option ℕ
      → ℕ
      → Replay
      → List (ℕ × String)
      → Result EventError Replay
  from_snapshot s key stream at target start [] = ok start
  from_snapshot s key stream at target start ((snap_seq, snap_id) ∷ snapshots) =
      let rest = from_snapshot s key stream at target start snapshots in
      let here = open_record s key stream "snapshot" snap_seq snap_id >>= λ snap.
      if is_before at (ts_of snap)
      then rest
      else state_of snap >>= λ state. ok (state, snap_seq, ts_of snap) in
      if ltb target snap_seq then rest else here

  -- the loop over the events, `count` of them from number `n` on
  unfoldable pub replay :
      b.Store
      → Bytes
      → String
      → StateCodec
      → Option ℕ
      → List (ℕ × String)
      → ℕ
      → ℕ
      → Replay
      → Result EventError Replay
  replay s key stream codec at ids n zero reached = ok reached
  replay s key stream codec at ids n (suc count) (state, applied, applied_ts) =
      id_at stream ids n >>= λ block_id. open_record s key stream "event" n block_id >>= λ record_.
      let rest = payload_of record_ >>= λ payload. codec.apply state payload >>= λ next.
      replay s key stream codec at ids (suc n) count (next, n, ts_of record_) in
      if is_before at (ts_of record_) then ok (state, applied, applied_ts) else rest

  -- `seq is not None and not 0 <= seq <= last`, and the target
  abbrev pub target_of : Option ℕ → ℕ → Result EventError ℕ
  target_of none last = ok last
  target_of (some seq) last = guard (leb seq last) invalid_event >> ok seq

  unfoldable pub rebuild_from :
      b.Store
      → Bytes
      → String
      → Option ℕ
      → Option ℕ
      → ℕ × String
      → List (ℕ × String)
      → Result EventError StateView
  rebuild_from s master stream at seq first ids = do
    target ← target_of seq (last_of first ids).0
    let key = derive_stream_key e.platform e.texts master stream
    base_ ← open_record s key stream "base" 0 first.1
    guard (not (is_before at (ts_of base_))) (state_not_yet stream)
    codec_name ← codec_of base_
    codec ← find_codec stream codec_name
    base_state ← state_of base_
    let snapshots = sorted (later e) (numbered snapshot_prefix (block_ids s stream "snapshot"))
    (state, applied, applied_ts) ←
        from_snapshot s key stream at target (base_state, 0, ts_of base_) snapshots
    (state', applied', applied_ts') ←
        replay s key stream codec at (first ∷ ids) (applied + 1) (target - applied)
          (state, applied, applied_ts)
    ok (record { stream = stream; state = state'; seq = applied'; ts = applied_ts' })

  abbrev pub rebuild_ids :
      b.Store
      → Bytes
      → String
      → Option ℕ
      → Option ℕ
      → List (ℕ × String)
      → Result EventError StateView
  rebuild_ids s master stream at seq [] = err record_key
  rebuild_ids s master stream at seq (first ∷ ids) = rebuild_from s master stream at seq first ids

  unfoldable pub rebuild :
      b.Store → Bytes → String → Option ℕ → Option ℕ → Result EventError StateView
  rebuild s master stream at seq = ordered_event_ids s stream >>= rebuild_ids s master stream at seq
