-- ===== src/Events/Store/Writing.antt =====
-- events/store.py: the methods of EventStore but for the rotation of its key. `now` is the clock's
-- time, also that of the blocks that a call writes; `nonces` gives the random nonce of each block.
pub mod Snapshotted
pub mod Listed
pub mod Stored
pub mod Extended
pub mod Ready
pub mod Appended
pub mod Travel
pub mod History
pub mod Created
use model_db.Prelude.{
  ℕ, zero, suc, ◌+◌, ◌-◌, ◌*◌, ◌/◌, ◌%◌, ◌^◌, ◌≤◌, ◌<◌, String, ◌≡◌, refl, sym, ap, ◌∙◌, fun_ext,
  ◌≢◌, ◌↔◌, ◌⊎◌, inl, inr, Bool, true, false, not, ◌&&◌, ◌||◌, Option, none, some, List, [], ◌∷◌,
  ◌++◌, map, arith, ltb, leb, ◌==◌, ==_iff, if◌then◌else◌, leb→le, ltb→lt, Bool-cases, Option-cases,
  is_some, is_some-some, some_injective, length, get_elem?, take, drop, replicate, keep, all_of,
  any_of, All, length-append, take-length-append, drop-length-append, length-replicate, list_eq,
  list_eq_iff, get_or, has_prefix, has_prefix-append, Result, ok, err, ◌>>=◌, ◌>>◌, guard, map_ok,
  is_ok, is_ok-ok, Result-cases, >>=-eq-ok, >>-eq-ok, ok-injective, map_ok-eq-ok, str_eq,
  str_eq_iff, str_eq_refl, ◌+ˢ◌, +ˢ_cancel_left, str_eq-prefix, codes, codes-append,
  codes_injective, ◌+ᶜ◌, Action, resume, ◌>>=ᴹ◌, pure, reads, sorted, insert_sorted, sorted-Perm,
  sorted-IsSorted, IsSorted, IsWeakOrder, All-sorted, reads-eq-ok, reads-eq-err, is_id_char, is_id,
  id_rest,
}
use model_db.Dict
use model_db.Dict.{Dict, contains}
use model_db.Storage.Interface.{Bytes, Metadata, text, StorageBackend}
use model_db.Events.Errors.{
  EventError, stream_exists, invalid_event, wrong_key, concurrency, stream_corrupt,
}
use model_db.Events.Json.{
  Json, null, boolean, number, string, array, object, Items, nil, Fields, end,
}
use model_db.Events.Sealing.{derive_stream_key, seal, open_sealed}
use model_db.Events.Store.{
  StateCodec, EventRecord, base, event, snapshot, StreamEvent, StateView, Tail, Environment,
  EventStore, Method, check_id, event_id, snapshot_id,
}
use model_db.Events.Store.Reading.{
  codec_of, lift, block_ids, ordered_event_ids, open_record, find_codec, rebuild,
}
use model_db.Events.Store.Listing.{list_streams_in, has_events, events_of, last_events}
use model_db.Events.Store.Requests.{
  keycheck_id, keycheck_stream, keycheck_plaintext, cache_size, max_clock_skew, is_after_opt,
  at_least_floor, when, remember_in, object_of, rename_corrupt, record_metadata, block_kind,
  store_block, differs, is_choice, is_falsy, canonical, key_for, block_id, payload_for,
}

module _ (b : StorageBackend) (e : Environment) where
  -- the key check is there and opens under `master`
  abbrev pub open_keycheck : Bytes → EventStore b → Result EventError Bytes
  open_keycheck master s = do
    blob ← lift (b.get s.storage keycheck_id)
    open_sealed e.platform e.texts (key_for e master keycheck_stream) keycheck_stream "keycheck" 0
        blob

  abbrev pub verified :
      EventStore b → Result EventError Bytes → EventStore b × Result EventError (Unit {0})
  verified s (ok _) = (record s { key_verified = true }, ok tt)
  verified s (err x) = (s, err x)

  -- the tail of a stream, from its log
  unfoldable pub read_tail : b.Store → Bytes → String → Result EventError Tail
  read_tail s master stream = do
    view ← rebuild b e s master stream none none
    r ← open_record b e s (key_for e master stream) stream "base" 0 (event_id e stream 0)
    codec ← codec_of r
    ok (record { codec = codec; seq = view.seq; ts = view.ts; state = view.state })

  module _ (now : ℕ) (nonces : String → Bytes) where
    -- `_put`
    unfoldable pub put_record : String → String → ℕ → EventRecord → Method b (Unit {0})
    put_record stream kind seq r s =
        let x = block_id e stream kind seq in
        if b.exists s.storage x
        then (record s { tails = Dict.remove s.tails stream }, err (concurrency stream))
        else (
          store_block s now x
              (seal e.platform e.texts (nonces x) (key_for e s.master stream) stream kind seq
                (e.dump r))
              (record_metadata stream (block_kind kind)),
          ok tt,
        )

    unfoldable pub write_keycheck : Bytes → EventStore b → EventStore b
    write_keycheck master s =
        store_block s now keycheck_id
          (seal e.platform e.texts (nonces keycheck_id) (key_for e master keycheck_stream)
            keycheck_stream "keycheck" 0 keycheck_plaintext)
          (("kind", text "keycheck") ∷ [])

    unfoldable pub check_key : Bool → Method b (Unit {0})
    check_key first_stream s =
        if s.key_verified
        then (s, ok tt)
        else (if b.exists s.storage keycheck_id
            then verified s (rename_corrupt (open_keycheck s.master s))
            else (if first_stream && length (list_streams_in b e s.storage) == 0
                then (record (write_keycheck s.master s) { key_verified = true }, ok tt)
                else (s, ok tt)))

    abbrev pub remember : String → Tail → Method b (Unit {0})
    remember stream tail s = (record s { tails = remember_in s.tails stream tail }, ok tt)

    unfoldable pub create_stream :
        String → Json → String → Option String → Option ℕ → Method b StateView
    create_stream stream state codec note ts = reads (λ _. check_id stream) >>=ᴹ λ _.
        reads (λ _. guard (contains e.codecs codec) invalid_event) >>=ᴹ λ _.
        reads (λ _. canonical e state >>= object_of) >>=ᴹ λ state'. check_key true >>=ᴹ λ _.
        reads (λ s. guard (not (has_events b e s.storage stream)) (stream_exists stream)) >>=ᴹ λ _.
        reads (λ _. when now ts none) >>=ᴹ λ time.
        put_record stream "base" 0 (base time codec note state') >>=ᴹ λ _.
        remember stream (record { codec = codec; seq = 0; ts = time; state = state' }) >>=ᴹ λ _.
        pure (record { stream = stream; state = state'; seq = 0; ts = time })

    -- what `_tail` does for a stream that is not cached
    abbrev pub load_tail : String → Method b Tail
    load_tail stream = reads (λ s. read_tail s.storage s.master stream) >>=ᴹ λ tail.
        remember stream tail >>=ᴹ λ _. pure tail

    unfoldable pub tail_of : String → Method b Tail
    tail_of stream s = elim (Dict.get s.tails stream) [
      | none ↦ load_tail stream s
      | some tail ↦ (s, ok tail)
    ]

    abbrev pub put_snapshot : String → ℕ → ℕ → Fields → Method b (Unit {0})
    put_snapshot stream seq time state =
        if seq % e.snapshot_every == 0
        then put_record stream "snapshot" seq (snapshot time state)
        else pure tt

    -- the writes of `append`, for the number, the time and the state that it found
    unfoldable pub append_record :
        String → String → ℕ → ℕ → Option String → Json → Fields → Method b StreamEvent
    append_record stream codec seq time note payload new_state =
        put_record stream "event" seq (event time note payload) >>=ᴹ λ _.
        put_snapshot stream seq time new_state >>=ᴹ λ _.
        remember stream (record { codec = codec; seq = seq; ts = time; state = new_state })
        >>=ᴹ λ _.
            pure (record { seq = seq; ts = time; kind = "event"; note = note; payload = payload })

    -- what `append` does once the payload is accepted
    unfoldable pub append_payload :
        String → Tail → Option String → Option ℕ → Json → Fields → Method b StreamEvent
    append_payload stream tail note ts payload new_state =
        reads (λ _. when now ts (some tail.ts)) >>=ᴹ λ time.
        append_record stream tail.codec (tail.seq + 1) time note payload new_state

    unfoldable pub append :
        String
        → Option Json
        → Option Json
        → Option String
        → Option ℕ
        → Option ℕ
        → Method b StreamEvent
    append stream state payload note ts expected_seq = reads (λ _. check_id stream) >>=ᴹ λ _.
        reads (λ _. guard (is_choice state payload) invalid_event) >>=ᴹ λ _.
        check_key false >>=ᴹ λ _. tail_of stream >>=ᴹ λ tail.
        reads (λ _. guard (not (differs expected_seq tail.seq)) (concurrency stream)) >>=ᴹ λ _.
        reads (λ _. find_codec b e stream tail.codec) >>=ᴹ λ codec.
        reads (λ _. payload_for e codec tail.state state payload) >>=ᴹ λ payload'.
        reads (λ _. codec.validate payload' >> codec.apply tail.state payload') >>=ᴹ λ new_state.
        append_payload stream tail note ts payload' new_state

    -- `state_at` and `history`
    unfoldable pub state_at : String → Option ℕ → Option ℕ → Method b StateView
    state_at stream at seq = reads (λ _. check_id stream) >>=ᴹ λ _.
        reads (λ _. guard (not (is_some at && is_some seq)) invalid_event) >>=ᴹ λ _.
        check_key false >>=ᴹ λ _. reads (λ s. rebuild b e s.storage s.master stream at seq)

    unfoldable pub history : String → Option ℕ → Option ℕ → Option ℕ → Method b (List StreamEvent)
    history stream since until limit = reads (λ _. check_id stream) >>=ᴹ λ _.
        check_key false >>=ᴹ λ _. reads (λ s. ordered_event_ids b e s.storage stream >>= λ ids.
        events_of b e s.storage (key_for e s.master stream) stream since until ids >>= λ events.
        ok (last_events b e limit events))

  -- the loop of `delete_stream`
  unfoldable pub delete_blocks : b.Store → List String → b.Store
  delete_blocks s [] = s
  delete_blocks s (x ∷ ids) = delete_blocks (b.delete s x) ids

  unfoldable pub delete_stream : String → Method b Bool
  delete_stream stream = reads (λ _. check_id stream) >>=ᴹ λ _. (λ s.
      let ids =
        block_ids b e s.storage stream "event" ++ block_ids b e s.storage stream "snapshot" in
      (
        record s { storage = delete_blocks s.storage ids; tails = Dict.remove s.tails stream },
        ok (not (length ids == 0)),
      ))

  unfoldable pub exists : EventStore b → String → Result EventError Bool
  exists s stream = check_id stream >> ok (has_events b e s.storage stream)
