-- ===== src/Events/Store/Writing/Appended.antt =====
-- `append` makes the log of a stream longer by one change.
use model_db.Prelude.{
  ℕ, suc, ◌+◌, ◌≤◌, String, ◌≡◌, refl, sym, ap, ◌∙◌, false, Option, some, [], ◌∷◌, ◌++◌, arith,
  length, length-append, ok, ◌>>=ᴹ◌,
}
use model_db.Storage.Interface.{Bytes, MetaFields, StorageBackend, IsLawful}
use model_db.Platform.{IsAuthenticated}
use model_db.Dna.Crypto.{nonce_len}
use model_db.Events.Json.{Json, Fields}
use model_db.Events.Sealing.{IsDistinct}
use model_db.Events.Store.{
  StateCodec, event, snapshot, Tail, Environment, EventStore, check_id, event_id, snapshot_id,
}
use model_db.Events.Store.Laws.{IsDocumented, IsSearchable, event_id-ne-snapshot_id}
use model_db.Events.Store.Reading.Replayed.{Log, upto-number, reached}
use model_db.Events.Store.Writing.{put_record, append_payload, append_record, append}
use model_db.Events.Store.Requests.{when, remember_in, payload_for, differs}
use model_db.Events.Store.Writing.Stored.{extended, last_state, last_ts, exists-put_other}
use model_db.Events.Store.Writing.Extended.{after_event, HoldsLog-put_event}
use model_db.Events.Store.Writing.Ready.{
  tail_of_log, change, upto-last, get-remember_in, IsReady, tail_of-IsReady, check_key-IsReady,
}
use model_db.Events.Store.Writing.Snapshotted.{
  floor-le-when, is_choice-payload_for, put_snapshot-holds,
}

module _ {sha256 : Bytes → String} {b : StorageBackend} (law : IsLawful sha256 b)
    {repr : MetaFields → String} (sl : IsSearchable law repr) (e : Environment) (d : IsDocumented e)
    (a : IsAuthenticated e.platform) (u : IsDistinct e.texts) (now : ℕ) (nonces : String → Bytes)
    (sized : (x : String) → length (nonces x) ≡ nonce_len) where
  append_record-IsReady :
      (s : EventStore b) (stream : String) (codec : StateCodec) (log : Log) (note : Option String)
      (payload : Json) (new_state : Fields) (time : ℕ)
      → IsReady law e s stream codec log
      → codec.apply (last_state log) payload ≡ ok new_state
      → last_ts log ≤ time
      → e.load (e.dump (event time note payload)) ≡ some (event time note payload)
      → e.load (e.dump (snapshot time new_state)) ≡ some (snapshot time new_state)
      → (s' : EventStore b) × (append_record b e now nonces stream log.codec
            (suc (length log.entries))
            time
            note
            payload
            new_state
            s
          ≡ (
            s',
            ok (record {
              seq = suc (length log.entries);
              ts = time;
              kind = "event";
              note = note;
              payload = payload;
            }),
          ))
        × IsReady law e s' stream codec (extended log (change note time payload new_state))
  unfolding append_record put_record
  append_record-IsReady s stream codec log note payload new_state time r applies up plain plain' =
      let en = change note time payload new_state in
      let count = suc (length log.entries) in
      let x = event_id e stream count in
      let longer : length (log.entries ++ (en ∷ [])) ≡ count =
        omega (arith, length-append log.entries (en ∷ [])) in
      let last = upto-last (log.start, 0, log.created) log.entries en in
      let s1 = record s {
        storage =
            after_event law sl e d a u s.storage now (nonces x) s.master (sized x) stream codec log
              r.valid r.holds en;
      } in
      let (s2, snapped, holds, valid, tails, master, verified) =
        put_snapshot-holds law sl e d a u now nonces sized s1 stream codec (extended log en) count
          time new_state
          (HoldsLog-put_event law sl e d a u s.storage now (nonces x) s.master (sized x) stream
            codec log r.valid r.holds en up applies plain)
          (law.put-IsValid s.storage now x _ _ r.valid) longer
          (ap (λ (q : Fields × ℕ × ℕ). q.2) last) (ap (λ (q : Fields × ℕ × ℕ). q.0) last)
          (exists-put_other law e d s.storage now x (snapshot_id e stream count) _ _
              (event_id-ne-snapshot_id e stream stream count count)
            ∙ r.holds.fresh_snapshot count (omega arith))
          plain' in
      let stored_event : put_record b e now nonces stream "event" count (event time note payload) s
          ≡ (s1, ok tt) =
        rw (r.holds.fresh_event count (omega arith)) refl in
      let tail : Tail = record { codec = log.codec; seq = count; ts = time; state = new_state } in
      let count_eq : suc (reached log (length log.entries)).1 ≡ count = omega (
        arith,
        upto-number (log.start, 0, log.created) log.entries (length log.entries) (omega arith),
      ) in
      let tail_at : Fields × ℕ × ℕ → Tail =
        λ q. record { codec = log.codec; seq = q.1; ts = q.2; state = q.0 } in
      let tail_eq : tail ≡ tail_of_log (extended log en) =
        ap (λ (i : ℕ). tail_at (new_state, i, time)) (sym count_eq) ∙ ap tail_at (sym last) in
      (
        record s2 { tails = remember_in s2.tails stream tail },
        rw (stored_event, snapped) refl,
        record {
          holds = rw master holds;
          valid = valid;
          verified = verified ∙ r.verified;
          cached = λ t h. get-remember_in s2.tails stream tail t h ∙ tail_eq;
        },
      )

  append_payload-IsReady :
      (s : EventStore b) (stream : String) (codec : StateCodec) (log : Log) (note : Option String)
      (ts : Option ℕ) (payload : Json) (new_state : Fields) (time : ℕ)
      → IsReady law e s stream codec log
      → codec.apply (last_state log) payload ≡ ok new_state
      → when now ts (some (last_ts log)) ≡ ok time
      → e.load (e.dump (event time note payload)) ≡ some (event time note payload)
      → e.load (e.dump (snapshot time new_state)) ≡ some (snapshot time new_state)
      → (s' : EventStore b) × (append_payload b e now nonces stream
            (tail_of_log log)
            note
            ts
            payload
            new_state
            s
          ≡ (
            s',
            ok (record {
              seq = suc (length log.entries);
              ts = time;
              kind = "event";
              note = note;
              payload = payload;
            }),
          ))
        × IsReady law e s' stream codec (extended log (change note time payload new_state))
  unfolding append_payload
  append_payload-IsReady s stream codec log note ts payload new_state time r applies timed plain
        plain' =
      let number : (reached log (length log.entries)).1 + 1 ≡ suc (length log.entries) = omega (
        arith,
        upto-number (log.start, 0, log.created) log.entries (length log.entries) (omega arith),
      ) in
      let (s', done, ready) =
        append_record-IsReady s stream codec log note payload new_state time r applies
          (floor-le-when now ts (last_ts log) time timed) plain plain' in
      (s', rw (timed, ◌>>=ᴹ◌) (rw number done), ready)

  -- `append` on a stream whose log the store holds, on a lawful storage and under a key that is
  -- verified: if the expected number, where one is given, is that of the last event, and the payload, or the
  -- difference to the given state, is accepted by the codec and leads to a state, the time is not
  -- refused, and JSON gives back the event and the snapshot, then the event gets the next number,
  -- and the store holds the log with this one change more.
  pub append-IsReady :
      (s : EventStore b) (stream : String) (codec : StateCodec) (log : Log)
      (state payload : Option Json) (note : Option String) (ts expected : Option ℕ)
      (payload' : Json) (new_state : Fields) (time : ℕ)
      → IsReady law e s stream codec log
      → check_id stream ≡ ok tt
      → differs expected (reached log (length log.entries)).1 ≡ false
      → payload_for e codec (last_state log) state payload ≡ ok payload'
      → codec.validate payload' ≡ ok tt
      → codec.apply (last_state log) payload' ≡ ok new_state
      → when now ts (some (last_ts log)) ≡ ok time
      → e.load (e.dump (event time note payload')) ≡ some (event time note payload')
      → e.load (e.dump (snapshot time new_state)) ≡ some (snapshot time new_state)
      → (s' : EventStore b) × (append b e now nonces stream state payload note ts expected s ≡ (
        s',
        ok (record {
          seq = suc (length log.entries);
          ts = time;
          kind = "event";
          note = note;
          payload = payload';
        }),
      ))
        × IsReady law e s' stream codec (extended log (change note time payload' new_state))
  unfolding append
  append-IsReady s stream codec log state payload note ts expected payload' new_state time r named
        same chosen accepted applies timed plain plain' =
      let (s1, tailed, r1, _) = tail_of-IsReady law e now nonces s stream codec log r in
      let (s', done, ready) =
        append_payload-IsReady s1 stream codec log note ts payload' new_state time r1 applies timed
          plain plain' in
      (
        s',
        rw
            (
              named,
              is_choice-payload_for e codec (last_state log) state payload payload' chosen,
              check_key-IsReady law e now nonces s stream codec log r,
              tailed,
              same,
              r.holds.codec_found,
              chosen,
              accepted,
              applies,
            )
            done,
        ready,
      )
