-- ===== src/Events/Store/Reading/Rebuilt.antt =====
-- A storage that holds a log, and what is rebuilt from it.
use model_db.Prelude.{
  ℕ, zero, suc, ◌+◌, ◌-◌, ◌≤◌, ◌<◌, String, ◌≡◌, refl, ap, ◌∙◌, inl, inr, false, Option, none, some,
  List, [], ◌∷◌, arith, leb, leb→le, Bool-cases, length, drop, All, ok, err, sorted, All-sorted,
  length-drop,
}
use model_db.Storage.Interface.{Bytes, StorageBackend}
use model_db.Events.Errors.{invalid_event}
use model_db.Events.Sealing.{derive_stream_key}
use model_db.Events.Store.{
  StateCodec, base, Environment, event_prefix, snapshot_prefix, earlier, later, event_id,
  snapshot_id, Fields,
}
use model_db.Events.Store.Reading.{
  is_before, last_of, block_ids, numbered, ordered_event_ids, open_record, find_codec, replay,
  target_of, rebuild_from, rebuild,
}
use model_db.Events.Store.Reading.Replayed.{
  Log, Entry, upto, reached, IsRising, ids_from, AreStored, IsSnapshot, upto-resume, upto-number,
  check_numbers-ids_from, last_of-ids_from, read_to, read_log, replay-upto, from_snapshot-reached,
}

-- The blocks of the storage that belong to a stream are the records of a log.
pub record HoldsLog (b : StorageBackend) (e : Environment) (s : b.Store) (master : Bytes)
    (stream : String) (codec : StateCodec) (log : Log) : Type 0 where
  pub ids :
      sorted (earlier e) (numbered b e event_prefix (block_ids b e s stream "event"))
      ≡ ids_from e stream 0 (suc (length log.entries))
  pub base_opens :
      open_record b e s
        (derive_stream_key e.platform e.texts master stream)
        stream
        "base"
        0
        (event_id e stream 0)
      ≡ ok (base log.created log.codec log.note log.start)
  pub codec_found : find_codec b e stream log.codec ≡ ok codec
  pub stored :
      AreStored b e s
        (derive_stream_key e.platform e.texts master stream)
        stream
        codec
        0
        log.start
        log.entries
  -- no block has the id of a later event or snapshot
  pub fresh_event : (n : ℕ) → length log.entries < n → b.exists s (event_id e stream n) ≡ false
  pub fresh_snapshot :
      (n : ℕ) → length log.entries < n → b.exists s (snapshot_id e stream n) ≡ false
  pub rising : IsRising log.created log.entries
  pub snapshots :
      All
        (IsSnapshot b e s (derive_stream_key e.platform e.texts master stream) stream codec log)
        (numbered b e snapshot_prefix (block_ids b e s stream "snapshot"))

module _ (b : StorageBackend) (e : Environment) (s : b.Store) (key : Bytes) (stream : String)
    (codec : StateCodec) where
  -- The changes after the first `n` are stored from there on.
  drop-AreStored :
      (n m ts : ℕ) (state : Fields) (entries : List Entry)
      → AreStored b e s key stream codec m state entries
      → n ≤ length entries
      → AreStored b e s key stream codec
          (upto none (state, m, ts) entries n).1
          (upto none (state, m, ts) entries n).0
          (drop n entries)
  drop-AreStored zero m ts state entries st h = st
  drop-AreStored (suc n) m ts state [] st h = absurd (omega arith)
  drop-AreStored (suc n) m ts state (en ∷ entries) (_, _, st) h =
      drop-AreStored n (suc m) en.ts en.state entries st (omega arith)

  -- a replay that starts at a state that the log has reached
  replay-reached :
      (log : Log) (at : Option ℕ) (n target : ℕ)
      → AreStored b e s key stream codec 0 log.start log.entries
      → IsRising log.created log.entries
      → n ≤ target
      → target ≤ length log.entries
      → is_before at (reached log n).2 ≡ false
      → replay b e s key stream codec at
          (ids_from e stream 0 (suc (length log.entries)))
          ((reached log n).1 + 1)
          (target - (reached log n).1)
          (reached log n)
        ≡ ok (upto at (log.start, 0, log.created) log.entries target)
  replay-reached log at n target st up h short early =
      let r = reached log n in
      let number : r.1 ≡ n =
        omega (arith, upto-number (log.start, 0, log.created) log.entries n (omega arith)) in
      let next : r.1 + 1 ≡ suc r.1 = omega arith in
      let all : n + (target - r.1) ≡ target = omega arith in
      rw next (
        replay-upto b e s key stream codec at (target - r.1) r.1 r.2 (suc (length log.entries)) r.0
          (drop n log.entries)
          (drop-AreStored n 0 log.created log.start log.entries st (omega arith))
          (omega (arith, length-drop n log.entries)) (omega (arith, length-drop n log.entries))
        ∙ ap ok (
            upto-resume at (log.start, 0, log.created) log.entries n (target - r.1) up (omega arith)
              early
            ∙ ap (upto at (log.start, 0, log.created) log.entries) all))

module _ (b : StorageBackend) (e : Environment) (s : b.Store) (master : Bytes) (stream : String)
    (codec : StateCodec) (log : Log) (x : HoldsLog b e s master stream codec log) where
  pub ordered_event_ids-ids_from :
      ordered_event_ids b e s stream ≡ ok (ids_from e stream 0 (suc (length log.entries)))
  unfolding ordered_event_ids
  ordered_event_ids-ids_from =
      rw (x.ids, check_numbers-ids_from e stream 0 (suc (length log.entries))) refl

  last_number :
      (last_of (0, event_id e stream 0) (ids_from e stream 1 (length log.entries))).0
      ≡ length log.entries
  last_number =
      omega (arith, last_of-ids_from e stream 0 (length log.entries) (event_id e stream 0))

  rebuild_from-beyond :
      (at : Option ℕ) (seq : ℕ)
      → leb seq (length log.entries) ≡ false
      → rebuild_from b e s master stream at
          (some seq)
          (0, event_id e stream 0)
          (ids_from e stream 1 (length log.entries))
        ≡ err invalid_event
  unfolding rebuild_from
  rebuild_from-beyond at seq beyond = rw (last_number, beyond) refl

  rebuild_from-read_to :
      (at seq : Option ℕ) (target : ℕ)
      → target_of b e seq (length log.entries) ≡ ok target
      → target ≤ length log.entries
      → rebuild_from b e s master stream at seq
          (0, event_id e stream 0)
          (ids_from e stream 1 (length log.entries))
        ≡ read_to stream log at target
  unfolding rebuild_from
  rebuild_from-read_to at seq target h short =
      rw (last_number, h, x.base_opens)
        (elim (Bool-cases (is_before at log.created)) [
          | inl late ↦ rw late refl
          | inr early ↦
              let key = derive_stream_key e.platform e.texts master stream in
              let found =
                from_snapshot-reached b e s key stream codec log at target
                  (sorted (later e)
                    (numbered b e snapshot_prefix (block_ids b e s stream "snapshot")))
                  (All-sorted (later e) (IsSnapshot b e s key stream codec log) _ x.snapshots)
                  early in
              rw
                (
                  early,
                  x.codec_found,
                  found.4,
                  replay-reached b e s key stream codec log at found.0 target x.stored x.rising
                      found.1 short found.3,
                )
                refl
        ])

  -- What is rebuilt from a storage that holds a log is what the log says, for any time and number,
  -- errors included: it does not matter from which snapshot the replay starts.
  pub rebuild-read_log :
      (at seq : Option ℕ) → rebuild b e s master stream at seq ≡ read_log stream log at seq
  unfolding rebuild
  rebuild-read_log at none =
      rw ordered_event_ids-ids_from
        (rebuild_from-read_to at none (length log.entries) refl (omega arith))
  rebuild-read_log at (some seq) = elim (Bool-cases (leb seq (length log.entries))) [
    | inl there ↦
        rw (ordered_event_ids-ids_from, there)
          (rebuild_from-read_to at (some seq) seq (rw there refl) (leb→le _ _ there))
    | inr beyond ↦ rw (ordered_event_ids-ids_from, beyond) (rebuild_from-beyond at seq beyond)
  ]
