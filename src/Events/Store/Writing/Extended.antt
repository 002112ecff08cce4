-- ===== src/Events/Store/Writing/Extended.antt =====
-- The two writes of `append` on a storage that holds a log: the event, and the snapshot.
use model_db.Prelude.{
  ℕ, suc, ◌+◌, ◌≤◌, ◌<◌, String, ◌≡◌, refl, sym, ap, ◌∙◌, true, false, [], ◌∷◌, ◌++◌, arith, length,
  All, length-append, ok, str_eq, str_eq_iff, str_eq_refl, sorted, is_id,
}
use model_db.Storage.Interface.{Bytes, MetaFields, StorageBackend, IsLawful}
use model_db.Platform.{IsAuthenticated}
use model_db.Dna.Crypto.{nonce_len}
use model_db.Events.Sealing.{IsDistinct, seal, derive_stream_key}
use model_db.Events.Store.{
  StateCodec, event, snapshot, Environment, event_prefix, snapshot_prefix, earlier, event_id,
  snapshot_id, some,
}
use model_db.Events.Store.Laws.{
  IsDocumented, IsSearchable, Inserted, seq_of-event_id, seq_of-snapshot_id, event_id-ne,
  snapshot_id-ne, event_id-ne-snapshot_id, starts_with-event_id, starts_with-snapshot_id,
}
use model_db.Events.Store.Laws.Sorting.{
  IsBeyond, sorted-insert, All-of-sorted, earlier-beyond, All-ids_from, ids_from-append,
  numbered-append, numbered-insert, All-map, All-insert,
}
use model_db.Events.Store.Reading.{block_ids, numbered}
use model_db.Events.Store.Reading.Replayed.{Entry, Log, ids_from, IsSnapshot}
use model_db.Events.Store.Reading.Rebuilt.{HoldsLog}
use model_db.Events.Store.Requests.{record_metadata}
use model_db.Events.Store.Writing.Stored.{
  extended, last_state, last_ts, upto-append, IsRising-append, AreStored-frame, AreStored-append,
  open_record-put_other, exists-put_other, open_record-put_self, open_record-new,
}
use model_db.Events.Json.{Fields}
use model_db.Events.Store.Writing.Listed.{search-put_same, search-put_other}

str_eq_sym : (x y : String) → str_eq x y ≡ false → str_eq y x ≡ false
str_eq_sym x y h = ground (arith, str_eq_iff x y, str_eq_iff y x)

module _ {sha256 : Bytes → String} {b : StorageBackend} (law : IsLawful sha256 b)
    {repr : MetaFields → String} (sl : IsSearchable law repr) (e : Environment) (d : IsDocumented e)
    (a : IsAuthenticated e.platform) (u : IsDistinct e.texts) where
  -- the sorted ids of a stream after one more event
  ids-put_event :
      (s s' : b.Store) (stream : String) (count : ℕ)
      → sorted (earlier e) (numbered b e event_prefix (block_ids b e s stream "event"))
        ≡ ids_from e stream 0 count
      → Inserted true
          (event_id e stream count)
          (block_ids b e s stream "event")
          (block_ids b e s' stream "event")
      → sorted (earlier e) (numbered b e event_prefix (block_ids b e s' stream "event"))
        ≡ ids_from e stream 0 (suc count)
  ids-put_event s s' stream count ids (xs, ys, before, after) =
      let x = event_id e stream count in
      let split : numbered b e event_prefix (block_ids b e s stream "event")
          ≡ numbered b e event_prefix xs ++ numbered b e event_prefix ys =
        ap (numbered b e event_prefix) before ∙ numbered-append b e event_prefix xs ys in
      let same : 0 + count ≡ count = omega arith in
      let below =
        All-of-sorted (earlier e) (λ (q : ℕ × String). q.0 < count)
          (numbered b e event_prefix (block_ids b e s stream "event"))
          (rw ids (All-ids_from e stream 0 count count (omega arith))) in
      let beyond =
        All-map (λ (q : ℕ × String). q.0 < count) (IsBeyond (earlier e) (count, x))
          (λ q less. earlier-beyond e q.0 count q.1 x less) _ (rw split at below) in
      rw
        (
          after,
          numbered-insert b e event_prefix x xs ys (starts_with-event_id e stream count),
          seq_of-event_id e d stream count,
          sorted-insert (earlier e) (count, x) (numbered b e event_prefix xs)
              (numbered b e event_prefix ys) beyond,
          ← split,
          ids,
          ids_from-append e stream 0 count,
          same,
        )
        refl

  module _ (s : b.Store) (now : ℕ) (nonce master : Bytes) (sized : length nonce ≡ nonce_len)
      (stream : String) (codec : StateCodec) (log : Log) (valid : law.IsValid s)
      (h : HoldsLog b e s master stream codec log) where
    abbrev key : Bytes
    key = derive_stream_key e.platform e.texts master stream

    abbrev pub after_event : Entry → b.Store
    after_event en =
        (b.put s now (event_id e stream (suc (length log.entries)))
          (seal e.platform e.texts nonce key stream "event" (suc (length log.entries))
            (e.dump (event en.ts en.note en.payload)))
          (record_metadata stream "event")).0

    -- The event makes the log longer by one change.
    pub HoldsLog-put_event :
        (en : Entry)
        → last_ts log ≤ en.ts
        → codec.apply (last_state log) en.payload ≡ ok en.state
        → e.load (e.dump (event en.ts en.note en.payload)) ≡ some (event en.ts en.note en.payload)
        → HoldsLog b e (after_event en) master stream codec (extended log en)
    HoldsLog-put_event en up applies plain =
        let count = suc (length log.entries) in
        let x = event_id e stream count in
        let blob =
          seal e.platform e.texts nonce key stream "event" count
            (e.dump (event en.ts en.note en.payload)) in
        let meta = record_metadata stream "event" in
        let new = h.fresh_event count (omega arith) in
        let longer : length (log.entries ++ (en ∷ [])) ≡ count =
          omega (arith, length-append log.entries (en ∷ [])) in
        let other = λ (m : ℕ) (less : m ≤ length log.entries).
          event_id-ne e d stream stream count m (λ p. absurd (omega arith)) in
        record {
          ids = rw longer (
              ids-put_event s (after_event en) stream count h.ids
                (search-put_same sl e s now x blob stream "event" valid new));
          base_opens =
              open_record-put_other law e d s now x (event_id e stream 0) blob meta key stream
                "base" 0 (other 0 (omega arith))
              ∙ h.base_opens;
          codec_found = h.codec_found;
          stored =
              AreStored-append b e key stream codec (after_event en) en 0 log.created log.start
                log.entries
                (AreStored-frame b e key stream codec s (after_event en) 0 (length log.entries)
                  log.start log.entries
                  (λ m less.
                    open_record-put_other law e d s now x (event_id e stream m) blob meta key stream
                      "event" m (other m less))
                  (omega arith) h.stored)
                (let none_more : 0 + length log.entries ≡ length log.entries = omega arith in
                  rw none_more (
                    open_record-put_self law e d a u s now x meta nonce key stream "event" count
                      (event en.ts en.note en.payload) sized plain))
                applies;
          fresh_event = λ n more.
              exists-put_other law e d s now x (event_id e stream n) blob meta
                (event_id-ne e d stream stream count n (λ p. absurd (omega (arith, longer))))
              ∙ h.fresh_event n (omega (arith, longer));
          fresh_snapshot = λ n more.
              exists-put_other law e d s now x (snapshot_id e stream n) blob meta
                (event_id-ne-snapshot_id e stream stream count n)
              ∙ h.fresh_snapshot n (omega (arith, longer));
          rising = IsRising-append (log.start, 0, log.created) log.entries en h.rising up;
          snapshots =
              rw
                (search-put_other sl e s now x blob stream "event" valid new stream "snapshot"
                  (rw (str_eq_refl stream) refl))
                (All-map (IsSnapshot b e s key stream codec log)
                  (IsSnapshot b e (after_event en) key stream codec (extended log en))
                  (λ (n, y) (less, is_id, opens). (
                    omega (arith, longer),
                    is_id,
                    open_record-put_other law e d s now x y blob meta key stream "snapshot" n
                          (rw is_id (event_id-ne-snapshot_id e stream stream count n))
                        ∙ opens
                        ∙ ap (λ (r : Fields × ℕ × ℕ). ok (snapshot r.2 r.0))
                            (sym (
                              upto-append (log.start, 0, log.created) log.entries (en ∷ []) n
                                less)),
                  ))
                  _ h.snapshots);
        }

    abbrev pub after_snapshot : b.Store
    after_snapshot =
        (b.put s now (snapshot_id e stream (length log.entries))
          (seal e.platform e.texts nonce key stream "snapshot" (length log.entries)
            (e.dump (snapshot (last_ts log) (last_state log))))
          (record_metadata stream "snapshot")).0

    -- A snapshot of the last state leaves the log as it is.
    pub HoldsLog-put_snapshot :
        b.exists s (snapshot_id e stream (length log.entries)) ≡ false
        → e.load (e.dump (snapshot (last_ts log) (last_state log)))
          ≡ some (snapshot (last_ts log) (last_state log))
        → HoldsLog b e after_snapshot master stream codec log
    HoldsLog-put_snapshot new plain =
        let count = length log.entries in
        let x = snapshot_id e stream count in
        let blob =
          seal e.platform e.texts nonce key stream "snapshot" count
            (e.dump (snapshot (last_ts log) (last_state log))) in
        let meta = record_metadata stream "snapshot" in
        let unmet = λ (m : ℕ).
          str_eq_sym (event_id e stream m) x (event_id-ne-snapshot_id e stream stream m count) in
        let (xs, ys, before, after) =
          search-put_same sl e s now x blob stream "snapshot" valid new in
        let same_events : block_ids b e after_snapshot stream "event"
            ≡ block_ids b e s stream "event" =
          search-put_other sl e s now x blob stream "snapshot" valid new stream "event"
            (rw (str_eq_refl stream) refl) in
        let old : All (IsSnapshot b e after_snapshot key stream codec log)
            (numbered b e snapshot_prefix (block_ids b e s stream "snapshot")) =
          All-map (IsSnapshot b e s key stream codec log)
            (IsSnapshot b e after_snapshot key stream codec log)
            (λ (n, y) (less, is_id, opens). (
              less,
              is_id,
              open_record-put_other law e d s now x y blob meta key stream "snapshot" n
                    (open_record-new law e d s x y key stream "snapshot" n _ new opens)
                  ∙ opens,
            ))
            _ h.snapshots in
        record {
          ids = rw same_events h.ids;
          base_opens =
              open_record-put_other law e d s now x (event_id e stream 0) blob meta key stream
                "base" 0 (unmet 0)
              ∙ h.base_opens;
          codec_found = h.codec_found;
          stored =
              AreStored-frame b e key stream codec s after_snapshot 0 count log.start log.entries
                (λ m less.
                  open_record-put_other law e d s now x (event_id e stream m) blob meta key stream
                    "event" m (unmet m))
                (omega arith) h.stored;
          fresh_event = λ n more.
              exists-put_other law e d s now x (event_id e stream n) blob meta (unmet n)
              ∙ h.fresh_event n more;
          fresh_snapshot = λ n more.
              exists-put_other law e d s now x (snapshot_id e stream n) blob meta
                (snapshot_id-ne e d stream stream count n (λ p. absurd (omega arith)))
              ∙ h.fresh_snapshot n more;
          rising = h.rising;
          snapshots =
              rw
                (
                  after,
                  numbered-insert b e snapshot_prefix x xs ys
                      (starts_with-snapshot_id e stream count),
                  seq_of-snapshot_id e d stream count,
                )
                (All-insert (IsSnapshot b e after_snapshot key stream codec log) (count, x)
                  (numbered b e snapshot_prefix xs) (numbered b e snapshot_prefix ys)
                  (
                    omega arith,
                    refl,
                    open_record-put_self law e d a u s now x meta nonce key stream "snapshot" count
                        (snapshot (last_ts log) (last_state log)) sized plain,
                  )
                  (rw (before, numbered-append b e snapshot_prefix xs ys) at old));
        }
