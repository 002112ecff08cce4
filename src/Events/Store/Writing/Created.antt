-- ===== src/Events/Store/Writing/Created.antt =====
-- `create_stream` leaves a store that holds a log without changes: from there on, `append` goes on.
use model_db.Prelude.{
  ℕ, String, ◌≡◌, refl, sym, ◌∙◌, true, false, Option, none, some, List, [], ◌∷◌, ◌++◌, arith,
  length, ok, ◌>>=◌, str_eq_refl, sorted, insert_sorted,
}
use model_db.Dict
use model_db.Dict.{contains}
use model_db.Storage.Interface.{Bytes, MetaFields, StorageBackend, IsLawful}
use model_db.Platform.{IsAuthenticated}
use model_db.Dna.Crypto.{nonce_len}
use model_db.Events.Json.{Json, Fields}
use model_db.Events.Sealing.{IsDistinct, seal}
use model_db.Events.Store.{
  StateCodec, base, Tail, Environment, EventStore, check_id, event_id, snapshot_id,
}
use model_db.Events.Store.Laws.{
  IsDocumented, IsSearchable, seq_of-event_id, event_id-ne, event_id-ne-snapshot_id,
  starts_with-event_id,
}
use model_db.Events.Store.Reading.{block_ids, numbered, find_codec}
use model_db.Events.Store.Reading.Replayed.{Log}
use model_db.Events.Store.Reading.Rebuilt.{HoldsLog}
use model_db.Events.Store.Writing.{put_record, check_key, create_stream}
use model_db.Events.Store.Requests.{
  record_metadata, when, remember_in, key_for, canonical, object_of,
}
use model_db.Events.Store.Writing.Stored.{exists-put_other, open_record-put_self}
use model_db.Events.Store.Writing.Listed.{search-put_same, search-put_other}
use model_db.Events.Store.Writing.Ready.{tail_of_log, get-remember_in, IsReady}

-- No block belongs to the stream.
pub record IsAbsent (b : StorageBackend) (e : Environment) (s : b.Store) (stream : String)
    : Type 0 where
  pub no_events : block_ids b e s stream "event" ≡ []
  pub no_snapshots : block_ids b e s stream "snapshot" ≡ []
  pub no_event_id : (n : ℕ) → b.exists s (event_id e stream n) ≡ false
  pub no_snapshot_id : (n : ℕ) → b.exists s (snapshot_id e stream n) ≡ false

abbrev pub new_log : ℕ → String → Option String → Fields → Log
new_log time codec note state = record {
  created = time;
  codec = codec;
  note = note;
  start = state;
  entries = [];
}

nil-split : (xs ys : List String) → ◌≡◌ {A = List String} [] (xs ++ ys) → (xs ≡ []) × (ys ≡ [])
nil-split [] ys h = (refl, sym h)
nil-split (x ∷ xs) ys h = absurd (cc)

module _ {sha256 : Bytes → String} {b : StorageBackend} (law : IsLawful sha256 b)
    {repr : MetaFields → String} (sl : IsSearchable law repr) (e : Environment) (d : IsDocumented e)
    (a : IsAuthenticated e.platform) (u : IsDistinct e.texts) (now : ℕ) (nonces : String → Bytes)
    (sized : (x : String) → length (nonces x) ≡ nonce_len) where
  HoldsLog-put_base :
      (s : b.Store) (master : Bytes) (stream name : String) (codec : StateCodec)
      (note : Option String) (time : ℕ) (state : Fields)
      → IsAbsent b e s stream
      → law.IsValid s
      → Dict.get e.codecs name ≡ some codec
      → e.load (e.dump (base time name note state)) ≡ some (base time name note state)
      → HoldsLog b e
          (b.put s now
            (event_id e stream 0)
            (seal e.platform e.texts
              (nonces (event_id e stream 0))
              (key_for e master stream)
              stream
              "base"
              0
              (e.dump (base time name note state)))
            (record_metadata stream "event")).0
          master
          stream
          codec
          (new_log time name note state)
  unfolding find_codec numbered sorted insert_sorted
  HoldsLog-put_base s master stream name codec note time state absent valid found plain =
      let x = event_id e stream 0 in
      let blob =
        seal e.platform e.texts (nonces x) (key_for e master stream) stream "base" 0
          (e.dump (base time name note state)) in
      let meta = record_metadata stream "event" in
      let new = absent.no_event_id 0 in
      let s' = (b.put s now x blob meta).0 in
      let (xs, ys, before, after) = search-put_same sl e s now x blob stream "event" valid new in
      let (none_before, none_after) = nil-split xs ys (sym absent.no_events ∙ before) in
      let only : block_ids b e s' stream "event" ≡ x ∷ [] =
        after ∙ rw (none_before, none_after) refl in
      record {
        ids = rw only (rw (starts_with-event_id e stream 0, seq_of-event_id e d stream 0) refl);
        base_opens =
            open_record-put_self law e d a u s now x meta (nonces x) (key_for e master stream)
              stream "base" 0 (base time name note state) (sized x) plain;
        codec_found = rw found refl;
        stored = tt;
        fresh_event = λ n more.
            exists-put_other law e d s now x (event_id e stream n) blob meta
              (event_id-ne e d stream stream 0 n (λ p. absurd (omega arith)))
            ∙ absent.no_event_id n;
        fresh_snapshot = λ n more.
            exists-put_other law e d s now x (snapshot_id e stream n) blob meta
              (event_id-ne-snapshot_id e stream stream 0 n)
            ∙ absent.no_snapshot_id n;
        rising = tt;
        snapshots =
            rw
              (
                search-put_other sl e s now x blob stream "event" valid new stream "snapshot"
                    (rw (str_eq_refl stream) refl),
                absent.no_snapshots,
              )
              tt;
      }

  -- `create_stream` for a stream that has no block, on a lawful storage and with the key checked:
  -- if the id, the codec, the state and the time are accepted and JSON gives back the base record,
  -- then it is stored, and the store holds the log that has the starting state and no change yet.
  pub create_stream-IsReady :
      (s : EventStore b) (stream name : String) (codec : StateCodec) (note : Option String)
      (given : Json) (state : Fields) (ts : Option ℕ) (time : ℕ)
      → IsAbsent b e s.storage stream
      → law.IsValid s.storage
      → s.key_verified ≡ true
      → check_id stream ≡ ok tt
      → Dict.get e.codecs name ≡ some codec
      → (canonical e given >>= object_of) ≡ ok state
      → when now ts none ≡ ok time
      → e.load (e.dump (base time name note state)) ≡ some (base time name note state)
      → (s' : EventStore b) × (create_stream b e now nonces stream given name note ts s
          ≡ (s', ok (record { stream = stream; state = state; seq = 0; ts = time })))
        × IsReady law e s' stream codec (new_log time name note state)
  unfolding create_stream check_key put_record
  create_stream-IsReady s stream name codec note given state ts time absent valid verified named
        found parsed timed plain =
      let log = new_log time name note state in
      let x = event_id e stream 0 in
      let tail : Tail = tail_of_log log in
      let s1 = record s {
        storage =
            (b.put s.storage now x
              (seal e.platform e.texts (nonces x) (key_for e s.master stream) stream "base" 0
                (e.dump (base time name note state)))
              (record_metadata stream "event")).0;
      } in
      (
        record s1 { tails = remember_in s1.tails stream tail },
        rw (named, found, parsed, verified, absent.no_events, timed, absent.no_event_id 0) refl,
        record {
          holds =
              HoldsLog-put_base s.storage s.master stream name codec note time state absent valid
                found plain;
          valid = law.put-IsValid s.storage now x _ _ valid;
          verified = verified;
          cached = λ t h. get-remember_in s1.tails stream tail t h;
        },
      )
