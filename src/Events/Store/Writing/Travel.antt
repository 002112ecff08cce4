-- ===== src/Events/Store/Writing/Travel.antt =====
-- What `state_at` says of a store that holds a log, and what an `append` leaves of it.
use model_db.Prelude.{
  ℕ, suc, ◌≤◌, String, ◌≡◌, refl, sym, ap, ◌∙◌, inl, inr, true, false, ◌&&◌, Option, none, some, [],
  ◌∷◌, ◌++◌, arith, leb, if◌then◌else◌, Bool-cases, is_some, length, length-append, ok, err,
}
use model_db.Storage.Interface.{Bytes, MetaFields, StorageBackend, IsLawful}
use model_db.Platform.{IsAuthenticated}
use model_db.Dna.Crypto.{nonce_len}
use model_db.Events.Errors.{invalid_event}
use model_db.Events.Json.{Json, Fields}
use model_db.Events.Sealing.{IsDistinct}
use model_db.Events.Store.{StateCodec, event, snapshot, Environment, EventStore, check_id}
use model_db.Events.Store.Laws.{IsDocumented, IsSearchable}
use model_db.Events.Store.Reading.Replayed.{Log, upto-number, reached, read_log, view_of}
use model_db.Events.Store.Reading.Rebuilt.{rebuild-read_log}
use model_db.Events.Store.Writing.{append, state_at}
use model_db.Events.Store.Requests.{when, payload_for, differs}
use model_db.Events.Store.Writing.Stored.{extended, last_state, last_ts, upto-append}
use model_db.Events.Store.Writing.Ready.{change, upto-last, IsReady, check_key-IsReady}
use model_db.Events.Store.Writing.Appended.{append-IsReady}

module _ {sha256 : Bytes → String} {b : StorageBackend} (law : IsLawful sha256 b) (e : Environment)
    (now : ℕ) (nonces : String → Bytes) where
  -- `state_at` of a store that holds a log is what the log says of the time, or of the number, and it
  -- leaves the store as it is. A time and a number together are refused.
  pub state_at-read_log :
      (s : EventStore b) (stream : String) (codec : StateCodec) (log : Log) (at seq : Option ℕ)
      → IsReady law e s stream codec log
      → check_id stream ≡ ok tt
      → state_at b e now nonces stream at seq s
        ≡ (s, (if is_some at && is_some seq then err invalid_event else read_log stream log at seq))
  unfolding state_at
  state_at-read_log s stream codec log at seq r named =
      elim (Bool-cases (is_some at && is_some seq)) [
        | inl both ↦ rw (named, both) refl
        | inr one ↦
            rw
              (
                named,
                one,
                check_key-IsReady law e now nonces s stream codec log r,
                rebuild-read_log b e s.storage s.master stream codec log r.holds at seq,
              )
              refl
      ]

  state_at-number :
      (s : EventStore b) (stream : String) (codec : StateCodec) (log : Log) (k : ℕ)
      → IsReady law e s stream codec log
      → check_id stream ≡ ok tt
      → k ≤ length log.entries
      → (state_at b e now nonces stream none (some k) s).1 ≡ ok (view_of stream (reached log k))
  state_at-number s stream codec log k r named less =
      let there : leb k (length log.entries) ≡ true = ground arith in
      rw (state_at-read_log s stream codec log none (some k) r named, there) refl

module _ {sha256 : Bytes → String} {b : StorageBackend} (law : IsLawful sha256 b)
    {repr : MetaFields → String} (sl : IsSearchable law repr) (e : Environment) (d : IsDocumented e)
    (a : IsAuthenticated e.platform) (u : IsDistinct e.texts) (now : ℕ) (nonces : String → Bytes)
    (sized : (x : String) → length (nonces x) ≡ nonce_len) where
  -- Time travel: on a lawful storage that holds the log of a stream, under a key that is verified, let
  -- the expected number, if one is given, be that of the last event, let the codec accept the payload, or the difference to the given state, let the time not be refused, and let JSON give
  -- back the new event and the new snapshot. After the `append`, every event number that there was
  -- before has the state, the number and the time that it had, and the next number has the new
  -- state.
  pub state_at-append :
      (s : EventStore b) (stream : String) (codec : StateCodec) (log : Log)
      (state payload : Option Json) (note : Option String) (ts expected : Option ℕ)
      (payload' : Json) (new_state : Fields) (time : ℕ)
      → IsReady law e s stream codec log
      → check_id stream ≡ ok tt
      → differs expected (reached log (length log.entries)).1 ≡ false
      → payload_for e codec (last_state log) state payload ≡ ok payload'
      → codec.validate payload' ≡ ok tt
      → codec.apply (last_state log) payload' ≡ ok new_state
      → when now ts (some (last_ts log)) ≡ ok time
      → e.load (e.dump (event time note payload')) ≡ some (event time note payload')
      → e.load (e.dump (snapshot time new_state)) ≡ some (snapshot time new_state)
      → ((k : ℕ)
          → k ≤ length log.entries
          → (state_at b e now nonces stream none
              (some k)
              (append b e now nonces stream state payload note ts expected s).0).1
            ≡ (state_at b e now nonces stream none (some k) s).1)
        × ((state_at b e now nonces stream none
              (some (suc (length log.entries)))
              (append b e now nonces stream state payload note ts expected s).0).1
            ≡ ok (record {
              stream = stream;
              state = new_state;
              seq = suc (length log.entries);
              ts = time;
            }))
  state_at-append s stream codec log state payload note ts expected payload' new_state time r named
        same chosen accepted applies timed plain plain' =
      let en = change note time payload' new_state in
      let (s', done, ready) =
        append-IsReady law sl e d a u now nonces sized s stream codec log state payload note ts
          expected payload' new_state time r named same chosen accepted applies timed plain
          plain' in
      let longer : length (log.entries ++ (en ∷ [])) ≡ suc (length log.entries) =
        omega (arith, length-append log.entries (en ∷ [])) in
      let count_eq : suc (reached log (length log.entries)).1 ≡ suc (length log.entries) = omega (
        arith,
        upto-number (log.start, 0, log.created) log.entries (length log.entries) (omega arith),
      ) in
      let grown = extended log en in
      let last : reached grown (suc (length log.entries))
          ≡ (new_state, suc (length log.entries), time) =
        ap (reached grown) (sym longer)
        ∙ upto-last (log.start, 0, log.created) log.entries en
        ∙ ap (λ (i : ℕ). (new_state, i, time)) count_eq in
      (
        λ k less. rw done (
            state_at-number law e now nonces s' stream codec grown k ready named
              (omega (arith, longer))
            ∙ ap (λ (q : Fields × ℕ × ℕ). ok (view_of stream q))
                (upto-append (log.start, 0, log.created) log.entries (en ∷ []) k less)
            ∙ sym (state_at-number law e now nonces s stream codec log k r named less)),
        rw done (
            state_at-number law e now nonces s' stream codec grown (suc (length log.entries)) ready
              named (omega (arith, longer))
            ∙ ap (λ (q : Fields × ℕ × ℕ). ok (view_of stream q)) last),
      )
