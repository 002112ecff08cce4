-- ===== src/Examples/Agents/Changed.antt =====
-- A stream that is created and changed once.
use model_db.Prelude.{
  ℕ, ◌≤◌, ◌≡◌, refl, ◌↔◌, Bool, true, none, some, List, ◌++◌, keep, ok, ◌>>=◌, id_rest,
}
use model_db.Events.Codec.{
  changed, changed_at, removed, diff, op_json, keys_of, check_op, check_ops, validate, apply,
  apply_ops, apply_op, set_at, unset_at,
}
use model_db.Events.Json
use model_db.Events.Store.Reading.{rebuild, block_ids}
use model_db.Events.Store.Reading.Replayed.{Log}
use model_db.Events.Store.Reading.Rebuilt.{rebuild-read_log}
use model_db.Events.Store.Writing.{append, state_at, create_stream, history}
use model_db.Events.Store.Requests.{when, payload_for, canonical, object_of}
use model_db.Events.Store.Writing.Stored.{extended}
use model_db.Events.Store.Writing.Ready.{change, IsReady}
use model_db.Events.Store.Writing.Appended.{append-IsReady}
use model_db.Events.Store.Writing.Travel.{state_at-append}
use model_db.Events.Store.{EventStore, check_id, StreamEvent}
use model_db.Dict
use model_db.Dict.{Dict}
use model_db.Storage.Memory.{empty, exists, search}
use model_db.Storage.Memory.Lawful.{backend_laws}
use model_db.Events.Json.{
  Json, null, boolean, number, string, array, object, Fields, end, field, get,
}
use model_db.Events.Codec
use model_db.Events.Codec.Same.{IsTelling, is_object}
use model_db.Events.Codec.Valid.{apply-diff}
use model_db.Events.Store.Laws.Memory.{backend-IsSearchable}
use model_db.Events.Store.Writing.History.{
  IsSince, IsUntil, AreLast, log_events, history-log_events,
}
use model_db.Events.Store.Writing.Created.{IsAbsent, new_log, create_stream-IsReady}
use model_db.Examples.Cipher.{toy, toy-IsAuthenticated}
use model_db.Examples.Events.{texts-IsDistinct}
use model_db.Examples.Storage.{printed, empty-IsConsistent}
use model_db.Examples.Agents.{
  dumps, calm, busy, codec, busy_ops, env, env-IsDocumented, memory, law, nonces, dumps-IsTelling,
  agents,
}

apply-diff_example :
    (s : Fields) × (Codec.apply calm (array (Codec.ops_json (Codec.diff dumps calm busy))) ≡ ok s)
    × Codec.Same.Same dumps (some (object s)) (some (object busy))
unfolding get Codec.Valid.AllFit Codec.Valid.Fits Codec.Same.AreUnique Codec.Same.IsUnique
apply-diff_example =
    apply-diff dumps dumps-IsTelling calm busy (refl, tt, tt) (refl, tt, (refl, (refl, tt, tt), tt))
      (refl, tt, (refl, (refl, tt, tt), tt))

empty-IsAbsent : IsAbsent memory env agents.storage "s1"
unfolding block_ids search exists Dict.get Dict.select
empty-IsAbsent = record {
  no_events = refl;
  no_snapshots = refl;
  no_event_id = λ n. refl;
  no_snapshot_id = λ n. refl;
}

empty-IsValid : law.IsValid empty
unfolding backend_laws
empty-IsValid = empty-IsConsistent

named : check_id "s1" ≡ ok tt
unfolding check_id id_rest
named = refl

codec_found : Dict.get env.codecs "path-ops" ≡ some codec
unfolding Dict.get
codec_found = refl

canonical-calm : (canonical env (object calm) >>= object_of) ≡ ok calm
unfolding canonical
canonical-calm = refl

on_time : when 10 none none ≡ ok 10
unfolding when
on_time = refl

create_stream-IsReady_example :
    (s' : EventStore memory) × (create_stream memory env 10 nonces "s1"
        (object calm)
        "path-ops"
        none
        none
        agents
      ≡ (s', ok (record { stream = "s1"; state = calm; seq = 0; ts = 10 })))
    × IsReady law env s' "s1" codec (new_log 10 "path-ops" none calm)
create_stream-IsReady_example =
    create_stream-IsReady law (backend-IsSearchable toy.sha256 printed) env env-IsDocumented
      toy-IsAuthenticated texts-IsDistinct 10 nonces (λ _. refl) agents "s1" "path-ops" codec none
      (object calm) calm none 10 empty-IsAbsent empty-IsValid refl named codec_found canonical-calm
      on_time refl

abbrev first_log : Log
first_log = new_log 10 "path-ops" none calm

abbrev created :
    (s' : EventStore memory) × (create_stream memory env 10 nonces "s1"
        (object calm)
        "path-ops"
        none
        none
        agents
      ≡ (s', ok (record { stream = "s1"; state = calm; seq = 0; ts = 10 })))
    × IsReady law env s' "s1" codec first_log
created =
    create_stream-IsReady law (backend-IsSearchable toy.sha256 printed) env env-IsDocumented
      toy-IsAuthenticated texts-IsDistinct 10 nonces (λ _. refl) agents "s1" "path-ops" codec none
      (object calm) calm none 10 empty-IsAbsent empty-IsValid refl named codec_found canonical-calm
      on_time refl

busy_chosen : payload_for env codec calm (some (object busy)) none ≡ ok busy_ops
unfolding payload_for canonical diff changed changed_at removed get op_json
busy_chosen = refl

busy_accepted : codec.validate busy_ops ≡ ok tt
unfolding validate check_ops check_op keys_of diff changed changed_at removed get op_json
busy_accepted = refl

busy_applies : codec.apply calm busy_ops ≡ ok busy
unfolding apply apply_ops apply_op set_at Json.put validate check_ops check_op keys_of diff changed
    changed_at removed get op_json
busy_applies = refl

in_time : when 12 none (some 10) ≡ ok 12
unfolding when
in_time = refl

append-IsReady_example :
    (s' : EventStore memory) × (append memory env 12 nonces "s1"
        (some (object busy))
        none
        (some "a call")
        none
        (some 0)
        created.0
      ≡ (
        s',
        ok (record { seq = 1; ts = 12; kind = "event"; note = some "a call"; payload = busy_ops }),
      ))
    × IsReady law env s' "s1" codec (extended first_log (change (some "a call") 12 busy_ops busy))
append-IsReady_example =
    append-IsReady law (backend-IsSearchable toy.sha256 printed) env env-IsDocumented
      toy-IsAuthenticated texts-IsDistinct 12 nonces (λ _. refl) created.0 "s1" codec first_log
      (some (object busy)) none (some "a call") none (some 0) busy_ops busy 12 created.2 named refl
      busy_chosen busy_accepted busy_applies in_time refl refl

abbrev called : EventStore memory
called =
    (append memory env 12 nonces "s1" (some (object busy)) none (some "a call") none (some 0)
      created.0).0

state_at-append_example :
    ((k : ℕ)
      → k ≤ 0
      → (state_at memory env 12 nonces "s1" none
          (some k)
          (append memory env 12 nonces "s1"
            (some (object busy))
            none
            (some "a call")
            none
            (some 0)
            created.0).0).1
        ≡ (state_at memory env 12 nonces "s1" none (some k) created.0).1)
    × ((state_at memory env 12 nonces "s1" none
          (some 1)
          (append memory env 12 nonces "s1"
            (some (object busy))
            none
            (some "a call")
            none
            (some 0)
            created.0).0).1
        ≡ ok (record { stream = "s1"; state = busy; seq = 1; ts = 12 }))
state_at-append_example =
    state_at-append law (backend-IsSearchable toy.sha256 printed) env env-IsDocumented
      toy-IsAuthenticated texts-IsDistinct 12 nonces (λ _. refl) created.0 "s1" codec first_log
      (some (object busy)) none (some "a call") none (some 0) busy_ops busy 12 created.2 named refl
      busy_chosen busy_accepted busy_applies in_time refl refl

rebuild-read_log_example :
    rebuild memory env created.0.storage created.0.master "s1" none (some 0)
    ≡ ok (record { stream = "s1"; state = calm; seq = 0; ts = 10 })
rebuild-read_log_example =
    rebuild-read_log memory env created.0.storage created.0.master "s1" codec first_log
      created.2.holds none (some 0)

history-log_events_example :
    (p : StreamEvent → Bool) × ((ev : StreamEvent)
      → (p ev ≡ true) ↔ (IsSince (some 3) ev.ts × IsUntil none ev.ts))
    × (front : List StreamEvent) × (shown : List StreamEvent) × (history memory env 12 nonces "s1"
          (some 3)
          none
          (some 2)
          created.0
        ≡ (created.0, ok shown))
    × (keep p (log_events first_log) ≡ front ++ shown)
    × AreLast (some 2) front shown
history-log_events_example =
    history-log_events law env 12 nonces created.0 "s1" codec first_log (some 3) none (some 2)
      created.2 named
