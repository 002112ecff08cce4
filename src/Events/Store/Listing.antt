-- ===== src/Events/Store/Listing.antt =====
-- events/store.py: the list of the streams, and the events of a history.
use model_db.Prelude.{
  ℕ, zero, suc, ◌-◌, String, Bool, false, not, ◌||◌, Option, none, some, List, [], ◌∷◌, ltb, ◌==◌,
  if◌then◌else◌, length, drop, Result, ok, ◌>>=◌, map_ok, sorted,
}
use model_db.Dict
use model_db.Dict.{Dict}
use model_db.Storage.Interface.{Bytes, StorageBackend}
use model_db.Events.Errors.{EventError}
use model_db.Events.Json.{object}
use model_db.Events.Store.{
  EventRecord, StreamEvent, Environment, event_prefix, starts_with, seq_of, stream_of,
}
use model_db.Events.Store.Reading.{
  ts_of, note_of, state_of, payload_of, is_before, block_ids, open_record,
}

module _ (b : StorageBackend) (e : Environment) where
  -- `counts[stream] = max(counts.get(stream, 0), _seq_of(block_id))`
  abbrev pub or_zero : Option ℕ → ℕ
  or_zero none = 0
  or_zero (some n) = n

  abbrev pub larger : ℕ → ℕ → ℕ
  larger m n = if ltb m n then n else m

  -- the loop of `list_streams_in`
  unfoldable pub count_events : Dict ℕ → List String → Dict ℕ
  count_events counts [] = counts
  count_events counts (x ∷ ids) =
      count_events
        (if starts_with event_prefix x
          then Dict.put counts (stream_of e x)
              (larger (or_zero (Dict.get counts (stream_of e x))) (seq_of e x))
          else counts)
        ids

  abbrev pub by_name : String × ℕ → String × ℕ → Bool
  by_name (x, _) (y, _) = e.text_lt x y

  unfoldable pub list_streams_in : b.Store → List (String × ℕ)
  list_streams_in s = sorted by_name (count_events [] (b.search s (("kind", "event") ∷ [])))

  -- `bool(self._block_ids(stream, "event"))`
  abbrev pub has_events : b.Store → String → Bool
  has_events s stream = not (length (block_ids b e s stream "event") == 0)

  abbrev pub is_outside : Option ℕ → Option ℕ → ℕ → Bool
  is_outside since until ts = elim since [ none ↦ false | some t ↦ ltb ts t ] || is_before until ts

  abbrev pub event_of : ℕ → EventRecord → Result EventError StreamEvent
  event_of zero r = state_of r >>= λ state.
      ok (record { seq = 0; ts = ts_of r; kind = "base"; note = note_of r; payload = object state })
  event_of (suc n) r = payload_of r >>= λ payload.
      ok (record { seq = suc n; ts = ts_of r; kind = "event"; note = note_of r; payload = payload })

  -- the loop of `history`
  unfoldable pub events_of :
      b.Store
      → Bytes
      → String
      → Option ℕ
      → Option ℕ
      → List (ℕ × String)
      → Result EventError (List StreamEvent)
  events_of s key stream since until [] = ok []
  events_of s key stream since until ((seq, block_id) ∷ ids) = do
    r ← open_record b e s key stream (if seq == 0 then "base" else "event") seq block_id
    let rest = events_of s key stream since until ids
    (if is_outside since until (ts_of r)
        then rest
        else event_of seq r >>= (λ first. map_ok (λ events. first ∷ events) rest))

  -- `events[-limit:] if limit else events`
  abbrev pub last_events : Option ℕ → List StreamEvent → List StreamEvent
  last_events none events = events
  last_events (some limit) events =
      if limit == 0 then events else drop (length events - limit) events
