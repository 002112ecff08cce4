-- ===== src/Events/Store/Writing/History.antt =====
-- What `history` tells of a store that holds a log.
use model_db.Prelude.{
  zero, ◌-◌, ◌≤◌, ◌≡◌, refl, sym, ◌↔◌, ◌⊎◌, inl, inr, true, false, none, some, [], ◌++◌, arith, leb,
  ◌==◌, ==_iff, Bool-cases, take, drop, keep, ok, take-append-drop, length-drop,
}
use model_db.Events.Sealing.{derive_stream_key}
use model_db.Events.Store.Listing.{is_outside, events_of, last_events}
use model_db.Events.Store.Writing.{history}
use model_db.Events.Store.{
  StateCodec, StreamEvent, Environment, EventStore, check_id, ℕ, List, Option, String, Bool, ◌∷◌,
  suc, length, not,
}
use model_db.Events.Store.Reading.Rebuilt.{HoldsLog, ordered_event_ids-ids_from}
use model_db.Storage.Interface.{Bytes, StorageBackend, IsLawful}
use model_db.Events.Json.{object, Fields}
use model_db.Events.Store.Reading.Replayed.{Entry, Log, ids_from, AreStored}
use model_db.Events.Store.Writing.Ready.{IsReady, check_key-IsReady}

-- the changes of a log as events, numbered from `n` on
abbrev pub events_from : ℕ → List Entry → List StreamEvent
events_from n [] = []
events_from n (en ∷ entries) =
    record { seq = n; ts = en.ts; kind = "event"; note = en.note; payload = en.payload }
    ∷ events_from (suc n) entries

-- the whole log: the state at the start, and the changes
abbrev pub log_events : Log → List StreamEvent
log_events log =
    record { seq = 0; ts = log.created; kind = "base"; note = log.note; payload = object log.start }
    ∷ events_from 1 log.entries

-- a time that is not outside the times asked for
abbrev pub IsSince : Option ℕ → ℕ → Type 0
IsSince none ts = Unit
IsSince (some since) ts = since ≤ ts

abbrev pub IsUntil : Option ℕ → ℕ → Type 0
IsUntil none ts = Unit
IsUntil (some until) ts = ts ≤ until

-- the events that a limit leaves away in front, and those that it shows: it leaves none away if it
-- is not given or 0, and otherwise shows as many as it says, or all if there are no more
abbrev pub AreLast : Option ℕ → List StreamEvent → List StreamEvent → Type 0
AreLast none front shown = front ≡ []
AreLast (some zero) front shown = front ≡ []
AreLast (some (suc n)) front shown =
    (length shown ≡ suc n) ⊎ ((front ≡ []) × (length shown ≤ suc n))

module _ (b : StorageBackend) (e : Environment) where
  abbrev pub is_told : Option ℕ → Option ℕ → StreamEvent → Bool
  is_told since until ev = not (is_outside b e since until ev.ts)

  events_of-stored :
      (s : b.Store) (key : Bytes) (stream : String) (codec : StateCodec) (since until : Option ℕ)
      (n : ℕ) (state : Fields) (entries : List Entry)
      → AreStored b e s key stream codec n state entries
      → events_of b e s key stream since until (ids_from e stream (suc n) (length entries))
        ≡ ok (keep (is_told since until) (events_from (suc n) entries))
  unfolding events_of
  events_of-stored s key stream codec since until n state [] st = refl
  events_of-stored s key stream codec since until n state (en ∷ entries) (there, _, st) =
      let rest = events_of-stored s key stream codec since until (suc n) en.state entries st in
      let later : (suc n == 0) ≡ false = ground (arith, ==_iff (suc n) 0) in
      elim (Bool-cases (is_outside b e since until en.ts)) [
        | inl out ↦ rw (later, there, rest, out) refl
        | inr told ↦ rw (later, there, rest, told) refl
      ]

  log_events-told :
      (s : b.Store) (master : Bytes) (stream : String) (codec : StateCodec) (log : Log)
      (since until : Option ℕ)
      → HoldsLog b e s master stream codec log
      → events_of b e s
          (derive_stream_key e.platform e.texts master stream)
          stream
          since
          until
          (ids_from e stream 0 (suc (length log.entries)))
        ≡ ok (keep (is_told since until) (log_events log))
  unfolding events_of
  log_events-told s master stream codec log since until h =
      let rest =
        events_of-stored s (derive_stream_key e.platform e.texts master stream) stream codec since
          until 0 log.start log.entries h.stored in
      elim (Bool-cases (is_outside b e since until log.created)) [
        | inl out ↦ rw (h.base_opens, rest, out) refl
        | inr told ↦ rw (h.base_opens, rest, told) refl
      ]

  is_told_iff :
      (since until : Option ℕ) (ev : StreamEvent)
      → (is_told since until ev ≡ true) ↔ (IsSince since ev.ts × IsUntil until ev.ts)
  is_told_iff none none ev = ground arith
  is_told_iff none (some t) ev = ground arith
  is_told_iff (some t) none ev = ground arith
  is_told_iff (some t) (some u) ev = ground arith

  last_events-AreLast :
      (limit : Option ℕ) (events : List StreamEvent)
      → (front : List StreamEvent) × (events ≡ front ++ last_events b e limit events)
        × AreLast limit front (last_events b e limit events)
  last_events-AreLast none events = ([], refl, refl)
  last_events-AreLast (some zero) events = ([], refl, refl)
  last_events-AreLast (some (suc n)) events =
      let left = length events - suc n in
      let last : last_events b e (some (suc n)) events ≡ drop left events = ground arith in
      let shown = length-drop left events in
      (
        take left events,
        rw last (sym (take-append-drop left events)),
        rw last (elim (Bool-cases (leb (length events) (suc n))) [
          | inl few ↦ let all : left ≡ 0 = ground arith in inr (rw all refl, ground arith)
          | inr many ↦ inl (ground arith)
        ]),
      )

module _ {sha256 : Bytes → String} {b : StorageBackend} (law : IsLawful sha256 b) (e : Environment)
    (now : ℕ) (nonces : String → Bytes) where
  -- `history` of a store that holds a log returns, in order, the start and the changes of the log whose
  -- times are within those asked for, of which a limit leaves the last ones: as many as it says, or all
  -- if there are no more, and all if it is 0 or not given. The store is left as it is.
  pub history-log_events :
      (s : EventStore b) (stream : String) (codec : StateCodec) (log : Log)
      (since until limit : Option ℕ)
      → IsReady law e s stream codec log
      → check_id stream ≡ ok tt
      → (p : StreamEvent → Bool) × ((ev : StreamEvent)
          → (p ev ≡ true) ↔ (IsSince since ev.ts × IsUntil until ev.ts))
        × (front : List StreamEvent) × (shown : List StreamEvent) × (history b e now nonces stream
              since until limit s
            ≡ (s, ok shown))
        × (keep p (log_events log) ≡ front ++ shown)
        × AreLast limit front shown
  unfolding history
  history-log_events s stream codec log since until limit r named =
      let told = keep (is_told b e since until) (log_events log) in
      let (front, whole, last) = last_events-AreLast b e limit told in
      (
        is_told b e since until,
        is_told_iff b e since until,
        front,
        last_events b e limit told,
        rw
            (
              named,
              check_key-IsReady law e now nonces s stream codec log r,
              ordered_event_ids-ids_from b e s.storage s.master stream codec log r.holds,
              log_events-told b e s.storage s.master stream codec log since until r.holds,
            )
            refl,
        whole,
        last,
      )
