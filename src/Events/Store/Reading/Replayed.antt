-- ===== src/Events/Store/Reading/Replayed.antt =====
-- What a log is, as a list of changes with the states that they lead to, and that a rebuilt state is
-- the state of the log, from whatever snapshot the replay starts.
use model_db.Prelude.{
  ℕ, zero, suc, ◌+◌, ◌≤◌, ◌<◌, String, ◌≡◌, refl, sym, ap, inl, inr, false, Option, none, some,
  List, [], ◌∷◌, arith, ltb, leb, ==_iff, if◌then◌else◌, Bool-cases, length, get_elem?, drop, All,
  Result, ok, err,
}
use model_db.Storage.Interface.{Bytes, StorageBackend}
use model_db.Events.Json.{Json, Fields}
use model_db.Events.Store.{
  StateCodec, event, snapshot, StateView, Environment, event_id, EventError, snapshot_id,
}
use model_db.Events.Store.Reading.{
  is_before, last_of, check_numbers, open_record, id_at, from_snapshot, replay, invalid_event,
  state_not_yet,
}

-- a change, with the state after it
pub record Entry : Type 0 where
  pub ts : ℕ
  pub note : Option String
  pub payload : Json
  pub state : Fields

pub record Log : Type 0 where
  pub created : ℕ
  pub codec : String
  pub note : Option String
  pub start : Fields
  pub entries : List Entry

-- the first `k` changes, less those from the first one on that is later than `at`
abbrev pub upto : Option ℕ → Fields × ℕ × ℕ → List Entry → ℕ → Fields × ℕ × ℕ
upto at r entries zero = r
upto at r [] (suc k) = r
upto at (state, n, ts) (en ∷ entries) (suc k) =
    let rest = upto at (en.state, suc n, en.ts) entries k in
    if is_before at en.ts then (state, n, ts) else rest

-- the log after `k` changes
abbrev pub reached : Log → ℕ → Fields × ℕ × ℕ
reached log k = upto none (log.start, 0, log.created) log.entries k

-- no change is earlier than the one before it
abbrev pub IsRising : ℕ → List Entry → Type 0
IsRising ts [] = Unit
IsRising ts (en ∷ entries) = (ts ≤ en.ts) × IsRising en.ts entries

-- `count` event ids from number `n` on
abbrev pub ids_from : Environment → String → ℕ → ℕ → List (ℕ × String)
ids_from e stream n zero = []
ids_from e stream n (suc count) = (n, event_id e stream n) ∷ ids_from e stream (suc n) count

get_elem?-ids_from :
    (e : Environment) (stream : String) (n i count : ℕ)
    → i < count
    → get_elem? (ids_from e stream n count) i ≡ some (n + i, event_id e stream (n + i))
get_elem?-ids_from e stream n i zero h = absurd (omega arith)
get_elem?-ids_from e stream n zero (suc count) h =
    let same : n + 0 ≡ n = omega arith in rw same refl
get_elem?-ids_from e stream n (suc i) (suc count) h =
    let same : n + suc i ≡ suc n + i = omega arith in
    rw same (get_elem?-ids_from e stream (suc n) i count (omega arith))

is_before_le : (at : Option ℕ) (m n : ℕ) → m ≤ n → is_before at n ≡ false → is_before at m ≡ false
is_before_le none m n h early = refl
is_before_le (some t) m n h early = ground arith

ts-le-upto :
    (r : Fields × ℕ × ℕ) (entries : List Entry) (n : ℕ)
    → IsRising r.2 entries
    → r.2 ≤ (upto none r entries n).2
ts-le-upto r entries zero up = omega arith
ts-le-upto r [] (suc n) up = omega arith
ts-le-upto r (en ∷ entries) (suc n) (up, ups) =
    omega (arith, ts-le-upto (en.state, suc r.1, en.ts) entries n ups)

-- A replay that goes on from an earlier point gets where the whole one gets.
pub upto-resume :
    (at : Option ℕ) (r : Fields × ℕ × ℕ) (entries : List Entry) (n m : ℕ)
    → IsRising r.2 entries
    → n ≤ length entries
    → is_before at (upto none r entries n).2 ≡ false
    → upto at (upto none r entries n) (drop n entries) m ≡ upto at r entries (n + m)
upto-resume at r entries zero m up h early = let same : 0 + m ≡ m = omega arith in rw same refl
upto-resume at r [] (suc n) m up h early = absurd (omega arith)
upto-resume at (state, i, ts) (en ∷ entries) (suc n) m (up, ups) h early =
    let same : suc n + m ≡ suc (n + m) = omega arith in
    let not_later : is_before at en.ts ≡ false =
      is_before_le at en.ts _ (ts-le-upto (en.state, suc i, en.ts) entries n ups) early in
    rw (same, not_later)
      (upto-resume at (en.state, suc i, en.ts) entries n m ups (omega arith) early)

pub upto-number :
    (r : Fields × ℕ × ℕ) (entries : List Entry) (n : ℕ)
    → n ≤ length entries
    → (upto none r entries n).1 ≡ r.1 + n
upto-number r entries zero h = omega arith
upto-number r [] (suc n) h = absurd (omega arith)
upto-number r (en ∷ entries) (suc n) h =
    omega (arith, upto-number (en.state, suc r.1, en.ts) entries n (omega arith))

pub check_numbers-ids_from :
    (e : Environment) (stream : String) (n count : ℕ)
    → check_numbers stream n (ids_from e stream n count) ≡ ok tt
unfolding check_numbers
check_numbers-ids_from e stream n zero = refl
check_numbers-ids_from e stream n (suc count) =
    rw ((==_iff n n).1 refl) (check_numbers-ids_from e stream (suc n) count)

pub last_of-ids_from :
    (e : Environment) (stream : String) (n count : ℕ) (x : String)
    → (last_of (n, x) (ids_from e stream (suc n) count)).0 ≡ n + count
last_of-ids_from e stream n zero x = omega arith
last_of-ids_from e stream n (suc count) x =
    omega (arith, last_of-ids_from e stream (suc n) count (event_id e stream (suc n)))

-- What a log says of a time and a number: the changes up to both, an error for a number that it
-- does not have, and one for a time before it was made.
abbrev pub view_of : String → Fields × ℕ × ℕ → StateView
view_of stream (state, n, ts) = record { stream = stream; state = state; seq = n; ts = ts }

abbrev pub read_to : String → Log → Option ℕ → ℕ → Result EventError StateView
read_to stream log at target =
    if is_before at log.created
    then err (state_not_yet stream)
    else ok (view_of stream (upto at (log.start, 0, log.created) log.entries target))

abbrev pub read_log : String → Log → Option ℕ → Option ℕ → Result EventError StateView
read_log stream log at none = read_to stream log at (length log.entries)
read_log stream log at (some seq) =
    if leb seq (length log.entries) then read_to stream log at seq else err invalid_event

module _ (b : StorageBackend) (e : Environment) (s : b.Store) (key : Bytes) (stream : String)
    (codec : StateCodec) where
  -- the changes are stored from number `suc n` on, and each leads to its state
  abbrev pub AreStored : ℕ → Fields → List Entry → Type 0
  AreStored n state [] = Unit
  AreStored n state (en ∷ entries) =
      (open_record b e s key stream "event" (suc n) (event_id e stream (suc n))
        ≡ ok (event en.ts en.note en.payload))
      × (codec.apply state en.payload ≡ ok en.state)
      × AreStored (suc n) en.state entries

  -- a snapshot is of a state that the log has reached
  abbrev pub IsSnapshot : Log → ℕ × String → Type 0
  IsSnapshot log (n, x) =
      (n ≤ length log.entries)
      × (x ≡ snapshot_id e stream n)
      × (open_record b e s key stream "snapshot" n x
          ≡ ok (snapshot (reached log n).2 (reached log n).0))

  id_at-ids_from :
      (i count : ℕ)
      → i < count
      → id_at b e stream (ids_from e stream 0 count) i ≡ ok (event_id e stream i)
  id_at-ids_from i count h =
      let same : 0 + i ≡ i = omega arith in
      rw (get_elem?-ids_from e stream 0 i count h, id_at) (rw same refl)

  -- the loop over the events, from a state that the log has reached
  pub replay-upto :
      (at : Option ℕ) (count : ℕ) (n ts total : ℕ) (state : Fields) (entries : List Entry)
      → AreStored n state entries
      → count ≤ length entries
      → n + length entries < total
      → replay b e s key stream codec at (ids_from e stream 0 total) (suc n) count (state, n, ts)
        ≡ ok (upto at (state, n, ts) entries count)
  unfolding replay
  replay-upto at zero n ts total state entries st h h' = refl
  replay-upto at (suc count) n ts total state [] st h h' = absurd (omega arith)
  replay-upto at (suc count) n ts total state (en ∷ entries) (opens, applies, st) h h' =
      rw (id_at-ids_from (suc n) total (omega arith), opens)
        (elim (Bool-cases (is_before at en.ts)) [
          | inl late ↦ rw late refl
          | inr early ↦
              rw (early, applies)
                (replay-upto at count (suc n) en.ts total en.state entries st (omega arith)
                  (omega arith))
        ])

  -- the loop over the snapshots finds a state that the log has reached by then
  pub from_snapshot-reached :
      (log : Log) (at : Option ℕ) (target : ℕ) (snapshots : List (ℕ × String))
      → All (IsSnapshot log) snapshots
      → is_before at log.created ≡ false
      → (n : ℕ) × (n ≤ target)
        × (n ≤ length log.entries)
        × (is_before at (reached log n).2 ≡ false)
        × (from_snapshot b e s key stream at target (log.start, 0, log.created) snapshots
            ≡ ok (reached log n))
  unfolding from_snapshot
  from_snapshot-reached log at target [] _ early = (zero, omega arith, omega arith, early, refl)
  from_snapshot-reached log at target ((n, x) ∷ snapshots) ((short, _, opens), others) early =
      let rest = from_snapshot-reached log at target snapshots others early in
      elim (Bool-cases (ltb target n)) [
        | inl beyond ↦ rw beyond rest
        | inr near ↦
            rw (near, opens)
              (elim (Bool-cases (is_before at (reached log n).2)) [
                | inl late ↦ rw late rest
                | inr not_late ↦ rw not_late (
                  n,
                  ground arith,
                  short,
                  not_late,
                  let number : (reached log n).1 ≡ n =
                        omega
                          (arith, upto-number (log.start, 0, log.created) log.entries n short) in
                      ap (λ i. ok ((reached log n).0, i, (reached log n).2)) (sym number),
                )
              ])
      ]
