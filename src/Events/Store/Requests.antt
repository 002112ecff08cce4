-- ===== src/Events/Store/Requests.antt =====
-- events/store.py: what the methods of EventStore make of the times, the payloads and the states that
-- they are given, and the constants of the class.
use model_db.Prelude.{
  ℕ, ◌+◌, ◌-◌, String, Bool, true, false, not, ◌&&◌, ◌||◌, Option, none, some, [], ◌∷◌, ◌++◌, ltb,
  ◌==◌, if◌then◌else◌, is_some, length, drop, Result, ok, err, ◌>>=◌, ◌>>◌, guard, str_eq, codes,
}
use model_db.Dict
use model_db.Dict.{Dict, contains}
use model_db.Storage.Interface.{Bytes, Metadata, text, StorageBackend}
use model_db.Events.Errors.{EventError, invalid_event, wrong_key, stream_corrupt}
use model_db.Events.Json.{Json, null, boolean, number, string, array, object, nil, Fields, end}
use model_db.Events.Sealing.{derive_stream_key}
use model_db.Events.Store.{StateCodec, Tail, Environment, EventStore, event_id, snapshot_id}

abbrev pub keycheck_id : String
keycheck_id = "keycheck:events"

abbrev pub keycheck_stream : String
keycheck_stream = "__keycheck__"

abbrev pub keycheck_plaintext : Bytes
keycheck_plaintext = codes "mdc-events-key-check"

abbrev pub cache_size : ℕ
cache_size = 256

-- `_MAX_CLOCK_SKEW`, five minutes
abbrev pub max_clock_skew : ℕ
max_clock_skew = 300000000

abbrev pub is_after_opt : ℕ → Option ℕ → Bool
is_after_opt t none = false
is_after_opt t (some floor) = ltb t floor

-- `max(when, floor) if floor is not None else when`
abbrev pub at_least_floor : ℕ → Option ℕ → ℕ
at_least_floor t none = t
at_least_floor t (some floor) = if ltb t floor then floor else t

-- `_when`
unfoldable pub when : ℕ → Option ℕ → Option ℕ → Result EventError ℕ
when now none floor = ok (at_least_floor now floor)
when now (some requested) floor =
    if ltb (now + max_clock_skew) requested
    then err invalid_event
    else (if is_after_opt requested floor
        then err invalid_event
        else ok (at_least_floor requested floor))

-- `self._tails[stream] = tail`, moved to the end, and the loop that drops the oldest
unfoldable pub remember_in : Dict Tail → String → Tail → Dict Tail
remember_in tails stream tail =
    let moved = Dict.remove tails stream ++ ((stream, tail) ∷ []) in
    drop (length moved - cache_size) moved

abbrev pub object_of : Json → Result EventError Fields
object_of (object d) = ok d
object_of _ = err invalid_event

abbrev pub rename_corrupt : {A : Type 0} → Result EventError A → Result EventError A
rename_corrupt (err (stream_corrupt _)) = err wrong_key
rename_corrupt r = r

abbrev pub record_metadata : String → String → Metadata
record_metadata stream kind = ("stream", text stream) ∷ ("kind", text kind) ∷ []

abbrev pub block_kind : String → String
block_kind kind = if str_eq kind "base" then "event" else kind

module _ {b : StorageBackend} where
  abbrev pub store_block : EventStore b → ℕ → String → Bytes → Metadata → EventStore b
  store_block s now x blob meta = record s { storage = (b.put s.storage now x blob meta).0 }

-- `expected_seq is not None and expected_seq != last_seq`
abbrev pub differs : Option ℕ → ℕ → Bool
differs none n = false
differs (some m) n = not (m == n)

-- `(state is None) == (payload is None)`, denied
abbrev pub is_choice : Option Json → Option Json → Bool
is_choice state payload =
    (is_some state || is_some payload) && not (is_some state && is_some payload)

module _ (e : Environment) where
  -- `not payload`
  abbrev pub is_falsy : Json → Bool
  is_falsy null = true
  is_falsy (boolean v) = not v
  is_falsy (number n) = e.is_zero n
  is_falsy (string s) = str_eq s ""
  is_falsy (array nil) = true
  is_falsy (object end) = true
  is_falsy _ = false

  -- `_canonical`, of what is plain JSON already
  unfoldable pub canonical : Json → Result EventError Json
  canonical value =
      if ltb e.max_record_bytes (e.json_size value) then err invalid_event else ok value

  abbrev pub key_for : Bytes → String → Bytes
  key_for master stream = derive_stream_key e.platform e.texts master stream

  abbrev pub block_id : String → String → ℕ → String
  block_id stream kind seq =
      if str_eq kind "snapshot" then snapshot_id e stream seq else event_id e stream seq

  -- what is to be written down: a payload, or the difference to a state
  unfoldable pub payload_for :
      StateCodec → Fields → Option Json → Option Json → Result EventError Json
  payload_for codec current (some state) none = do
    state' ← canonical state
    new_state ← object_of state'
    let payload = codec.diff current new_state
    guard (not (is_falsy payload)) invalid_event
    canonical payload
  payload_for codec current none (some payload) = canonical payload
  payload_for codec current _ _ = err invalid_event
