-- ===== src/Events/Store.antt =====
-- events/store.py: streams of sealed records. A time is an instant in microseconds of UTC, as `_utc`
-- makes it. What is Python's own and what other modules supply is in `Environment`; the storage is
-- any backend. A call that raises may have changed the object before, so it returns both.
pub mod Listing
pub mod Requests
pub mod Laws
pub mod Reading
pub mod Writing
pub mod Rotation
use model_db.Prelude.{
  ℕ, zero, suc, ◌+◌, ◌-◌, ◌*◌, ◌/◌, ◌%◌, ◌^◌, ◌≤◌, ◌<◌, String, ◌≡◌, refl, sym, ap, ◌∙◌, fun_ext,
  ◌≢◌, ◌↔◌, ◌⊎◌, inl, inr, Bool, true, false, not, ◌&&◌, ◌||◌, Option, none, some, List, [], ◌∷◌,
  ◌++◌, map, arith, ltb, leb, ◌==◌, ==_iff, if◌then◌else◌, leb→le, ltb→lt, Bool-cases, Option-cases,
  is_some, is_some-some, some_injective, length, get_elem?, take, drop, replicate, keep, all_of,
  any_of, All, length-append, take-length-append, drop-length-append, length-replicate, list_eq,
  list_eq_iff, get_or, has_prefix, has_prefix-append, Result, ok, err, ◌>>=◌, ◌>>◌, guard, map_ok,
  is_ok, is_ok-ok, Result-cases, >>=-eq-ok, ok-injective, map_ok-eq-ok, str_eq, str_eq_iff,
  str_eq_refl, ◌+ˢ◌, +ˢ_cancel_left, str_eq-prefix, codes, codes-append, codes_injective, ◌+ᶜ◌,
  Action, is_id,
}
use model_db.Dict.{Dict}
use model_db.Storage.Interface.{Bytes, Metadata, text, StorageBackend}
use model_db.Platform.{Platform}
use model_db.Events.Errors.{EventError, invalid_stream_id}
use model_db.Events.Json.{Json, Fields, array}
use model_db.Events.Codec
use model_db.Events.Sealing.{Texts}

-- `StateCodec`
pub record StateCodec : Type 0 where
  pub diff : Fields → Fields → Json
  pub apply : Fields → Json → Result EventError Fields
  pub validate : Json → Result EventError (Unit {0})

-- `PathOpsCodec` as a codec: what its checks find is for `apply` only
abbrev pub path_ops : (Json → String) → StateCodec
path_ops dumps = record {
  diff = λ old new. array (Codec.ops_json (Codec.diff dumps old new));
  apply = Codec.apply;
  validate = λ payload. map_ok (λ _. tt) (Codec.validate payload);
}

-- the JSON object of a sealed record, by its kind
pub data EventRecord : Type 0 where
  -- "ts", "codec", "note", "state"
  base : ℕ → String → Option String → Fields → EventRecord
  -- "ts", "note", "payload"
  event : ℕ → Option String → Json → EventRecord
  -- "ts", "state"
  snapshot : ℕ → Fields → EventRecord

pub record StreamEvent : Type 0 where
  pub seq : ℕ
  pub ts : ℕ
  pub kind : String
  pub note : Option String
  pub payload : Json

pub record StateView : Type 0 where
  pub stream : String
  pub state : Fields
  pub seq : ℕ
  pub ts : ℕ

pub record RotationReport : Type 0 where
  pub streams : ℕ
  pub records : ℕ
  pub already_current : ℕ

-- an entry of `_tails`
pub record Tail : Type 0 where
  pub codec : String
  pub seq : ℕ
  pub ts : ℕ
  pub state : Fields

pub record Environment : Type 0 where
  pub platform : Platform
  pub texts : Texts
  -- `f"{seq:012d}"` and `int(text)`
  pub pad : ℕ → String
  pub int_of : String → ℕ
  -- `text.rsplit(":", 1)[1]` and `text.split(":", 2)[1]`
  pub last_part : String → String
  pub second_part : String → String
  -- `s < t` on texts
  pub text_lt : String → String → Bool
  -- `json.dumps(record, ...).encode("utf-8")`, and `json.loads`, `none` for its JSONDecodeError
  pub dump : EventRecord → Bytes
  pub load : Bytes → Option EventRecord
  -- `len(json.dumps(value, ...).encode("utf-8"))`
  pub json_size : Json → ℕ
  -- `number == 0`
  pub is_zero : String → Bool
  -- what the constructor is given
  pub codecs : Dict StateCodec
  pub snapshot_every : ℕ
  pub max_record_bytes : ℕ

pub record EventStore (b : StorageBackend) : Type 0 where
  pub storage : b.Store
  pub master : Bytes
  pub key_verified : Bool
  pub tails : Dict Tail

abbrev pub Method : StorageBackend → Type 0 → Type 0
Method b A = Action (EventStore b) EventError A

unfoldable pub check_id : String → Result EventError (Unit {0})
check_id stream = guard (is_id (codes stream)) (invalid_stream_id stream)

abbrev pub event_prefix : String
event_prefix = "evt:"

abbrev pub snapshot_prefix : String
snapshot_prefix = "snp:"

abbrev pub starts_with : String → String → Bool
starts_with prefix block_id = has_prefix (codes prefix) (codes block_id)

module _ (e : Environment) where
  unfoldable pub event_id : String → ℕ → String
  event_id stream seq = event_prefix +ˢ (stream +ˢ (":" +ˢ e.pad seq))

  unfoldable pub snapshot_id : String → ℕ → String
  snapshot_id stream seq = snapshot_prefix +ˢ (stream +ˢ (":" +ˢ e.pad seq))

  unfoldable pub seq_of : String → ℕ
  seq_of block_id = e.int_of (e.last_part block_id)

  unfoldable pub stream_of : String → String
  stream_of block_id = e.second_part block_id

  -- `(seq, block_id) < (seq', block_id')`
  abbrev pub earlier : ℕ × String → ℕ × String → Bool
  earlier (m, x) (n, y) = ltb m n || (m == n && e.text_lt x y)

  abbrev pub later : ℕ × String → ℕ × String → Bool
  later x y = earlier y x
