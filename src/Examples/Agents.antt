-- ===== src/Examples/Agents.antt =====
-- An event store on the memory store: what the runs take for the clock, the cipher and the texts.
mod Changed
mod Rotated
use Prim.Native.String.{String}
use Prim.Native.String.append
use Prim.Native.Char.{code}
use model_db.Prelude.{
  ℕ, zero, suc, ◌+◌, ◌-◌, ◌*◌, ◌/◌, ◌%◌, ◌^◌, ◌≤◌, ◌<◌, ◌≡◌, refl, sym, ap, ◌∙◌, fun_ext, ◌≢◌, ◌↔◌,
  ◌⊎◌, inl, inr, Bool, true, false, not, ◌&&◌, ◌||◌, Option, none, some, List, [], ◌∷◌, ◌++◌, map,
  arith, ltb, leb, ◌==◌, ==_iff, if◌then◌else◌, leb→le, ltb→lt, Bool-cases, Option-cases, is_some,
  is_some-some, some_injective, length, get_elem?, take, drop, replicate, keep, all_of, any_of, All,
  length-append, take-length-append, drop-length-append, length-replicate, list_eq, list_eq_iff,
  get_or, has_prefix, has_prefix-append, Result, ok, err, ◌>>=◌, ◌>>◌, guard, map_ok, is_ok,
  is_ok-ok, Result-cases, >>=-eq-ok, ok-injective, map_ok-eq-ok, str_eq, str_eq_iff, str_eq_refl,
  ◌+ˢ◌, +ˢ_cancel_left, str_eq-prefix, codes, codes-append, codes_injective, ◌+ᶜ◌, insert_sorted,
  sorted, id_rest,
}
use model_db.Events.Codec.{
  changed, changed_at, removed, diff, op_json, keys_of, check_op, check_ops, validate, apply,
  apply_ops, apply_op, set_at, unset_at,
}
use model_db.Events.Json
use model_db.Events.Store.Reading.{rebuild, block_ids}
use model_db.Events.Store.Listing.{list_streams_in, count_events}
use model_db.Events.Store.Reading.Replayed.{Log}
use model_db.Events.Store.Reading.Rebuilt.{rebuild-read_log}
use model_db.Events.Store.Writing.{
  append, state_at, write_keycheck, check_key, put_record, delete_stream, delete_blocks,
  create_stream,
}
use model_db.Events.Store.Requests.{
  when, payload_for, keycheck_id, remember_in, canonical, object_of,
}
use model_db.Events.Store.Writing.Stored.{extended}
use model_db.Events.Store.Writing.Ready.{change, IsReady}
use model_db.Events.Store.Writing.Appended.{append-IsReady}
use model_db.Events.Store.Writing.Travel.{state_at-read_log, state_at-append}
use model_db.Events.Store.{
  event_id, snapshot_id, StateCodec, path_ops, EventRecord, base, event, snapshot, Environment,
  EventStore, check_id,
}
use model_db.Events.Store.Rotation.{finished_under, rotate_key}
use model_db.Events.Store.Rotation.Forgotten.{reopened, rotate_key-forgets_keycheck}
use model_db.Storage.Memory
use model_db.Events.Sealing.{open_sealed, seal, derive_stream_key}
use model_db.Events.Errors.{wrong_key}
use model_db.Examples.Dna.{new_key, old_key, nonce}
use model_db.Dict
use model_db.Dict.{Dict}
use model_db.Storage.Interface.{Bytes, StorageBackend, IsLawful}
use model_db.Storage.Memory.{empty, exists, search, backend}
use model_db.Storage.Memory.Lawful.{backend_laws}
use model_db.Events.Json.{
  Json, null, boolean, number, string, array, object, Fields, end, field, get,
}
use model_db.Events.Codec
use model_db.Events.Codec.Same.{IsTelling, is_object}
use model_db.Events.Codec.Valid.{apply-diff}
use model_db.Events.Store.Laws.{IsDocumented}
use model_db.Events.Store.Laws.Memory.{backend-IsSearchable}
use model_db.Events.Store.Writing.Created.{IsAbsent, new_log, create_stream-IsReady}
use model_db.Examples.Cipher.{toy, toy-IsAuthenticated}
use model_db.Examples.Events.{strokes, texts, texts-IsDistinct, length-codes-strokes}
use model_db.Examples.Storage.{printed, empty-IsConsistent}

-- `text.rsplit(":", 1)[1]`
abbrev colon_in : String → Bool
colon_in String.[] = false
colon_in (String.◌∷◌ c s) = let later = colon_in s in code c == 58 || later

abbrev last_part : String → String
last_part String.[] = String.[]
last_part (String.◌∷◌ c s) = let later = last_part s in if colon_in s then later else s

colon_in-append : (s t : String) → colon_in t ≡ true → colon_in (s +ˢ t) ≡ true
colon_in-append String.[] t h = rw (append.nil t) h
colon_in-append (String.◌∷◌ c s) t h = rw (append.cons c s t, colon_in-append s t h) (ground arith)

last_part-append : (s t : String) → colon_in t ≡ true → last_part (s +ˢ t) ≡ last_part t
last_part-append String.[] t h = rw (append.nil t) refl
last_part-append (String.◌∷◌ c s) t h =
    rw (append.cons c s t, colon_in-append s t h) (last_part-append s t h)

colon_in-strokes : (n : ℕ) → colon_in (strokes n) ≡ false
colon_in-strokes zero = refl
colon_in-strokes (suc n) = colon_in-strokes n

colon-strokes :
    (n : ℕ) → (colon_in (":" +ˢ strokes n) ≡ true) × (last_part (":" +ˢ strokes n) ≡ strokes n)
colon-strokes n = (
  rw (append.cons _ String.[] (strokes n)) refl,
  rw (append.cons _ String.[] (strokes n), append.nil (strokes n), colon_in-strokes n) refl,
)

last_part-strokes :
    (head stream : String) (n : ℕ) → last_part (head +ˢ (stream +ˢ (":" +ˢ strokes n))) ≡ strokes n
last_part-strokes head stream n =
    last_part-append head _ (colon_in-append stream _ (colon-strokes n).0)
    ∙ last_part-append stream _ (colon-strokes n).0
    ∙ (colon-strokes n).1

-- the texts of JSON values, as far as the runs tell them apart
abbrev pub dumps : Json → String
dumps (object _) = "{}"
dumps (string s) = String.◌∷◌ (Prim.Native.Char.char 34 tt) s
dumps (array _) = "[]"
dumps (number s) = "0"
dumps (boolean _) = "true"
dumps null = "null"

abbrev first_code : String → ℕ
first_code String.[] = 0
first_code (String.◌∷◌ c s) = code c

dumps-object : (d : Fields) (v : Json) → is_object v ≡ false → dumps (object d) ≢ dumps v
dumps-object d null h p = absurd (omega (arith, ap first_code p))
dumps-object d (boolean _) h p = absurd (omega (arith, ap first_code p))
dumps-object d (number _) h p = absurd (omega (arith, ap first_code p))
dumps-object d (string _) h p = absurd (omega (arith, ap first_code p))
dumps-object d (array _) h p = absurd (omega (arith, ap first_code p))
dumps-object d (object _) h p = absurd (cc)

pub dumps-IsTelling : IsTelling dumps
dumps-IsTelling = record { object_text = dumps-object }

abbrev pub calm : Fields
calm = field "mood" (string "calm") end

abbrev pub busy : Fields
busy = field "mood" (string "busy") (field "task" (object (field "id" (number "7") end)) end)

abbrev pub codec : StateCodec
codec = path_ops dumps

-- what `append` writes down for the change from the calm state to the busy one
abbrev pub busy_ops : Json
busy_ops = codec.diff calm busy

-- A record is its tag and its time; what is read is what the run writes.
abbrev toy_dump : EventRecord → Bytes
toy_dump (base ts _ _ _) = 0 ∷ ts ∷ []
toy_dump (event ts _ _) = 1 ∷ ts ∷ []
toy_dump (snapshot ts _) = 2 ∷ ts ∷ []

abbrev toy_load : Bytes → Option EventRecord
toy_load (zero ∷ ts ∷ []) = some (base ts "path-ops" none calm)
toy_load (suc zero ∷ ts ∷ []) = some (event ts (some "a call") busy_ops)
toy_load (suc (suc zero) ∷ ts ∷ []) = some (snapshot ts busy)
toy_load _ = none

-- a snapshot after every event
abbrev pub env : Environment
env = record {
  platform = toy;
  texts = texts;
  pad = strokes;
  int_of = λ s. length (codes s);
  last_part = last_part;
  second_part = λ s. s;
  text_lt = λ s t. false;
  dump = toy_dump;
  load = toy_load;
  json_size = λ _. 0;
  is_zero = λ s. str_eq s "0";
  codecs = ("path-ops", codec) ∷ [];
  snapshot_every = 1;
  max_record_bytes = 100;
}

pub env-IsDocumented : IsDocumented env
env-IsDocumented = record { int_of-pad = length-codes-strokes; last_part-pad = last_part-strokes }

abbrev pub memory : StorageBackend
memory = backend toy.sha256 printed

abbrev pub law : IsLawful toy.sha256 memory
law = backend_laws toy.sha256 printed

abbrev pub nonces : String → Bytes
nonces _ = nonce

abbrev agents : EventStore memory
agents = record { storage = empty; master = old_key; key_verified = true; tails = [] }
