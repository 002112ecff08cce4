-- ===== src/Events/Store/Writing/Ready.antt =====
-- A store that holds the log of a stream, and the tail that it remembers of it.
use model_db.Prelude.{
  ℕ, zero, suc, String, ◌≡◌, refl, ap, inl, inr, true, false, Option, none, some, List, [], ◌∷◌,
  ◌++◌, arith, Bool-cases, Option-cases, length, drop, ok, str_eq, str_eq_refl, ◌>>=ᴹ◌,
}
use model_db.Dict
use model_db.Dict.{Dict, get-remove}
use model_db.Storage.Interface.{Bytes, StorageBackend, IsLawful}
use model_db.Events.Json.{Json, Fields}
use model_db.Events.Store.{StateCodec, Tail, Environment, EventStore}
use model_db.Events.Store.Reading.Replayed.{Entry, Log, upto, reached}
use model_db.Events.Store.Reading.Rebuilt.{HoldsLog, rebuild-read_log}
use model_db.Events.Store.Writing.{read_tail, tail_of, check_key}
use model_db.Events.Store.Requests.{remember_in}
use model_db.Events.Store.Writing.Stored.{last_state, last_ts}

-- the change that `append` writes down
abbrev pub change : Option String → ℕ → Json → Fields → Entry
change note time payload new_state = record {
  ts = time;
  note = note;
  payload = payload;
  state = new_state;
}

-- what `_tails` keeps for a stream
abbrev pub tail_of_log : Log → Tail
tail_of_log log = record {
  codec = log.codec;
  seq = (reached log (length log.entries)).1;
  ts = last_ts log;
  state = last_state log;
}

pub upto-last :
    (r : Fields × ℕ × ℕ) (entries : List Entry) (en : Entry)
    → upto none r (entries ++ (en ∷ [])) (length (entries ++ (en ∷ [])))
      ≡ (en.state, suc (upto none r entries (length entries)).1, en.ts)
upto-last r [] en = refl
upto-last r (x ∷ entries) en = upto-last (x.state, suc r.1, x.ts) entries en

get-drop_last :
    (k : ℕ) (tails : Dict Tail) (stream : String) (tail t : Tail)
    → Dict.get tails stream ≡ none
    → Dict.get (drop k (tails ++ ((stream, tail) ∷ []))) stream ≡ some t
    → t ≡ tail
unfolding Dict.get
get-drop_last zero [] stream tail t absent h = ground (arith, str_eq_refl stream)
get-drop_last (suc zero) [] stream tail t absent h = absurd (cc)
get-drop_last (suc (suc k)) [] stream tail t absent h = absurd (cc)
get-drop_last zero ((j, v) ∷ tails) stream tail t absent h = elim (Bool-cases (str_eq j stream)) [
  | inl same ↦ absurd (ground arith)
  | inr other ↦ get-drop_last zero tails stream tail t (rw other at absent) (rw other at h)
]
get-drop_last (suc k) ((j, v) ∷ tails) stream tail t absent h =
    get-drop_last k tails stream tail t (ground arith) h

-- What is remembered of a stream is the last tail, or nothing.
pub get-remember_in :
    (tails : Dict Tail) (stream : String) (tail t : Tail)
    → Dict.get (remember_in tails stream tail) stream ≡ some t
    → t ≡ tail
unfolding remember_in
get-remember_in tails stream tail t h =
    get-drop_last _ (Dict.remove tails stream) stream tail t
      (rw (get-remove tails stream stream, str_eq_refl stream) refl) h

-- The store holds the log of a stream, and remembers of it what is so.
pub record IsReady {sha256 : Bytes → String} {b : StorageBackend} (law : IsLawful sha256 b)
    (e : Environment) (s : EventStore b) (stream : String) (codec : StateCodec) (log : Log)
    : Type 0 where
  pub holds : HoldsLog b e s.storage s.master stream codec log
  pub valid : law.IsValid s.storage
  pub verified : s.key_verified ≡ true
  pub cached : (tail : Tail) → Dict.get s.tails stream ≡ some tail → tail ≡ tail_of_log log

module _ {sha256 : Bytes → String} {b : StorageBackend} (law : IsLawful sha256 b) (e : Environment)
    (now : ℕ) (nonces : String → Bytes) where
  pub read_tail-IsReady :
      (s : EventStore b) (stream : String) (codec : StateCodec) (log : Log)
      → IsReady law e s stream codec log
      → read_tail b e s.storage s.master stream ≡ ok (tail_of_log log)
  unfolding read_tail
  read_tail-IsReady s stream codec log r =
      rw
        (
          rebuild-read_log b e s.storage s.master stream codec log r.holds none none,
          r.holds.base_opens,
        )
        refl

  -- the tail, from the cache or from the log
  pub tail_of-IsReady :
      (s : EventStore b) (stream : String) (codec : StateCodec) (log : Log)
      → IsReady law e s stream codec log
      → (s' : EventStore b) × (tail_of b e now nonces stream s ≡ (s', ok (tail_of_log log)))
        × IsReady law e s' stream codec log
        × (s'.key_verified ≡ s.key_verified)
  unfolding tail_of remember_in
  tail_of-IsReady s stream codec log r = elim (Option-cases (Dict.get s.tails stream)) [
    | inl absent ↦ (
      record s { tails = remember_in s.tails stream (tail_of_log log) },
      rw (absent, tail_of) (rw (read_tail-IsReady s stream codec log r, ◌>>=ᴹ◌) refl),
      record {
        holds = r.holds;
        valid = r.valid;
        verified = r.verified;
        cached = λ t h. get-remember_in s.tails stream (tail_of_log log) t h;
      },
      refl,
    )
    | inr (tail, there) ↦
        (s, rw (there, tail_of) (ap (λ t. (s, ok t)) (r.cached tail there)), r, refl)
  ]

  pub check_key-IsReady :
      (s : EventStore b) (stream : String) (codec : StateCodec) (log : Log)
      → IsReady law e s stream codec log
      → check_key b e now nonces false s ≡ (s, ok tt)
  unfolding check_key
  check_key-IsReady s stream codec log r = rw r.verified refl
