-- ===== src/Events/Store/Writing/Stored.antt =====
-- What a storage that holds a log holds after an event, or a snapshot, is written to it.
use model_db.Errors.{Error}
use model_db.Index.{is_key_error}
use model_db.Events.Errors.{EventError, stream_corrupt, storage}
use model_db.Prelude.{
  ℕ, zero, suc, ◌+◌, ◌≤◌, String, ◌≡◌, refl, sym, ap, ◌∙◌, inl, inr, true, false, ◌&&◌, none, List,
  [], ◌∷◌, ◌++◌, arith, Bool-cases, length, Result, ok, err, is_ok, >>=-eq-ok, ok-injective, str_eq,
  str_eq_iff, str_eq_refl,
}
use model_db.Dict
use model_db.Dict.{Dict}
use model_db.Storage.Interface.{Bytes, Metadata, MetaFields, StorageBackend, IsLawful}
use model_db.Storage.Memory.{fits}
use model_db.Platform.{IsAuthenticated}
use model_db.Dna.Crypto.{nonce_len}
use model_db.Events.Json.{Fields}
use model_db.Events.Sealing.{IsDistinct, seal, open_sealed-seal}
use model_db.Events.Store.{StateCodec, EventRecord, event, Environment, event_id, some}
use model_db.Events.Store.Laws.{IsDocumented}
use model_db.Events.Store.Reading.{or_missing, search_filter, open_record}
use model_db.Events.Store.Reading.Replayed.{Entry, Log, upto, reached, IsRising, AreStored}
use model_db.Events.Store.Requests.{record_metadata}

-- the log with one more change
abbrev pub extended : Log → Entry → Log
extended log en = record log { entries = log.entries ++ (en ∷ []) }

abbrev pub last_state : Log → Fields
last_state log = (reached log (length log.entries)).0

abbrev pub last_ts : Log → ℕ
last_ts log = (reached log (length log.entries)).2

pub upto-append :
    (r : Fields × ℕ × ℕ) (entries more : List Entry) (n : ℕ)
    → n ≤ length entries
    → upto none r (entries ++ more) n ≡ upto none r entries n
upto-append r entries more zero h = refl
upto-append r [] more (suc n) h = absurd (omega arith)
upto-append r (en ∷ entries) more (suc n) h =
    upto-append (en.state, suc r.1, en.ts) entries more n (omega arith)

pub IsRising-append :
    (r : Fields × ℕ × ℕ) (entries : List Entry) (en : Entry)
    → IsRising r.2 entries
    → (upto none r entries (length entries)).2 ≤ en.ts
    → IsRising r.2 (entries ++ (en ∷ []))
IsRising-append r [] en up h = (h, tt)
IsRising-append r (x ∷ entries) en (up, ups) h =
    (up, IsRising-append (x.state, suc r.1, x.ts) entries en ups h)

or_missing-ok :
    (stream : String) (m : Result Error Bytes) (v : Bytes) → or_missing stream m ≡ ok v → m ≡ ok v
or_missing-ok stream (ok w) v h = ap ok (ok-injective h)
or_missing-ok stream (err x) v h = elim (Bool-cases (is_key_error x)) [
  | inl missing ↦
      let h' : ◌≡◌ {A = Result EventError Bytes} (err (stream_corrupt stream)) (ok v) =
        rw missing at h in
      absurd (cc)
  | inr other ↦
      let h' : ◌≡◌ {A = Result EventError Bytes} (err (storage x)) (ok v) = rw other at h in
      absurd (cc)
]

pub fits-record_metadata :
    (repr : MetaFields → String) (stream kind stream' kind' : String)
    → fits repr (search_filter stream kind) (record_metadata stream' kind')
      ≡ (str_eq stream' stream && (str_eq kind' kind && true))
unfolding Dict.get
fits-record_metadata repr stream kind stream' kind' = refl

module _ (b : StorageBackend) (e : Environment) (key : Bytes) (stream : String) (codec : StateCodec)
    (s s' : b.Store) where
  -- Records that open as before make the same log.
  pub AreStored-frame :
      (n bound : ℕ) (state : Fields) (entries : List Entry)
      → ((m : ℕ)
          → m ≤ bound
          → open_record b e s' key stream "event" m (event_id e stream m)
            ≡ open_record b e s key stream "event" m (event_id e stream m))
      → n + length entries ≤ bound
      → AreStored b e s key stream codec n state entries
      → AreStored b e s' key stream codec n state entries
  AreStored-frame n bound state [] same h st = tt
  AreStored-frame n bound state (en ∷ entries) same h (opens, applies, st) = (
    same (suc n) (omega arith) ∙ opens,
    applies,
    AreStored-frame (suc n) bound en.state entries same (omega arith) st,
  )

module _ (b : StorageBackend) (e : Environment) (key : Bytes) (stream : String) (codec : StateCodec)
    (s : b.Store) (en : Entry) where
  pub AreStored-append :
      (n ts : ℕ) (state : Fields) (entries : List Entry)
      → AreStored b e s key stream codec n state entries
      → open_record b e s key stream "event"
          (suc (n + length entries))
          (event_id e stream (suc (n + length entries)))
        ≡ ok (event en.ts en.note en.payload)
      → codec.apply (upto none (state, n, ts) entries (length entries)).0 en.payload ≡ ok en.state
      → AreStored b e s key stream codec n state (entries ++ (en ∷ []))
  AreStored-append n ts state [] st opens applies =
      let same : n + 0 ≡ n = omega arith in ((rw same at opens), applies, tt)
  AreStored-append n ts state (x ∷ entries) (opens', applies', st) opens applies =
      let same : n + suc (length entries) ≡ suc n + length entries = omega arith in
      (
        opens',
        applies',
        AreStored-append (suc n) x.ts x.state entries st (rw same at opens) applies,
      )

module _ {sha256 : Bytes → String} {b : StorageBackend} (law : IsLawful sha256 b) (e : Environment)
    (d : IsDocumented e) where
  pub open_record-put_other :
      (s : b.Store) (t : ℕ) (x y : String) (p : Bytes) (m : Metadata) (key : Bytes)
      (stream kind : String) (n : ℕ)
      → str_eq x y ≡ false
      → open_record b e (b.put s t x p m).0 key stream kind n y
        ≡ open_record b e s key stream kind n y
  unfolding open_record
  open_record-put_other s t x y p m key stream kind n h = rw (law.get-put s t x y p m, h) refl

  pub exists-put_other :
      (s : b.Store) (t : ℕ) (x y : String) (p : Bytes) (m : Metadata)
      → str_eq x y ≡ false
      → b.exists (b.put s t x p m).0 y ≡ b.exists s y
  exists-put_other s t x y p m h =
      rw (law.exists-eq (b.put s t x p m).0 y, law.exists-eq s y, law.get-put s t x y p m, h) refl

  -- a block that opens is not where a new one is written
  pub open_record-new :
      (s : b.Store) (x y : String) (key : Bytes) (stream kind : String) (n : ℕ) (r : EventRecord)
      → b.exists s x ≡ false
      → open_record b e s key stream kind n y ≡ ok r
      → str_eq x y ≡ false
  unfolding open_record
  open_record-new s x y key stream kind n r new opens = elim (Bool-cases (str_eq x y)) [
    | inl same ↦
        let x_eq : x ≡ y = (str_eq_iff x y).0 same in
        let got = >>=-eq-ok (or_missing stream (b.get s y)) _ opens in
        let here : b.get s x ≡ ok got.0 =
          ap (b.get s) x_eq ∙ or_missing-ok stream (b.get s y) got.0 got.1 in
        let there : true ≡ false = sym (ap is_ok here) ∙ sym (law.exists-eq s x) ∙ new in
        absurd (cc)
    | inr other ↦ other
  ]

  pub open_record-put_self :
      IsAuthenticated e.platform
      → IsDistinct e.texts
      → (s : b.Store) (t : ℕ) (x : String) (m : Metadata) (nonce key : Bytes) (stream kind : String)
        (n : ℕ) (r : EventRecord)
      → length nonce ≡ nonce_len
      → e.load (e.dump r) ≡ some r
      → open_record b e
          (b.put s t x (seal e.platform e.texts nonce key stream kind n (e.dump r)) m).0
          key
          stream
          kind
          n
          x
        ≡ ok r
  unfolding open_record
  open_record-put_self a u s t x m nonce key stream kind n r sized plain =
      rw
        (
          law.get-put s t x x (seal e.platform e.texts nonce key stream kind n (e.dump r)) m,
          str_eq_refl x,
          (open_sealed-seal e.platform a e.texts u nonce key sized stream kind n (e.dump r)).0,
          plain,
        )
        refl
