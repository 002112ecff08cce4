-- ===== src/Events/Store/Writing/Snapshotted.antt =====
-- What `append` asks of a time and a payload, and the snapshot that it may write.
use model_db.Prelude.{
  ℕ, ◌%◌, ◌≤◌, String, ◌≡◌, refl, inl, inr, true, false, Option, none, some, arith, ◌==◌,
  Bool-cases, length, ok,
}
use model_db.Storage.Interface.{Bytes, MetaFields, StorageBackend, IsLawful}
use model_db.Platform.{IsAuthenticated}
use model_db.Dna.Crypto.{nonce_len}
use model_db.Events.Json.{Json, Fields}
use model_db.Events.Sealing.{IsDistinct, seal}
use model_db.Events.Store.{StateCodec, snapshot, Environment, EventStore, snapshot_id}
use model_db.Events.Store.Laws.{IsDocumented, IsSearchable}
use model_db.Events.Store.Reading.Replayed.{Log}
use model_db.Events.Store.Reading.Rebuilt.{HoldsLog}
use model_db.Events.Store.Writing.{put_record, put_snapshot}
use model_db.Events.Store.Requests.{
  record_metadata, store_block, when, key_for, payload_for, is_choice,
}
use model_db.Events.Store.Writing.Stored.{last_state, last_ts}
use model_db.Events.Store.Writing.Extended.{HoldsLog-put_snapshot}

-- An accepted time is not before the last one.
pub floor-le-when :
    (now : ℕ) (ts : Option ℕ) (floor time : ℕ) → when now ts (some floor) ≡ ok time → floor ≤ time
unfolding when
floor-le-when now none floor time h = ground arith
floor-le-when now (some requested) floor time h = ground arith

pub is_choice-payload_for :
    (e : Environment) (codec : StateCodec) (current : Fields) (state payload : Option Json)
    (payload' : Json)
    → payload_for e codec current state payload ≡ ok payload'
    → is_choice state payload ≡ true
unfolding payload_for
is_choice-payload_for e codec current none none payload' h = absurd (cc)
is_choice-payload_for e codec current none (some p) payload' h = refl
is_choice-payload_for e codec current (some s) none payload' h = refl
is_choice-payload_for e codec current (some s) (some p) payload' h = absurd (cc)

module _ {sha256 : Bytes → String} {b : StorageBackend} (law : IsLawful sha256 b)
    {repr : MetaFields → String} (sl : IsSearchable law repr) (e : Environment) (d : IsDocumented e)
    (a : IsAuthenticated e.platform) (u : IsDistinct e.texts) (now : ℕ) (nonces : String → Bytes)
    (sized : (x : String) → length (nonces x) ≡ nonce_len) where
  -- the snapshot that `append` writes, or not
  pub put_snapshot-holds :
      (s : EventStore b) (stream : String) (codec : StateCodec) (log : Log) (n time : ℕ)
      (state : Fields)
      → HoldsLog b e s.storage s.master stream codec log
      → law.IsValid s.storage
      → length log.entries ≡ n
      → last_ts log ≡ time
      → last_state log ≡ state
      → b.exists s.storage (snapshot_id e stream n) ≡ false
      → e.load (e.dump (snapshot time state)) ≡ some (snapshot time state)
      → (s' : EventStore b) × (put_snapshot b e now nonces stream n time state s ≡ (s', ok tt))
        × HoldsLog b e s'.storage s.master stream codec log
        × law.IsValid s'.storage
        × (s'.tails ≡ s.tails)
        × (s'.master ≡ s.master)
        × (s'.key_verified ≡ s.key_verified)
  unfolding put_record
  put_snapshot-holds s stream codec log n time state holds valid hn ht hs new plain =
      elim (Bool-cases (n % e.snapshot_every == 0)) [
        | inl due ↦
            let x = snapshot_id e stream n in
            let plain' : e.load (e.dump (snapshot (last_ts log) (last_state log)))
                ≡ some (snapshot (last_ts log) (last_state log)) =
              rw (ht, hs) plain in
            let new' : b.exists s.storage (snapshot_id e stream (length log.entries)) ≡ false =
              rw hn new in
            (
              store_block s now x
                  (seal e.platform e.texts (nonces x) (key_for e s.master stream) stream "snapshot"
                    n (e.dump (snapshot time state)))
                  (record_metadata stream "snapshot"),
              rw (due, new) refl,
              rw (← hn, ← ht, ← hs)
                  (HoldsLog-put_snapshot law sl e d a u s.storage now
                    (nonces (snapshot_id e stream (length log.entries))) s.master (sized _) stream
                    codec log valid holds new' plain'),
              law.put-IsValid s.storage now x _ _ valid,
              refl,
              refl,
              refl,
            )
        | inr not_due ↦ (s, rw not_due refl, holds, valid, refl, refl, refl)
      ]
