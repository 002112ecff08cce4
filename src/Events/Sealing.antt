-- ===== src/Events/Sealing.antt =====
-- events/sealing.py: a record is sealed under its stream's key, bound to its stream, kind and number.
-- HKDF, the UTF-8 bytes of a text and the decimal text of a number are arguments.
use model_db.Prelude.{
  ℕ, ◌+◌, ◌≤◌, String, ◌≡◌, refl, ◌∙◌, ◌≢◌, ◌⊎◌, inl, inr, Option, none, some, ◌++◌, arith, ltb,
  if◌then◌else◌, length, take, drop, length-append, take-length-append, drop-length-append, Result,
  ok, err, ◌+ˢ◌, +ˢ_cancel_left,
}
use model_db.Events.Errors.{EventError, stream_corrupt}
use model_db.Storage.Interface.{Bytes}
use model_db.Platform.{Platform, IsAuthenticated}
use model_db.Dna.Crypto.{nonce_len}

pub record Texts : Type 0 where
  -- `text.encode("utf-8")`
  pub utf8 : String → Bytes
  -- `str(number)`
  pub decimal : ℕ → String
  -- `HKDF(..., info=info).derive(master_key)`
  pub hkdf : Bytes → Bytes → Bytes

-- Different texts have different bytes, and different numbers different texts.
pub record IsDistinct (texts : Texts) : Type 0 where
  pub utf8_injective : (s t : String) → texts.utf8 s ≡ texts.utf8 t → s ≡ t
  pub decimal_injective : (m n : ℕ) → texts.decimal m ≡ texts.decimal n → m ≡ n

module _ (p : Platform) (texts : Texts) where
  unfoldable pub derive_stream_key : Bytes → String → Bytes
  derive_stream_key master_key stream_id =
      texts.hkdf (texts.utf8 "mdc-events/v1/" ++ texts.utf8 stream_id) master_key

  abbrev pub aad : String → String → ℕ → Bytes
  aad stream_id kind seq = texts.utf8 (stream_id +ˢ ("|" +ˢ (kind +ˢ ("|" +ˢ texts.decimal seq))))

  -- the random nonce is an argument
  unfoldable pub seal : Bytes → Bytes → String → String → ℕ → Bytes → Bytes
  seal nonce key stream_id kind seq plaintext =
      nonce ++ p.aead_encrypt key nonce plaintext (aad stream_id kind seq)

  abbrev pub or_corrupt : String → Option Bytes → Result EventError Bytes
  or_corrupt stream_id none = err (stream_corrupt stream_id)
  or_corrupt stream_id (some plaintext) = ok plaintext

  unfoldable pub open_sealed : Bytes → String → String → ℕ → Bytes → Result EventError Bytes
  open_sealed key stream_id kind seq blob =
      if ltb (length blob) (nonce_len + 16)
      then err (stream_corrupt stream_id)
      else or_corrupt stream_id
          (p.aead_decrypt key (take nonce_len blob) (drop nonce_len blob) (aad stream_id kind seq))

module _ (p : Platform) (a : IsAuthenticated p) (texts : Texts) (x : IsDistinct texts)
    (nonce key : Bytes) (sized : length nonce ≡ nonce_len) (stream_id kind : String) (seq : ℕ)
    (plaintext : Bytes) where
  abbrev sealed : Bytes
  sealed = p.aead_encrypt key nonce plaintext (aad p texts stream_id kind seq)

  open_sealed-seal_lem :
      (other : Bytes) (stream' kind' : String) (seq' : ℕ)
      → open_sealed p texts other stream' kind' seq'
          (seal p texts nonce key stream_id kind seq plaintext)
        ≡ or_corrupt p texts stream'
            (p.aead_decrypt other nonce sealed (aad p texts stream' kind' seq'))
  unfolding open_sealed seal
  open_sealed-seal_lem other stream' kind' seq' =
      let first : take nonce_len (nonce ++ sealed) ≡ nonce =
        rw (← sized) (take-length-append nonce sealed) in
      let last : drop nonce_len (nonce ++ sealed) ≡ sealed =
        rw (← sized) (drop-length-append nonce sealed) in
      let long : 16 ≤ length sealed =
        a.tagged key nonce plaintext (aad p texts stream_id kind seq) in
      ground (arith, first, last, length-append nonce sealed)

  -- A sealed record opens at its place under its key; under another key, or at another number of the
  -- same stream and kind, reading it raises StreamCorruptError for the stream.
  pub open_sealed-seal :
      (open_sealed p texts key stream_id kind seq
          (seal p texts nonce key stream_id kind seq plaintext)
        ≡ ok plaintext)
      × ((other : Bytes) (seq' : ℕ)
          → (key ≢ other) ⊎ (seq ≢ seq')
          → open_sealed p texts other stream_id kind seq'
              (seal p texts nonce key stream_id kind seq plaintext)
            ≡ err (stream_corrupt stream_id))
  open_sealed-seal = (
    open_sealed-seal_lem key stream_id kind seq
        ∙ rw (a.opens key nonce plaintext (aad p texts stream_id kind seq)) refl,
    λ other seq' ne.
        open_sealed-seal_lem other stream_id kind seq'
        ∙ rw
            (a.rejects key other nonce plaintext (aad p texts stream_id kind seq)
              (aad p texts stream_id kind seq') (moved seq' ne))
            refl,
  )
    where
      moved :
          {other : Bytes} (seq' : ℕ)
          → (key ≢ other) ⊎ (seq ≢ seq')
          → (key ≢ other) ⊎ (aad p texts stream_id kind seq ≢ aad p texts stream_id kind seq')
      moved seq' (inl ne) = inl ne
      moved seq' (inr ne) = inr (λ h. ne (
          x.decimal_injective seq seq' (
            +ˢ_cancel_left "|" (texts.decimal seq) (texts.decimal seq') (
              +ˢ_cancel_left kind ("|" +ˢ texts.decimal seq) ("|" +ˢ texts.decimal seq') (
                +ˢ_cancel_left "|" (kind +ˢ ("|" +ˢ texts.decimal seq))
                  (kind +ˢ ("|" +ˢ texts.decimal seq'))
                  (+ˢ_cancel_left stream_id ("|" +ˢ (kind +ˢ ("|" +ˢ texts.decimal seq)))
                    ("|" +ˢ (kind +ˢ ("|" +ˢ texts.decimal seq'))) (x.utf8_injective _ _ h)))))))
