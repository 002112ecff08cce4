-- ===== src/Dna/Crypto.antt =====
-- dna/crypto.py: a nonce of twelve bytes, then the ciphertext. The nonce is os.urandom's.
use model_db.Prelude.{
  ℕ, ◌≡◌, ◌≢◌, inl, Option, none, some, [], ◌++◌, length, length-append, take, drop,
  take-length-append, drop-length-append, ltb, Result, ok, err, if◌then◌else◌, arith,
}
use model_db.Errors.{Error, decryption_error}
use model_db.Storage.Interface.{Bytes}
use model_db.Platform.{Platform, IsAuthenticated}

abbrev pub nonce_len : ℕ
nonce_len = 12

-- what a call of AESGCM.decrypt that may raise gives its caller
abbrev pub or_raise : Option Bytes → Error → Result Error Bytes
or_raise none e = err e
or_raise (some b) e = ok b

module _ (p : Platform) where
  unfoldable pub encrypt : Bytes → Bytes → Bytes → Bytes
  encrypt key nonce plaintext = nonce ++ p.aead_encrypt key nonce plaintext []

  unfoldable pub decrypt : Bytes → Bytes → Result Error Bytes
  decrypt key blob =
      if ltb (length blob) nonce_len
      then err decryption_error
      else or_raise (p.aead_decrypt key (take nonce_len blob) (drop nonce_len blob) [])
          decryption_error

module _ (p : Platform) (a : IsAuthenticated p) (key nonce : Bytes)
    (sized : length nonce ≡ nonce_len) where
  decrypt-encrypt_lem :
      (other plaintext : Bytes)
      → decrypt p other (encrypt p key nonce plaintext)
        ≡ or_raise
            (p.aead_decrypt other nonce (p.aead_encrypt key nonce plaintext []) [])
            decryption_error
  unfolding decrypt encrypt
  decrypt-encrypt_lem other plaintext =
      let c : Bytes = p.aead_encrypt key nonce plaintext [] in
      let first : take nonce_len (nonce ++ c) ≡ nonce = rw (← sized) (take-length-append nonce c) in
      let last : drop nonce_len (nonce ++ c) ≡ c = rw (← sized) (drop-length-append nonce c) in
      ground (arith, first, last, length-append nonce c)

  -- What is sealed with a nonce of 12 bytes is opened by the same key.
  pub decrypt-encrypt :
      (plaintext : Bytes) → decrypt p key (encrypt p key nonce plaintext) ≡ ok plaintext
  decrypt-encrypt plaintext = rw (decrypt-encrypt_lem key plaintext, a.opens key nonce plaintext [])

  -- What is sealed with a nonce of 12 bytes raises DecryptionError under any other key.
  pub decrypt-encrypt_ne :
      (other plaintext : Bytes)
      → key ≢ other
      → decrypt p other (encrypt p key nonce plaintext) ≡ err decryption_error
  decrypt-encrypt_ne other plaintext ne =
      rw (decrypt-encrypt_lem other plaintext, a.rejects key other nonce plaintext [] [] (inl ne))
