-- ===== src/Platform.antt =====
-- What the package calls and does not implement: hashlib's SHA-256, AES-GCM of the `cryptography`
-- package, zlib, gzip and the JSON reader. Each is a function here; what the code relies on is in the records of laws.
use model_db.Errors.{Error}
use model_db.Prelude.{ℕ, ◌≤◌, String, ◌≡◌, ◌≢◌, ◌⊎◌, Option, none, some, List, length, Result, ok}
use model_db.Storage.Interface.{Bytes}

-- What gzip.decompress raises: OSError or EOFError for a bad header, checksum or end, and zlib.error for
-- a damaged deflate stream.
pub data GzipError : Type 0 where
  os_error eof_error deflate_error : GzipError

pub record Platform : Type 0 where
  -- hashlib.sha256(b).hexdigest()
  pub sha256 : Bytes → String
  -- AESGCM(key).encrypt(nonce, plaintext, associated_data), without the nonce
  pub aead_encrypt : Bytes → Bytes → Bytes → Bytes → Bytes
  -- AESGCM(key).decrypt(nonce, ciphertext, associated_data); `none` is InvalidTag
  pub aead_decrypt : Bytes → Bytes → Bytes → Bytes → Option Bytes
  -- zlib.compress, gzip.compress
  pub zlib_compress : Bytes → Bytes
  pub gzip_compress : Bytes → Bytes
  -- zlib.decompress; `none` is zlib.error
  pub zlib_decompress : Bytes → Option Bytes
  pub gzip_decompress : Bytes → Result GzipError Bytes
  -- json.loads(blob)["sequences"], the code points of each text
  pub json_sequences : Bytes → Result Error (List (List ℕ))

-- AES-GCM opens what was sealed, with a tag of 16 bytes, and, as an ideal cipher, nothing that was
-- sealed under another key or for another place.
pub record IsAuthenticated (p : Platform) : Type 0 where
  pub opens : (k n m a : Bytes) → p.aead_decrypt k n (p.aead_encrypt k n m a) a ≡ some m
  pub rejects :
      (k k' n m a a' : Bytes)
      → (k ≢ k') ⊎ (a ≢ a')
      → p.aead_decrypt k' n (p.aead_encrypt k n m a) a' ≡ none
  pub tagged : (k n m a : Bytes) → 16 ≤ length (p.aead_encrypt k n m a)

-- The two compressors are lossless.
pub record IsLossless (p : Platform) : Type 0 where
  pub zlib_inverse : (b : Bytes) → p.zlib_decompress (p.zlib_compress b) ≡ some b
  pub gzip_inverse : (b : Bytes) → p.gzip_decompress (p.gzip_compress b) ≡ ok b
