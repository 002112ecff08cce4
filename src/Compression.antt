-- ===== src/Compression.antt =====
-- compression/compressor.py: the registry of compressors, and the two functions that look one up.
-- zlib and gzip are the platform's; LZ4 and ZSTD are not registered.
use model_db.Prelude.{
  ◌≡◌, refl, Bool, true, false, Option, none, some, if◌then◌else◌, Result, ok, err, ◌>>=◌,
}
use model_db.Errors.{Error, compression_error, zlib_error, compression_not_available}
use model_db.Vocabulary.{CompressionAlgorithm}
use model_db.Storage.Interface.{Bytes}
use model_db.Platform.{Platform, IsLossless, GzipError, deflate_error}

pub record Compressor : Type 0 where
  pub compress : Bytes → Bytes
  pub decompress : Bytes → Result Error Bytes

-- `except zlib.error`
abbrev pub or_compression_error : Option Bytes → Result Error Bytes
or_compression_error none = err compression_error
or_compression_error (some b) = ok b

-- `except (OSError, EOFError)`, which does not catch the error of a damaged deflate stream
abbrev pub or_gzip_error : Result GzipError Bytes → Result Error Bytes
or_gzip_error (ok b) = ok b
or_gzip_error (err deflate_error) = err zlib_error
or_gzip_error (err _) = err compression_error

module _ (p : Platform) where
  -- `_REGISTRY.get(algorithm)`
  unfoldable pub registry : CompressionAlgorithm → Option Compressor
  registry CompressionAlgorithm.none_algorithm =
      some (record { compress = λ b. b; decompress = ok })
  registry CompressionAlgorithm.zlib = some (record {
    compress = p.zlib_compress;
    decompress = λ b. or_compression_error (p.zlib_decompress b);
  })
  registry CompressionAlgorithm.gzip =
      some (record {
        compress = p.gzip_compress;
        decompress = λ b. or_gzip_error (p.gzip_decompress b);
      })
  registry CompressionAlgorithm.lz4 = none
  registry CompressionAlgorithm.zstd = none

  unfoldable pub get_compressor : CompressionAlgorithm → Result Error Compressor
  get_compressor algorithm = elim (registry algorithm) [
    | none ↦ err (compression_not_available algorithm)
    | some compressor ↦ ok compressor
  ]

  unfoldable pub compress : Bytes → CompressionAlgorithm → Result Error Bytes
  compress b algorithm = do compressor ← get_compressor algorithm; ok (compressor.compress b)

  unfoldable pub decompress : Bytes → CompressionAlgorithm → Result Error Bytes
  decompress b algorithm = do compressor ← get_compressor algorithm; compressor.decompress b

-- The algorithms that need a package which is not there.
abbrev pub is_missing : CompressionAlgorithm → Bool
is_missing CompressionAlgorithm.lz4 = true
is_missing CompressionAlgorithm.zstd = true
is_missing _ = false

module _ (p : Platform) (l : IsLossless p) where
  -- With lossless libraries, what is compressed with a registered algorithm is decompressed to
  -- itself; for LZ4 and ZSTD compression raises CompressionNotAvailableError for that algorithm.
  pub decompress-compress :
      (b : Bytes) (algorithm : CompressionAlgorithm)
      → (compress p b algorithm >>= λ c. decompress p c algorithm)
        ≡ (if is_missing algorithm then err (compression_not_available algorithm) else ok b)
  unfolding compress decompress get_compressor registry
  decompress-compress b CompressionAlgorithm.none_algorithm = refl
  decompress-compress b CompressionAlgorithm.zlib = rw (l.zlib_inverse b) refl
  decompress-compress b CompressionAlgorithm.gzip = rw (l.gzip_inverse b) refl
  decompress-compress b CompressionAlgorithm.lz4 = refl
  decompress-compress b CompressionAlgorithm.zstd = refl
