-- ===== src/Errors.antt =====
-- The exceptions that the modelled modules raise, one constructor for each class, with the values
-- that the exception object carries. The first are
-- Python's own.
use model_db.Prelude.{String}
use model_db.Vocabulary.{StorageTier, CompressionAlgorithm}

pub data Error : Type 0 where
  key_error value_error index_error struct_error assertion_error : Error
  -- compression/compressor.py
  compression_error : Error
  -- zlib.error, where it is not caught
  zlib_error : Error
  compression_not_available : CompressionAlgorithm → Error
  -- storage_intelligence/router.py
  object_not_found : String → Error
  object_unavailable : String → StorageTier → Error
  data_integrity : String → Error
  -- dna/encoder.py, dna/crypto.py
  dna_decode_error decryption_error : Error
