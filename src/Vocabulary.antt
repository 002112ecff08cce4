-- ===== src/Vocabulary.antt =====
-- The enumerations that the storage modules share: storage_intelligence/strategy_types.py and
-- classification/data_type.py, with the text that each member of the second stands for.
use model_db.Prelude.{String, Bool, true, false}

pub data Representation : Type 0 where
  raw compressed matrix tensor block dna_encoded : Representation

pub data CompressionAlgorithm : Type 0 where
  none_algorithm zlib gzip lz4 zstd : CompressionAlgorithm

pub data StorageTier : Type 0 where
  hot warm cold archive : StorageTier

pub data CachePolicy : Type 0 where
  no_cache memory : CachePolicy

pub data DataType : Type 0 where
  database_record tabular ai_model tensor_data image video audio : DataType
  document text_data log time_series binary archive_data unknown : DataType

-- `data_type.value`
unfoldable pub type_value : DataType → String
type_value DataType.database_record = "DATABASE_RECORD"
type_value DataType.tabular = "TABULAR"
type_value DataType.ai_model = "AI_MODEL"
type_value DataType.tensor_data = "TENSOR"
type_value DataType.image = "IMAGE"
type_value DataType.video = "VIDEO"
type_value DataType.audio = "AUDIO"
type_value DataType.document = "DOCUMENT"
type_value DataType.text_data = "TEXT"
type_value DataType.log = "LOG"
type_value DataType.time_series = "TIME_SERIES"
type_value DataType.binary = "BINARY"
type_value DataType.archive_data = "ARCHIVE"
type_value DataType.unknown = "UNKNOWN"

-- `storage_tier.value`
unfoldable pub tier_value : StorageTier → String
tier_value StorageTier.hot = "HOT"
tier_value StorageTier.warm = "WARM"
tier_value StorageTier.cold = "COLD"
tier_value StorageTier.archive = "ARCHIVE"

-- `a is b` on tiers
abbrev pub tier_eq : StorageTier → StorageTier → Bool
tier_eq StorageTier.hot StorageTier.hot = true
tier_eq StorageTier.warm StorageTier.warm = true
tier_eq StorageTier.cold StorageTier.cold = true
tier_eq StorageTier.archive StorageTier.archive = true
tier_eq _ _ = false

-- `a is CompressionAlgorithm.NONE`
abbrev pub is_none_algorithm : CompressionAlgorithm → Bool
is_none_algorithm CompressionAlgorithm.none_algorithm = true
is_none_algorithm _ = false
