-- ===== src/Strategy.antt =====
-- The choice of a storage strategy: storage_intelligence/policy.py, analyzer.py and strategy.py,
-- and the record that they read, of classification/metadata.py. A frequency is a Python float: a
-- type with the two tests that the code makes of it.
pub mod Decision
use model_db.Prelude.{
  ℕ, ◌*◌, Bool, true, false, not, ◌&&◌, Option, none, some, List, ltb, if◌then◌else◌,
}
use model_db.Vocabulary.{Representation, CompressionAlgorithm, StorageTier, CachePolicy, DataType}

pub record Frequency : Type 1 where
  pub Float : Type 0
  -- `a >= b`
  pub at_least : Float → Float → Bool
  -- `a == 0.0`
  pub is_zero : Float → Bool

pub record DataProfile (fr : Frequency) : Type 0 where
  pub data_type : DataType
  pub size_bytes : ℕ
  pub structured : Bool
  pub dimensions : Option (List ℕ)
  pub entropy_estimate : Option fr.Float
  pub compressibility_estimate : Option fr.Float
  pub compression_candidate : Bool
  pub matrix_candidate : Bool
  pub tensor_candidate : Bool
  pub random_access_required : Bool
  pub archive_candidate : Bool
  pub mutable : Bool

pub record AccessProfile (fr : Frequency) : Type 0 where
  pub read_count : ℕ
  pub write_count : ℕ
  pub last_access : Option ℕ
  pub access_frequency : fr.Float
  pub mutation_frequency : fr.Float
  pub archive_requested : Bool

pub record StoragePolicy (fr : Frequency) : Type 0 where
  pub chunk_threshold_bytes : ℕ
  pub chunk_size_bytes : ℕ
  pub default_compression_algorithm : CompressionAlgorithm
  pub hot_access_frequency : fr.Float
  pub warm_access_frequency : fr.Float

abbrev pub four_mib : ℕ
four_mib = 4 * 1024 * 1024

-- `DEFAULT_POLICY`, with the floats 10.0 and 0.1
abbrev pub default_policy : {fr : Frequency} → fr.Float → fr.Float → StoragePolicy fr
default_policy ten tenth = record {
  chunk_threshold_bytes = four_mib;
  chunk_size_bytes = four_mib;
  default_compression_algorithm = CompressionAlgorithm.zlib;
  hot_access_frequency = ten;
  warm_access_frequency = tenth;
}

pub record StorageStrategy : Type 0 where
  pub representation : Representation
  pub compression : CompressionAlgorithm
  pub chunking : Bool
  pub chunk_size : Option ℕ
  pub indexing : Bool
  pub encryption : Bool
  pub error_correction : Bool
  pub storage_tier : StorageTier
  pub cache_policy : CachePolicy

-- `data_type in _INDEXABLE_TYPES`
unfoldable pub is_indexable : DataType → Bool
is_indexable DataType.database_record = true
is_indexable DataType.tabular = true
is_indexable DataType.time_series = true
is_indexable DataType.document = true
is_indexable DataType.log = true
is_indexable DataType.text_data = true
is_indexable _ = false

module _ {fr : Frequency} where
  unfoldable pub select_representation : DataProfile fr → Representation
  select_representation profile =
      if profile.tensor_candidate
      then Representation.tensor
      else (if profile.matrix_candidate then Representation.matrix else Representation.raw)

  unfoldable pub select_compression : DataProfile fr → StoragePolicy fr → CompressionAlgorithm
  select_compression profile policy =
      if not profile.compression_candidate
      then CompressionAlgorithm.none_algorithm
      else policy.default_compression_algorithm

  unfoldable pub select_chunking : DataProfile fr → StoragePolicy fr → Bool × Option ℕ
  select_chunking profile policy =
      if ltb policy.chunk_threshold_bytes profile.size_bytes
      then (true, some policy.chunk_size_bytes)
      else (false, none)

  abbrev pub select_indexing : DataProfile fr → Bool
  select_indexing profile = is_indexable profile.data_type

  unfoldable pub select_tier : DataProfile fr → AccessProfile fr → StoragePolicy fr → StorageTier
  select_tier profile access policy =
      if access.archive_requested && not profile.mutable && fr.is_zero access.mutation_frequency
      then StorageTier.archive
      else (if fr.at_least access.access_frequency policy.hot_access_frequency
          then StorageTier.hot
          else (if fr.at_least access.access_frequency policy.warm_access_frequency
              then StorageTier.warm
              else (if not profile.mutable
                    && fr.is_zero access.mutation_frequency
                    && fr.is_zero access.access_frequency
                  then StorageTier.cold
                  else StorageTier.warm)))

  unfoldable pub select_cache_policy : StorageTier → StoragePolicy fr → CachePolicy
  select_cache_policy StorageTier.hot policy = CachePolicy.memory
  select_cache_policy _ policy = CachePolicy.no_cache

  -- `StorageStrategyEngine.select`
  unfoldable pub select : StoragePolicy fr → DataProfile fr → AccessProfile fr → StorageStrategy
  select policy profile access =
      let (chunking, chunk_size) = select_chunking profile policy in
      let tier = select_tier profile access policy in
      record {
        representation = select_representation profile;
        compression = select_compression profile policy;
        chunking = chunking;
        chunk_size = chunk_size;
        indexing = select_indexing profile;
        encryption = false;
        error_correction = false;
        storage_tier = tier;
        cache_policy = select_cache_policy tier policy;
      }
