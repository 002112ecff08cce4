-- ===== src/Examples/Strategy.antt =====
-- A strategy for a small image that was asked to be archived, and a compressor.
use model_db.Prelude.{ℕ, ◌≡◌, ◌↔◌, true, false, ◌&&◌, none, leb, ◌==◌}
use model_db.Vocabulary.{StorageTier, DataType}
use model_db.Strategy.{Frequency, DataProfile, AccessProfile, StoragePolicy, default_policy, select}
use model_db.Strategy.Decision.{is_frozen, select-archive_iff}

abbrev per_day : Frequency
per_day = record { Float = ℕ; at_least = λ m n. leb n m; is_zero = λ n. n == 0 }

abbrev profile : DataProfile per_day
profile = record {
  data_type = DataType.image;
  size_bytes = 2;
  structured = false;
  dimensions = none;
  entropy_estimate = none;
  compressibility_estimate = none;
  compression_candidate = false;
  matrix_candidate = false;
  tensor_candidate = false;
  random_access_required = false;
  archive_candidate = false;
  mutable = false;
}

abbrev access : AccessProfile per_day
access = record {
  read_count = 0;
  write_count = 0;
  last_access = none;
  access_frequency = 0;
  mutation_frequency = 0;
  archive_requested = true;
}

abbrev policy : StoragePolicy per_day
policy = default_policy 10 1

select-archive_iff_example :
    ((select policy profile access).storage_tier ≡ StorageTier.archive)
    ↔ ((access.archive_requested && is_frozen policy profile access) ≡ true)
select-archive_iff_example = select-archive_iff policy profile access
