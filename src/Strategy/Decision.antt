-- ===== src/Strategy/Decision.antt =====
-- Which tier is chosen when, and how the parts of a strategy agree.
use model_db.Prelude.{
  ◌≡◌, refl, ◌↔◌, Bool, true, false, not, ◌&&◌, none, some, arith, ltb, if◌then◌else◌, is_some,
}
use model_db.Vocabulary.{CompressionAlgorithm, StorageTier, CachePolicy}
use model_db.Strategy.{
  Frequency, DataProfile, AccessProfile, StoragePolicy, select_chunking, select_tier,
  select_cache_policy, select_compression, select,
}

module _ {fr : Frequency} (policy : StoragePolicy fr) (profile : DataProfile fr)
    (access : AccessProfile fr) where
  -- the object is immutable and has not been written to
  abbrev pub is_frozen : Bool
  is_frozen = not profile.mutable && fr.is_zero access.mutation_frequency

  -- ARCHIVE is chosen for an object exactly if its archiving was requested, it is immutable and it
  -- was never modified: low access alone does not archive it.
  pub select-archive_iff :
      ((select policy profile access).storage_tier ≡ StorageTier.archive)
      ↔ ((access.archive_requested && is_frozen) ≡ true)
  unfolding select select_tier
  select-archive_iff = ground arith

  -- COLD is chosen exactly for an immutable object that was never modified nor read, whose
  -- archiving was not requested, and for which an access frequency of zero is below both thresholds.
  pub select-cold_iff : ((select policy profile access).storage_tier ≡ StorageTier.cold) ↔ (
      (is_frozen
        && fr.is_zero access.access_frequency
        && not access.archive_requested
        && not (fr.at_least access.access_frequency policy.hot_access_frequency)
        && not (fr.at_least access.access_frequency policy.warm_access_frequency))
      ≡ true)
  unfolding select select_tier
  select-cold_iff = ground arith

  -- The parts of a strategy agree: only HOT objects are cached in memory, an object has a chunk
  -- size exactly if it is larger than the threshold, and no compression is chosen for an object
  -- that is no candidate.
  pub select-agrees :
      (((select policy profile access).cache_policy ≡ CachePolicy.memory)
        ↔ ((select policy profile access).storage_tier ≡ StorageTier.hot))
      × ((select policy profile access).chunk_size ≡ (
          if ltb policy.chunk_threshold_bytes profile.size_bytes
          then some policy.chunk_size_bytes
          else none))
      × ((select policy profile access).chunking
          ≡ is_some (select policy profile access).chunk_size)
      × (profile.compression_candidate ≡ false
          → (select policy profile access).compression ≡ CompressionAlgorithm.none_algorithm)
  unfolding select select_tier select_chunking select_cache_policy select_compression
  select-agrees = (ground arith, ground arith, ground arith, λ h. rw h refl)
