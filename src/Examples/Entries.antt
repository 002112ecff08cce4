-- ===== src/Examples/Entries.antt =====
-- A JSON form of index entries that satisfies what the index relies on.
use model_db.Prelude.{ℕ, zero, suc, String, ◌≡◌, refl, ap, Option, none, some, [], Result, ok, err}
use model_db.Errors.{Error, value_error}
use model_db.Storage.Interface.{Bytes}
use model_db.Vocabulary.{Representation, CompressionAlgorithm, StorageTier, DataType}
use model_db.Index.{IndexEntry, EntryJson, IsFaithful}
use model_db.Examples.Codec.{Codec, pair, via, number, string, maybe}

abbrev type_codec_number : DataType → ℕ
type_codec_number DataType.database_record = 0
type_codec_number DataType.tabular = 1
type_codec_number DataType.ai_model = 2
type_codec_number DataType.tensor_data = 3
type_codec_number DataType.image = 4
type_codec_number DataType.video = 5
type_codec_number DataType.audio = 6
type_codec_number DataType.document = 7
type_codec_number DataType.text_data = 8
type_codec_number DataType.log = 9
type_codec_number DataType.time_series = 10
type_codec_number DataType.binary = 11
type_codec_number DataType.archive_data = 12
type_codec_number DataType.unknown = 13

abbrev type_codec_at : ℕ → Option DataType
type_codec_at zero = some DataType.database_record
type_codec_at (suc zero) = some DataType.tabular
type_codec_at (suc (suc zero)) = some DataType.ai_model
type_codec_at (suc (suc (suc zero))) = some DataType.tensor_data
type_codec_at (suc (suc (suc (suc zero)))) = some DataType.image
type_codec_at (suc (suc (suc (suc (suc zero))))) = some DataType.video
type_codec_at (suc (suc (suc (suc (suc (suc zero)))))) = some DataType.audio
type_codec_at (suc (suc (suc (suc (suc (suc (suc zero))))))) = some DataType.document
type_codec_at (suc (suc (suc (suc (suc (suc (suc (suc zero)))))))) = some DataType.text_data
type_codec_at (suc (suc (suc (suc (suc (suc (suc (suc (suc zero))))))))) = some DataType.log
type_codec_at (suc (suc (suc (suc (suc (suc (suc (suc (suc (suc zero)))))))))) =
    some DataType.time_series
type_codec_at (suc (suc (suc (suc (suc (suc (suc (suc (suc (suc (suc zero))))))))))) =
    some DataType.binary
type_codec_at (suc (suc (suc (suc (suc (suc (suc (suc (suc (suc (suc (suc zero)))))))))))) =
    some DataType.archive_data
type_codec_at (suc (suc (suc (suc (suc (suc (suc (suc (suc (suc (suc (suc (suc zero))))))))))))) =
    some DataType.unknown
type_codec_at
      (suc (suc (suc (suc (suc (suc (suc (suc (suc (suc (suc (suc (suc (suc _)))))))))))))) =
    none

type_codec_back : (x : DataType) → type_codec_at (type_codec_number x) ≡ some x
type_codec_back DataType.database_record = refl
type_codec_back DataType.tabular = refl
type_codec_back DataType.ai_model = refl
type_codec_back DataType.tensor_data = refl
type_codec_back DataType.image = refl
type_codec_back DataType.video = refl
type_codec_back DataType.audio = refl
type_codec_back DataType.document = refl
type_codec_back DataType.text_data = refl
type_codec_back DataType.log = refl
type_codec_back DataType.time_series = refl
type_codec_back DataType.binary = refl
type_codec_back DataType.archive_data = refl
type_codec_back DataType.unknown = refl

type_codec : Codec DataType
type_codec = via type_codec_number type_codec_at type_codec_back number

abbrev tier_codec_number : StorageTier → ℕ
tier_codec_number StorageTier.hot = 0
tier_codec_number StorageTier.warm = 1
tier_codec_number StorageTier.cold = 2
tier_codec_number StorageTier.archive = 3

abbrev tier_codec_at : ℕ → Option StorageTier
tier_codec_at zero = some StorageTier.hot
tier_codec_at (suc zero) = some StorageTier.warm
tier_codec_at (suc (suc zero)) = some StorageTier.cold
tier_codec_at (suc (suc (suc zero))) = some StorageTier.archive
tier_codec_at (suc (suc (suc (suc _)))) = none

tier_codec_back : (x : StorageTier) → tier_codec_at (tier_codec_number x) ≡ some x
tier_codec_back StorageTier.hot = refl
tier_codec_back StorageTier.warm = refl
tier_codec_back StorageTier.cold = refl
tier_codec_back StorageTier.archive = refl

tier_codec : Codec StorageTier
tier_codec = via tier_codec_number tier_codec_at tier_codec_back number

abbrev algorithm_codec_number : CompressionAlgorithm → ℕ
algorithm_codec_number CompressionAlgorithm.none_algorithm = 0
algorithm_codec_number CompressionAlgorithm.zlib = 1
algorithm_codec_number CompressionAlgorithm.gzip = 2
algorithm_codec_number CompressionAlgorithm.lz4 = 3
algorithm_codec_number CompressionAlgorithm.zstd = 4

abbrev algorithm_codec_at : ℕ → Option CompressionAlgorithm
algorithm_codec_at zero = some CompressionAlgorithm.none_algorithm
algorithm_codec_at (suc zero) = some CompressionAlgorithm.zlib
algorithm_codec_at (suc (suc zero)) = some CompressionAlgorithm.gzip
algorithm_codec_at (suc (suc (suc zero))) = some CompressionAlgorithm.lz4
algorithm_codec_at (suc (suc (suc (suc zero)))) = some CompressionAlgorithm.zstd
algorithm_codec_at (suc (suc (suc (suc (suc _))))) = none

algorithm_codec_back :
    (x : CompressionAlgorithm) → algorithm_codec_at (algorithm_codec_number x) ≡ some x
algorithm_codec_back CompressionAlgorithm.none_algorithm = refl
algorithm_codec_back CompressionAlgorithm.zlib = refl
algorithm_codec_back CompressionAlgorithm.gzip = refl
algorithm_codec_back CompressionAlgorithm.lz4 = refl
algorithm_codec_back CompressionAlgorithm.zstd = refl

algorithm_codec : Codec CompressionAlgorithm
algorithm_codec = via algorithm_codec_number algorithm_codec_at algorithm_codec_back number

abbrev shape_codec_number : Representation → ℕ
shape_codec_number Representation.raw = 0
shape_codec_number Representation.compressed = 1
shape_codec_number Representation.matrix = 2
shape_codec_number Representation.tensor = 3
shape_codec_number Representation.block = 4
shape_codec_number Representation.dna_encoded = 5

abbrev shape_codec_at : ℕ → Option Representation
shape_codec_at zero = some Representation.raw
shape_codec_at (suc zero) = some Representation.compressed
shape_codec_at (suc (suc zero)) = some Representation.matrix
shape_codec_at (suc (suc (suc zero))) = some Representation.tensor
shape_codec_at (suc (suc (suc (suc zero)))) = some Representation.block
shape_codec_at (suc (suc (suc (suc (suc zero))))) = some Representation.dna_encoded
shape_codec_at (suc (suc (suc (suc (suc (suc _)))))) = none

shape_codec_back : (x : Representation) → shape_codec_at (shape_codec_number x) ≡ some x
shape_codec_back Representation.raw = refl
shape_codec_back Representation.compressed = refl
shape_codec_back Representation.matrix = refl
shape_codec_back Representation.tensor = refl
shape_codec_back Representation.block = refl
shape_codec_back Representation.dna_encoded = refl

shape_codec : Codec Representation
shape_codec = via shape_codec_number shape_codec_at shape_codec_back number

abbrev Parts : Type 0
Parts =
    String
    × (DataType
        × (String
            × (StorageTier
                × (String
                    × (ℕ
                        × (Option ℕ
                            × (String
                                × (CompressionAlgorithm
                                    × (Representation
                                        × (Option String
                                            × (Option String × (Option String × (ℕ)))))))))))))

abbrev parts_of : IndexEntry → Parts
parts_of e = (
  e.object_id,
  (
    e.object_type,
    (
      e.storage_backend,
      (
        e.storage_tier,
        (
          e.location,
          (
            e.size,
            (
              e.compressed_size,
              (
                e.checksum,
                (
                  e.compression,
                  (e.representation, (e.tensor_id, (e.tensor_name, (e.block_id, e.indexed_at)))),
                ),
              ),
            ),
          ),
        ),
      ),
    ),
  ),
)

abbrev entry_of : Parts → IndexEntry
entry_of t = record {
  object_id = t.0;
  object_type = t.1.0;
  storage_backend = t.1.1.0;
  storage_tier = t.1.1.1.0;
  location = t.1.1.1.1.0;
  size = t.1.1.1.1.1.0;
  compressed_size = t.1.1.1.1.1.1.0;
  checksum = t.1.1.1.1.1.1.1.0;
  compression = t.1.1.1.1.1.1.1.1.0;
  representation = t.1.1.1.1.1.1.1.1.1.0;
  tensor_id = t.1.1.1.1.1.1.1.1.1.1.0;
  tensor_name = t.1.1.1.1.1.1.1.1.1.1.1.0;
  block_id = t.1.1.1.1.1.1.1.1.1.1.1.1.0;
  indexed_at = t.1.1.1.1.1.1.1.1.1.1.1.1.1;
}

entry_codec : Codec IndexEntry
entry_codec =
    via parts_of (λ t. some (entry_of t)) (λ e. refl)
      (pair string (
        pair type_codec (
          pair string (
            pair tier_codec (
              pair string (
                pair number (
                  pair (maybe number) (
                    pair string (
                      pair algorithm_codec (
                        pair shape_codec (
                          pair (maybe string)
                            (pair (maybe string) (pair (maybe string) (number))))))))))))))

abbrev or_value_error : Option (IndexEntry × Bytes) → Result Error IndexEntry
or_value_error none = err value_error
or_value_error (some (e, r)) = ok e

pub toy_json : EntryJson
toy_json = record {
  dump = λ e. entry_codec.write e [];
  validate = λ bytes. or_value_error (entry_codec.read bytes);
}

pub toy_json-IsFaithful : IsFaithful toy_json
unfolding toy_json
toy_json-IsFaithful = record {
  validate-dump = λ e. ap or_value_error (entry_codec.read-write e []);
}
