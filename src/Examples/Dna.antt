-- ===== src/Examples/Dna.antt =====
-- The archive at work on a short message.
use model_db.Prelude.{◌≡◌, refl, ◌≢◌, none, some, [], ◌∷◌, arith, replicate, ok, ◌>>=◌}
use model_db.Storage.Interface.{Bytes}
use model_db.Examples.Cipher.{toy}
use model_db.Dna.Encoder
use model_db.Dna.Encoder.{Sequence}
use model_db.Dna.Encoder.RoundTrip.{IsBytes, decode-encode}
use model_db.Dna.Encoder.Inverse.{encode-decode}
use model_db.Dna.Ecc
use model_db.Dna.Ecc.Majority.{decode-majority}
use model_db.Dna.Packed.{pack, unpack, unpack-pack}

abbrev pub message : Bytes
message = 104 ∷ 105 ∷ []

-- "CGGACGGC"
abbrev strand : Sequence
strand = 67 ∷ 71 ∷ 71 ∷ 65 ∷ 67 ∷ 71 ∷ 71 ∷ 67 ∷ []

message-IsBytes : IsBytes message
message-IsBytes = (omega arith, (omega arith, tt))

decode-encode_example : Encoder.decode (Encoder.encode message) ≡ ok message
decode-encode_example = decode-encode message message-IsBytes

strand_read : Encoder.decode strand ≡ ok message
unfolding Encoder.decode Encoder.sequence_bits Encoder.bits_by_base Encoder.bytes_of
strand_read = refl

encode-decode_example : (Encoder.encode message ≡ strand) × IsBytes message
encode-decode_example = encode-decode strand message strand_read

decode-majority_example :
    (Ecc.decode (some message ∷ none ∷ some message ∷ [])).data_bytes ≡ some message
decode-majority_example =
    decode-majority message (some message ∷ none ∷ some message ∷ []) (omega arith)

abbrev pub old_key : Bytes
old_key = replicate 32 1

abbrev pub new_key : Bytes
new_key = replicate 32 2

abbrev pub lost_key : Bytes
lost_key = replicate 32 3

abbrev pub nonce : Bytes
nonce = replicate 12 9

keys_differ : old_key ≢ new_key
keys_differ e = absurd (cc)

unpack-pack_example :
    (pack (message ∷ message ∷ message ∷ []) >>= unpack toy.json_sequences)
    ≡ ok (message ∷ message ∷ message ∷ [])
unpack-pack_example =
    unpack-pack toy.json_sequences message (message ∷ message ∷ []) (refl, (refl, (refl, tt)))
      (omega arith) (omega arith)
