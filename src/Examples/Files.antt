-- ===== src/Examples/Files.antt =====
-- A whole file: written, read, and read with a damaged start.
use timelocked.Common.{
  true, false, ℕ, ◌+◌, ◌≤◌, ◌≡◌, refl, arith, [], ◌∷◌, ◌++◌, none, some, length, replicate,
  length-replicate, inl, inr, take, flatten,
}
use timelocked.Common.Bytes.{Bytes, ascii, bytes_eq, le_bytes, from_le}
use timelocked.Base.{Error, invalid_format, text, ok, err, is_cancelled, next_poll}
use timelocked.ChunkFrame.{write_chunk_frame, build_chunk_aad}
use timelocked.Stream.Source.{Source, read}
use timelocked.Stream.Encrypt.{encrypt_protected_stream_with_cancel, encrypt_loop, seal_chunk}
use timelocked.Region.Shard.{encode_shard_record, decode_shard_record}
use timelocked.Region.Codec.{encode_shards}
use timelocked.Region.Layout.{
  PayloadRegionLayout, encoded_payload_region_len, validate, stripe_count,
}
use timelocked.Region.Encode.{
  encode_payload_region, encode_stripes, encode_stripe, stripe_shards, stripe_of, data_shards,
  data_shard,
}
use timelocked.Region.Reconstruct.{blocks}
use timelocked.Region.Recovery.{IsUsable, DamagedWithinBudget}
use timelocked.Superblock.Body.{SuperblockBody, validate_body, validate_fields}
use timelocked.Superblock.Encode.{encode_superblock_body, body_bytes, superblock_digest}
use timelocked.Superblock.Decode.{decode_superblock_body}
use timelocked.Superblock.RoundTrip.{IsBody, decode-encode_superblock_body}
use timelocked.Superblock.Copies.{
  ValidatedSuperblockCopy, encode_start_superblock_copy, encode_end_superblock_copy,
}
use timelocked.Artifact.Notice.{encode_notice, decode_notice, find_start_superblock_offset}
use timelocked.Artifact.Writer.{
  LockArtifactRequest, predicted_protected_stream_len, superblock_of, write_timelocked_artifact,
}
use timelocked.Artifact.Reader.{
  StoredTimelockedArtifact, read_timelocked_artifact_bytes, read_payload_region_bytes, notice_or,
}
use timelocked.Artifact.Recovery.{
  recover_payload_to_writer_with_cancel, verify_timelocked_file_structural_and_cancel,
}
use timelocked.Artifact.Locate.{artifact_of}
use timelocked.Artifact.RoundTrip.{read_timelocked_artifact-whole, read_timelocked_artifact-damaged}
use timelocked.Artifact.Written.{Written}
use timelocked.Artifact.Unlocked.{recover-write_timelocked_artifact}
use timelocked.Artifact.Verified.{verify-write_timelocked_artifact}
use timelocked.Artifact.Bounds.{read_payload_region-read_artifact}
use timelocked.Disk.{Disk}
use timelocked.Inspect.Execute.{InspectRequest}
use timelocked.Paths.FilePath.{path_with}
use timelocked.Examples.Toy.{toy, toy-IsAead, toy-IsBigEndian, toy-IsChecksum, toy-IsErasureCode}

abbrev source : Source
source = record { bytes = 1 ∷ 2 ∷ 3 ∷ []; grants = [] }

abbrev pub nonces : ℕ → Bytes
nonces i = replicate 24 i

pub nonces-sized : (i : ℕ) → length (nonces i) ≡ 24
nonces-sized i = length-replicate 24 i

abbrev pub layout : PayloadRegionLayout
layout = record { rs_data_shards = 1; rs_parity_shards = 1; rs_shard_bytes = 60 }

abbrev pub request : LockArtifactRequest
request = record {
  notice = some (72 ∷ 105 ∷ []);
  original_filename = some (97 ∷ []);
  iterations = 3;
  modulus_bits = 2_048;
  hardware_profile = 112 ∷ [];
  target_seconds = some 9;
  created_at_unix_seconds = 17;
  payload_plaintext_bytes = 3;
  aead_chunk_size_bytes = 4;
  payload_region_params = layout;
  key_bytes = replicate 32 5;
  timelock_material = record { modulus_n = 33; base_a = 5; wrapped_key = replicate 32 6 };
  password_protection = none;
}

abbrev body : SuperblockBody
unfolding superblock_of
body = superblock_of request 60 128

abbrev bytes : Bytes
unfolding body_bytes superblock_of le_bytes
bytes = body_bytes toy body

encoded : encode_superblock_body toy body ≡ ok bytes
unfolding encode_superblock_body validate_body validate_fields superblock_of bytes body_bytes
encoded = refl

body-IsBody : IsBody toy body
unfolding superblock_of
body-IsBody = record {
  flags = omega arith;
  plaintext = omega arith;
  stream = omega arith;
  region = omega arith;
  chunk_size = omega arith;
  data_shards = omega arith;
  parity_shards = omega arith;
  shard_bytes = omega arith;
  iterations = omega arith;
  modulus_bits = omega arith;
  target_seconds = omega arith;
  created = omega arith;
  filename = (omega arith, omega arith, refl);
  profile = omega arith;
  profile_utf8 = refl;
  modulus_n = omega arith;
  base_a = omega arith;
  wrapped_key = refl;
  metadata = tt;
}

length-bytes : length bytes ≡ 117
unfolding bytes body_bytes superblock_of le_bytes body
length-bytes = refl

decode-encode_superblock_body_example : decode_superblock_body toy bytes ≡ ok body
decode-encode_superblock_body_example =
    decode-encode_superblock_body toy toy-IsBigEndian body bytes body-IsBody encoded
      (omega (arith, length-bytes))

abbrev stream : Bytes
unfolding le_bytes
stream =
    le_bytes 8 0
    ++ (1 ∷ (le_bytes 4 3 ++ (le_bytes 4 19 ++ (nonces 0 ++ ((1 ∷ 2 ∷ 3 ∷ []) ++ replicate 16 0)))))

abbrev region : Bytes
unfolding encode_shard_record
region = encode_shard_record toy stream ++ encode_shard_record toy stream

-- The first record has its last byte changed.
abbrev damaged_region : Bytes
unfolding encode_shard_record
damaged_region = take 63 (encode_shard_record toy stream) ++ (7 ∷ encode_shard_record toy stream)

abbrev notice_part : Bytes
unfolding le_bytes
notice_part = ascii "TLCK" ++ (le_bytes 2 2 ++ (72 ∷ 105 ∷ []))

abbrev start_part : Bytes
unfolding le_bytes
start_part = ascii "TLSB" ++ (le_bytes 4 (length bytes) ++ (le_bytes 4 (toy.crc32c bytes) ++ bytes))

abbrev end_part : Bytes
unfolding le_bytes
end_part = bytes ++ (le_bytes 4 (toy.crc32c bytes) ++ (le_bytes 4 (length bytes) ++ ascii "TLEB"))

abbrev file : Bytes
file = notice_part ++ (start_part ++ (region ++ end_part))

noticed : encode_notice (72 ∷ 105 ∷ []) ≡ ok notice_part
unfolding encode_notice notice_part
noticed = refl

started : encode_start_superblock_copy toy body ≡ ok start_part
unfolding encode_start_superblock_copy start_part
started = rw encoded refl

ended : encode_end_superblock_copy toy body ≡ ok end_part
unfolding encode_end_superblock_copy end_part
ended = rw encoded refl

abbrev digest : Bytes
digest = toy.blake3 bytes

digested : superblock_digest toy body ≡ ok digest
unfolding superblock_digest
digested = rw encoded refl

encrypted :
    encrypt_protected_stream_with_cancel toy (replicate 32 5) digest nonces 4 [] source
    ≡ ok (stream, record { chunk_count = 1; plaintext_bytes = 3 })
unfolding encrypt_protected_stream_with_cancel encrypt_loop seal_chunk write_chunk_frame read
    is_cancelled next_poll build_chunk_aad le_bytes stream
encrypted = refl

region_encoded : encode_payload_region toy stream layout ≡ ok region
unfolding encode_payload_region encode_stripes encode_stripe encode_shards encode_shard_record
    validate stripe_count stripe_shards stripe_of le_bytes data_shards data_shard flatten stream
    region
region_encoded = refl

length-region : length region ≡ 128
unfolding region stream encode_shard_record le_bytes
length-region = refl

predicted : predicted_protected_stream_len 3 4 ≡ ok 60
unfolding predicted_protected_stream_len
predicted = refl

announced : encoded_payload_region_len 60 layout ≡ ok 128
unfolding encoded_payload_region_len validate stripe_count
announced = refl

length-stream : length stream ≡ 60
unfolding stream le_bytes
length-stream = refl

written : write_timelocked_artifact toy nonces [] source request ≡ ok file
unfolding write_timelocked_artifact body
written =
    rw
      (
        predicted, announced, digested, encrypted, length-stream, region_encoded, length-region,
        noticed, started, ended,
      )
      refl

-- The parts, as values.
abbrev parts : Written toy nonces [] source request file
unfolding body
parts = record {
  stream_len = 60;
  region_len = 128;
  digest = digest;
  stream = stream;
  stats = record { chunk_count = 1; plaintext_bytes = 3 };
  region = region;
  notice = notice_part;
  start_copy = start_part;
  end_copy = end_part;
  predicted = predicted;
  announced = announced;
  digested = digested;
  encrypted = encrypted;
  counted = refl;
  stream_measured = length-stream;
  encoded = region_encoded;
  region_measured = length-region;
  noticed = noticed;
  started = started;
  ended = ended;
  whole = refl;
}

pub layout-IsUsable : IsUsable toy layout
layout-IsUsable = record {
  some_data = omega arith;
  some_parity = omega arith;
  some_bytes = omega arith;
  constructs = refl;
}

within_budget : DamagedWithinBudget toy layout region damaged_region
unfolding decode_shard_record from_le blocks region damaged_region encode_shard_record stream
    le_bytes
within_budget = (refl, ((inr refl, (inl refl, tt)), omega arith, tt))

length-notice_part : length notice_part ≡ 8
unfolding notice_part le_bytes
length-notice_part = refl

abbrev damaged_file : Bytes
damaged_file = (notice_part ++ start_part) ++ (damaged_region ++ end_part)

recover-write_timelocked_artifact_example :
    (artifact : StoredTimelockedArtifact) × (read_timelocked_artifact_bytes toy damaged_file
      ≡ ok artifact)
    × (recover_payload_to_writer_with_cancel toy damaged_file artifact
          (λ request. ok (replicate 32 5))
          []
        ≡ (ok (record { chunk_count = 1; plaintext_bytes = 3 }), source.bytes))
unfolding parts body
recover-write_timelocked_artifact_example =
    recover-write_timelocked_artifact toy nonces nonces-sized [] source request file parts
      toy-IsAead toy-IsBigEndian toy-IsChecksum toy-IsErasureCode layout-IsUsable bytes encoded
      (omega (arith, length-bytes)) body-IsBody refl
      (omega (arith, length-bytes, length-notice_part)) damaged_region within_budget
      (λ request. ok (replicate 32 5)) refl

verify-write_timelocked_artifact_example :
    (artifact : StoredTimelockedArtifact) × (read_timelocked_artifact_bytes toy damaged_file
      ≡ ok artifact)
    × (verify_timelocked_file_structural_and_cancel toy damaged_file artifact []
        ≡ ok (record { chunk_count = 1; payload_plaintext_bytes = 3 }))
unfolding parts body
verify-write_timelocked_artifact_example =
    verify-write_timelocked_artifact toy nonces nonces-sized [] source request file parts toy-IsAead
      toy-IsBigEndian toy-IsChecksum toy-IsErasureCode layout-IsUsable bytes encoded
      (omega (arith, length-bytes)) body-IsBody refl
      (omega (arith, length-bytes, length-notice_part)) damaged_region within_budget

abbrev shelf : Disk
shelf = record { contents = λ path. ok file; exists = λ path. true }

abbrev look : InspectRequest
look = record {
  input = path_with false ((97 ∷ []) ∷ []);
  current_machine_iterations_per_second = none;
}

read_timelocked_artifact-whole_example :
    (read_timelocked_artifact_bytes toy ((notice_part ++ start_part) ++ (region ++ end_part))
      ≡ ok (artifact_of (72 ∷ 105 ∷ []) body bytes (length notice_part)))
    × (read_payload_region_bytes
          ((notice_part ++ start_part) ++ (region ++ end_part))
          (artifact_of (72 ∷ 105 ∷ []) body bytes (length notice_part))
        ≡ ok region)
unfolding body
read_timelocked_artifact-whole_example =
    read_timelocked_artifact-whole toy toy-IsBigEndian toy-IsChecksum body bytes region body-IsBody
      encoded (omega (arith, length-bytes)) length-region (72 ∷ 105 ∷ []) notice_part start_part
      end_part noticed refl started ended (omega (arith, length-bytes, length-notice_part))

-- 137 bytes of zeros in place of the notice and the start copy.
abbrev zeros : Bytes
zeros = replicate 137 0

abbrev beheaded_file : Bytes
beheaded_file = zeros ++ (region ++ end_part)

abbrev no_magic : Error
no_magic = invalid_format (text "invalid file magic")

lost : find_start_superblock_offset toy beheaded_file ≡ err no_magic
unfolding find_start_superblock_offset bytes_eq region le_bytes bytes
lost = refl

abbrev beheaded_artifact : StoredTimelockedArtifact
beheaded_artifact =
    artifact_of (notice_or (decode_notice toy (zeros ++ (region ++ end_part)))) body bytes 8

read_timelocked_artifact-damaged_example :
    (read_timelocked_artifact_bytes toy beheaded_file ≡ ok beheaded_artifact)
    × (read_payload_region_bytes beheaded_file beheaded_artifact ≡ ok region)
unfolding body
read_timelocked_artifact-damaged_example =
    read_timelocked_artifact-damaged toy toy-IsBigEndian toy-IsChecksum body bytes region
      body-IsBody encoded (omega (arith, length-bytes)) length-region zeros end_part 8 no_magic
      ended (omega (arith, length-bytes)) (omega (arith, length-bytes)) lost

read_payload_region-read_artifact_example :
    (beheaded_artifact.payload_region_offset + beheaded_artifact.superblock.payload_region_len
      ≤ beheaded_artifact.end_superblock_offset)
    × (region : Bytes) × (read_payload_region_bytes beheaded_file beheaded_artifact ≡ ok region)
    × (length region ≡ beheaded_artifact.superblock.payload_region_len)
read_payload_region-read_artifact_example =
    read_payload_region-read_artifact toy beheaded_file beheaded_artifact
      read_timelocked_artifact-damaged_example.0

abbrev copy : ValidatedSuperblockCopy
copy = record { body = body; body_bytes = bytes; total_len = 129 }
