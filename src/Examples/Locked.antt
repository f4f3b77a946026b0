-- ===== src/Examples/Locked.antt =====
-- A whole lock with a passphrase, and its unlock.
use timelocked.Common.{
  ℕ, ◌*◌, ◌%◌, ◌^◌, ◌≡◌, refl, arith, [], ◌∷◌, ◌++◌, false, true, none, some, length, replicate,
  length-replicate, flatten,
}
use timelocked.Common.Bytes.{Bytes, ascii, le_bytes, from_le}
use timelocked.Base.{ok, is_cancelled, next_poll}
use timelocked.Primitives.{Primitives, done}
use timelocked.Primitives.Laws.{IsAead, IsBigEndian, IsChecksum, IsDigest, IsKdf}
use timelocked.Keys.Xor.{xor_32}
use timelocked.Keys.Params.{
  PasswordProtectionParams, metadata_v1, default_with_salt, new_params, validate_params,
  validate_metadata,
}
use timelocked.Keys.Wrap.{
  key_protection_material, wrap_file_key_for_password_protected_lock, validate_lock_passphrase,
  wrap_file_key_with_password, derive_password_wrap_key,
}
use timelocked.Puzzle.Service.{
  CreatedTimelockPuzzle, create_puzzle_and_derive_mask, derive_key_mask,
  solve_puzzle_mask_with_cancel, solve_loop, repeated_square_step, poll_if,
}
use timelocked.ChunkFrame.{write_chunk_frame, build_chunk_aad}
use timelocked.Stream.Source.{read}
use timelocked.Stream.Encrypt.{encrypt_protected_stream_with_cancel, encrypt_loop, seal_chunk}
use timelocked.Region.Shard.{encode_shard_record, decode_shard_record}
use timelocked.Region.Codec.{encode_shards, reconstruct_shards}
use timelocked.Region.Layout.{
  PayloadRegionLayout, encoded_payload_region_len, validate, stripe_count,
}
use timelocked.Region.Encode.{
  encode_payload_region, encode_stripes, encode_stripe, stripe_shards, stripe_of, data_shards,
  data_shard,
}
use timelocked.Region.Reconstruct.{
  reconstruct_payload_region, blocks, reconstruct_stripes, reconstruct_stripe, decode_records,
  join_data,
}
use timelocked.Superblock.Body.{SuperblockBody, validate_body, validate_fields}
use timelocked.Superblock.Encode.{encode_superblock_body, body_bytes, superblock_digest}
use timelocked.Superblock.RoundTrip.{IsBody}
use timelocked.Superblock.Copies.{encode_start_superblock_copy, encode_end_superblock_copy}
use timelocked.Artifact.Notice.{encode_notice, default_notice_text}
use timelocked.Artifact.Writer.{
  LockArtifactRequest, predicted_protected_stream_len, superblock_of, write_timelocked_artifact,
}
use timelocked.Artifact.Written.{Written}
use timelocked.Artifact.Reader.{StoredTimelockedArtifact}
use timelocked.Artifact.Recovery.{recover_request}
use timelocked.Artifact.Locate.{artifact_of}
use timelocked.Unlock.Key.{puzzle_of}
use timelocked.Lock.Shards.{
  choose_rs_shard_bytes_for_protected_stream_len, next_power_of_two, power_from,
}
use timelocked.Lock.Staging.{LockRequest, StagedLockInput}
use timelocked.Lock.Payload.{Draws, PayloadWritePlan, artifact_request}
use timelocked.Lock.Written.{staged_source, LockedPayload}
use timelocked.Lock.RoundTrip.{unlock-write_payload_artifacts}
use timelocked.Paths.FilePath.{FilePath, path_with}
use timelocked.Disk.{Disk, Answers, persisted, made}
use timelocked.Disk.Directories.{dir_of}
use timelocked.Unlock.Request.{UnlockRequest, recovered_file}
use timelocked.Paths.Output.{resolve_available_output_path}
use timelocked.Unlock.Execute.{available, execute_with_cancel_and_password_provider}
use timelocked.Unlock.Once.{Works, never}
use timelocked.Inspect.Execute.{InspectResponse, inspect_file}
use timelocked.Inspect.Shown.{IsLockShown, inspect-write_payload_artifacts}
use timelocked.Examples.Toy.{
  toy, sum, toy-IsAead, toy-IsBigEndian, toy-IsChecksum, toy-IsDigest, toy-IsKdf,
}

-- A code that passes the shards on.
abbrev pub lib : Primitives
lib = record toy {
  rs_new = λ d m. done tt;
  rs_encode = λ d m shards. done shards;
  rs_reconstruct = λ d m shards. done shards;
}

lib-IsAead : IsAead lib
lib-IsAead = record {
  seals = toy-IsAead.seals;
  tagged = toy-IsAead.tagged;
  opens = toy-IsAead.opens;
}

lib-IsBigEndian : IsBigEndian lib
lib-IsBigEndian = record {
  restores = toy-IsBigEndian.restores;
  nonempty = toy-IsBigEndian.nonempty;
}

lib-IsChecksum : IsChecksum lib
lib-IsChecksum = record { fits = toy-IsChecksum.fits }

lib-IsDigest : IsDigest lib
lib-IsDigest = record { sized = toy-IsDigest.sized }

lib-IsKdf : IsKdf lib
lib-IsKdf = record { sized = toy-IsKdf.sized }

abbrev pub passphrase : Bytes
passphrase = 97 ∷ 97 ∷ []

abbrev pub draws : Draws
draws = record {
  file_key = replicate 32 5;
  salt = 1 ∷ 2 ∷ [];
  lcm = λ m n. 10;
  prime_p = 3;
  prime_q = 11;
  base_a = 5;
  nonces = λ i. replicate 24 i;
  current_unix_seconds = 17;
  grants = [];
  polls = [];
}

abbrev pub here : FilePath
here = path_with false ((97 ∷ []) ∷ [])

abbrev pub answers : Answers
answers = record {
  create_dir_all = λ path. ok tt;
  unmade = λ path. 0;
  new_temp_in = λ path. ok tt;
  flush = ok tt;
  persist = λ path. ok tt;
}

abbrev pub staged : StagedLockInput
staged = record {
  output_path = here;
  output_parent = here;
  plaintext_staging = 1 ∷ 2 ∷ 3 ∷ [];
  plaintext_bytes = 3;
  original_filename = some (97 ∷ []);
}

abbrev pub request : LockRequest
request = record {
  input = 97 ∷ [];
  output = none;
  modulus_bits = 2_048;
  target = none;
  iterations = some 3;
  hardware_profile = none;
  current_machine_iterations_per_second = none;
  password = some passphrase;
  verify = true;
}

abbrev pub plan : PayloadWritePlan
plan = record { iterations = 3; hardware_profile = 112 ∷ []; target_seconds = some 9 }

abbrev pub mask : Bytes
mask = replicate 32 (5 ^ (2 ^ 3 % 10) % 33)

abbrev pub puzzle : CreatedTimelockPuzzle
puzzle = record {
  modulus_n = 33;
  base_a = 5;
  iterations = 3;
  modulus_bits = 2_048;
  solution_mask = mask;
}

abbrev pub params : PasswordProtectionParams
params = record { memory_kib = 65_536; iterations = 3; parallelism = 1; salt = 1 ∷ 2 ∷ [] }

abbrev pub wrapped_key : Bytes
unfolding xor_32
wrapped_key =
    xor_32 (replicate 32 5)
      (replicate 32 (sum (ascii "TLCK-PASSWORD-WRAP-v1" ++ (mask ++ passphrase)) % 256))

abbrev pub artifact : LockArtifactRequest
artifact = artifact_request draws staged plan puzzle wrapped_key (some (metadata_v1 params)) 64

created : create_puzzle_and_derive_mask lib draws.lcm 3 11 5 3 2_048 ≡ ok puzzle
unfolding create_puzzle_and_derive_mask derive_key_mask
created = refl

wrapped :
    key_protection_material lib (replicate 32 5) mask (some passphrase) (1 ∷ 2 ∷ [])
    ≡ ok (wrapped_key, some (metadata_v1 params))
unfolding key_protection_material default_with_salt new_params validate_params
    wrap_file_key_for_password_protected_lock validate_lock_passphrase wrap_file_key_with_password
    derive_password_wrap_key xor_32 wrapped_key
wrapped = refl

predicted : predicted_protected_stream_len 3 1_048_576 ≡ ok 60
unfolding predicted_protected_stream_len
predicted = refl

chosen : choose_rs_shard_bytes_for_protected_stream_len 60 ≡ 64
unfolding choose_rs_shard_bytes_for_protected_stream_len next_power_of_two power_from
chosen = refl

abbrev pub body : SuperblockBody
unfolding superblock_of
body = superblock_of artifact 60 408

abbrev pub bytes : Bytes
unfolding body_bytes superblock_of le_bytes wrapped_key
bytes = body_bytes lib body

encoded : encode_superblock_body lib body ≡ ok bytes
unfolding encode_superblock_body validate_body validate_fields superblock_of bytes body_bytes
    validate_metadata validate_params
encoded = refl

body-IsBody : IsBody lib body
unfolding superblock_of wrapped_key
body-IsBody = record {
  flags = omega arith;
  plaintext = omega arith;
  stream = omega arith;
  region = omega arith;
  chunk_size = omega arith;
  data_shards = omega arith;
  parity_shards = omega arith;
  shard_bytes = omega arith;
  iterations = omega arith;
  modulus_bits = omega arith;
  target_seconds = omega arith;
  created = omega arith;
  filename = (omega arith, omega arith, refl);
  profile = omega arith;
  profile_utf8 = refl;
  modulus_n = omega arith;
  base_a = omega arith;
  wrapped_key = refl;
  metadata = (omega arith, omega arith, omega arith);
}

length-bytes : length bytes ≡ 135
unfolding bytes body_bytes superblock_of le_bytes body
length-bytes = refl

abbrev pub stream : Bytes
unfolding le_bytes
stream =
    le_bytes 8 0
    ++ (1
        ∷ (le_bytes 4 3
            ++ (le_bytes 4 19 ++ (replicate 24 0 ++ ((1 ∷ 2 ∷ 3 ∷ []) ++ replicate 16 0)))))

digested : superblock_digest lib body ≡ ok (lib.blake3 bytes)
unfolding superblock_digest
digested = rw encoded refl

encrypted :
    encrypt_protected_stream_with_cancel lib
      (replicate 32 5)
      (lib.blake3 bytes)
      draws.nonces
      1_048_576
      []
      (staged_source lib draws answers staged request plan)
    ≡ ok (stream, record { chunk_count = 1; plaintext_bytes = 3 })
unfolding encrypt_protected_stream_with_cancel encrypt_loop seal_chunk write_chunk_frame read
    is_cancelled next_poll build_chunk_aad le_bytes stream
encrypted = refl

abbrev pub record_of : Bytes → Bytes
unfolding encode_shard_record
record_of shard = encode_shard_record lib shard

abbrev pub empty_shard : Bytes
empty_shard = replicate 64 0

abbrev pub region : Bytes
unfolding encode_shard_record
region =
    record_of (stream ++ replicate 4 0)
    ++ (record_of empty_shard
        ++ (record_of empty_shard
            ++ (record_of empty_shard ++ (record_of empty_shard ++ record_of empty_shard))))

abbrev pub layout : PayloadRegionLayout
layout = record { rs_data_shards = 4; rs_parity_shards = 2; rs_shard_bytes = 64 }

region_encoded : encode_payload_region lib stream layout ≡ ok region
unfolding encode_payload_region encode_stripes encode_stripe encode_shards encode_shard_record
    validate stripe_count stripe_shards stripe_of le_bytes data_shards data_shard flatten stream
    region
region_encoded = refl

length-region : length region ≡ 408
unfolding region stream encode_shard_record le_bytes
length-region = refl

announced : encoded_payload_region_len 60 layout ≡ ok 408
unfolding encoded_payload_region_len validate stripe_count
announced = refl

length-stream : length stream ≡ 60
unfolding stream le_bytes
length-stream = refl

rebuilt : reconstruct_payload_region lib layout region 60 ≡ ok stream
unfolding reconstruct_payload_region blocks decode_shard_record encode_shard_record region stream
    le_bytes from_le validate stripe_count flatten reconstruct_stripes reconstruct_stripe
    decode_records reconstruct_shards join_data
rebuilt = refl

abbrev pub notice_part : Bytes
unfolding le_bytes
notice_part = ascii "TLCK" ++ (le_bytes 2 (length default_notice_text) ++ default_notice_text)

abbrev pub start_part : Bytes
unfolding le_bytes
start_part = ascii "TLSB" ++ (le_bytes 4 (length bytes) ++ (le_bytes 4 (lib.crc32c bytes) ++ bytes))

abbrev pub end_part : Bytes
unfolding le_bytes
end_part = bytes ++ (le_bytes 4 (lib.crc32c bytes) ++ (le_bytes 4 (length bytes) ++ ascii "TLEB"))

abbrev file : Bytes
file = notice_part ++ (start_part ++ (region ++ end_part))

noticed : encode_notice default_notice_text ≡ ok notice_part
unfolding encode_notice notice_part
noticed = refl

started : encode_start_superblock_copy lib body ≡ ok start_part
unfolding encode_start_superblock_copy start_part
started = rw encoded refl

ended : encode_end_superblock_copy lib body ≡ ok end_part
unfolding encode_end_superblock_copy end_part
ended = rw encoded refl

written :
    write_timelocked_artifact lib draws.nonces []
      (staged_source lib draws answers staged request plan)
      artifact
    ≡ ok file
unfolding write_timelocked_artifact body
written =
    rw
      (
        predicted, announced, digested, encrypted, length-stream, region_encoded, length-region,
        noticed, started, ended,
      )
      refl

abbrev locked : LockedPayload lib draws answers staged request plan file
locked = record {
  puzzle = puzzle;
  wrapped_key = wrapped_key;
  password_protection = some (metadata_v1 params);
  stream_len = 60;
  created = created;
  wrapped = wrapped;
  predicted = predicted;
  written = rw chosen written;
}

abbrev parts :
    Written lib draws.nonces [] (staged_source lib draws answers staged request plan) artifact file
unfolding body
parts = record {
  stream_len = 60;
  region_len = 408;
  digest = lib.blake3 bytes;
  stream = stream;
  stats = record { chunk_count = 1; plaintext_bytes = 3 };
  region = region;
  notice = notice_part;
  start_copy = start_part;
  end_copy = end_part;
  predicted = predicted;
  announced = announced;
  digested = digested;
  encrypted = encrypted;
  counted = refl;
  stream_measured = length-stream;
  encoded = region_encoded;
  region_measured = length-region;
  noticed = noticed;
  started = started;
  ended = ended;
  whole = refl;
}

abbrev pub unlock : UnlockRequest
unlock = record { input = here; out_dir = none; out = some (path_with false ((98 ∷ []) ∷ [])) }

abbrev pub target : FilePath
target = path_with false ((98 ∷ []) ∷ [])

abbrev pub disk : Disk
disk = record {
  contents = λ path. ok ((notice_part ++ start_part) ++ (region ++ end_part));
  exists = λ path. false;
}

length-notice_part : length notice_part ≡ 105
unfolding notice_part le_bytes
length-notice_part = refl

period : 5 ^ 10 % (3 * 11) ≡ 1 % (3 * 11)
period = refl

resolved : available disk.exists lib.to_string_lossy (some target) ≡ ok (some target)
unfolding resolve_available_output_path
resolved = refl

works : Works answers target
works = record { creates = refl; opens = refl; flushes = refl; persists = refl }

unlock-write_payload_artifacts_example :
    (execute_with_cancel_and_password_provider lib answers
      (some (λ context. ok passphrase))
      []
      never
      unlock
      disk).0
    ≡ (
      ok (record { recovered_payload = recovered_file target; recovered_bytes = 3 }),
      persisted target (1 ∷ 2 ∷ 3 ∷ []) (made (dir_of target) disk),
    )
unfolding body choose_rs_shard_bytes_for_protected_stream_len next_power_of_two power_from
unlock-write_payload_artifacts_example =
    unlock-write_payload_artifacts lib draws answers staged request plan file locked lib-IsAead
      lib-IsBigEndian lib-IsChecksum lib-IsDigest lib-IsKdf refl (λ i. length-replicate 24 i) period
      parts bytes encoded (omega (arith, length-bytes)) body-IsBody refl
      (omega (arith, length-bytes, length-notice_part)) region length-region rebuilt (97 ∷ []) refl
      unlock disk target answers (λ context. ok passphrase) refl resolved works (λ context. refl)

abbrev pub parsed : StoredTimelockedArtifact
parsed = artifact_of default_notice_text body bytes 105

pub solved :
    (attempt : ℕ)
    → solve_puzzle_mask_with_cancel lib (puzzle_of (recover_request parsed.superblock)) [] ≡ ok mask
unfolding solve_puzzle_mask_with_cancel solve_loop repeated_square_step poll_if derive_key_mask
    is_cancelled next_poll body superblock_of
solved attempt = refl

inspect-write_payload_artifacts_example :
    (response : InspectResponse) × (inspect_file lib
        (λ time. none)
        (record { contents = λ path. ok file; exists = λ path. true })
        (record { input = target; current_machine_iterations_per_second = none })
      ≡ ok response)
    × IsLockShown (λ time. none) draws staged request plan response
unfolding body choose_rs_shard_bytes_for_protected_stream_len next_power_of_two power_from
inspect-write_payload_artifacts_example =
    inspect-write_payload_artifacts lib (λ time. none) draws answers staged request plan file locked
      lib-IsBigEndian lib-IsChecksum parts bytes encoded (omega (arith, length-bytes)) body-IsBody
      refl (omega (arith, length-bytes, length-notice_part))
      (record { contents = λ path. ok file; exists = λ path. true })
      (record { input = target; current_machine_iterations_per_second = none }) refl
