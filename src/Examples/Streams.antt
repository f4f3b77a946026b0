-- ===== src/Examples/Streams.antt =====
-- Chunk frames and protected streams.
use timelocked.Common.{
  ℕ, ◌+◌, ◌*◌, ◌≡◌, ◌≢◌, refl, arith, Bool, true, false, [], ◌∷◌, ◌++◌, some, if◌then◌else◌, length,
  replicate, length-replicate,
}
use timelocked.Common.Bytes.{Bytes, le_bytes, from_le}
use timelocked.Base.{Result, ok, err, out_of_fuel, is_cancelled, next_poll}
use timelocked.Base.Read.{read_exact, read_u8, read_u32, read_le}
use timelocked.ChunkFrame.{
  ChunkFrameHeader, write_chunk_frame, read_chunk_frame, read_frame_body, read_exact_or_eof,
  validate_chunk_frame, build_chunk_aad,
}
use timelocked.ChunkFrame.RoundTrip.{read-write_chunk_frame}
use timelocked.ChunkFrame.Binding.{build_chunk_aad-injective}
use timelocked.ChunkFrame.Validation.{
  IsValidFrame, IsReadFrame, validate_chunk_frame_iff, read_chunk_frame-IsReadFrame,
}
use timelocked.Stream.Source.{Source, upto, read}
use timelocked.Stream.Encrypt.{
  ChunkEncryptionStats, encrypt_protected_stream_with_cancel, encrypt_loop, seal_chunk,
}
use timelocked.Stream.Decrypt.{
  ChunkDecryptionStats, decrypt_protected_stream_to_writer_with_cancel, decrypt_loop, next_chunk,
  open_chunk, validate_protected_stream_frame, finish_stream,
}
use timelocked.Stream.Scan.{scan_protected_stream_structural}
use timelocked.Stream.Sealed.{Encrypted, encrypt_protected_stream-Encrypted}
use timelocked.Stream.RoundTrip.{length-encrypt, decrypt-encrypt}
use timelocked.Stream.Soundness.{Released, decrypt-Released}
use timelocked.Stream.Agreement.{scan-decrypt}
use timelocked.Stream.Termination.{decrypt_terminates}
use timelocked.Examples.Toy.{toy, toy-IsAead}

abbrev frame : ChunkFrameHeader
frame = record {
  index = 3;
  is_last = true;
  plaintext_len = 1;
  ciphertext_len = 17;
  nonce = replicate 24 7;
}

abbrev ciphertext : Bytes
ciphertext = 9 ∷ replicate 16 0

abbrev frame_written : Bytes
frame_written =
    le_bytes 8 3 ++ (1 ∷ (le_bytes 4 1 ++ (le_bytes 4 17 ++ (replicate 24 7 ++ ciphertext))))

read-write_chunk_frame_example :
    read_chunk_frame (frame_written ++ (5 ∷ [])) ≡ ok (some (frame, ciphertext), 5 ∷ [])
unfolding write_chunk_frame
read-write_chunk_frame_example =
    read-write_chunk_frame frame ciphertext frame_written (5 ∷ [])
      (record {
        index = omega arith;
        plaintext_len = omega arith;
        ciphertext_len = omega arith;
        tagged = omega arith;
        nonce = refl;
        ciphertext = refl;
      })
      refl

validate_chunk_frame_iff_example :
    (validate_chunk_frame frame 17 4 3 ≡ ok tt → IsValidFrame frame 17 4 3)
    × (IsValidFrame frame 17 4 3 → validate_chunk_frame frame 17 4 3 ≡ ok tt)
validate_chunk_frame_iff_example =
    validate_chunk_frame_iff frame 17 4 3 (omega arith) (omega arith) (omega arith) refl

read_chunk_frame-IsReadFrame_example :
    IsReadFrame (frame_written ++ (5 ∷ [])) frame ciphertext (5 ∷ [])
unfolding write_chunk_frame
read_chunk_frame-IsReadFrame_example =
    read_chunk_frame-IsReadFrame (frame_written ++ (5 ∷ [])) frame ciphertext (5 ∷ [])
      read-write_chunk_frame_example

abbrev some_digest : Bytes
some_digest = replicate 32 7

abbrev chunk_index : ℕ
chunk_index = 3

abbrev chunk_len : ℕ
chunk_len = 5

build_chunk_aad-injective_example :
    (some_digest ≡ some_digest) × (chunk_index ≡ 3) × (chunk_len ≡ 5) × (true ≡ true)
build_chunk_aad-injective_example =
    build_chunk_aad-injective some_digest some_digest chunk_index 3 chunk_len 5 true true refl refl
      (omega arith) (omega arith) (omega arith) (omega arith) refl

-- Three bytes, of which the first call returns one, in chunks of two.
abbrev source : Source
source = record { bytes = 1 ∷ 2 ∷ 3 ∷ []; grants = upto 0 ∷ [] }

abbrev key : Bytes
key = replicate 32 1

abbrev digest : Bytes
digest = replicate 32 2

abbrev nonces : ℕ → Bytes
nonces i = replicate 24 i

nonces-sized : (i : ℕ) → length (nonces i) ≡ 24
nonces-sized i = length-replicate 24 i

abbrev chunk : ℕ → Bool → Bytes → Bytes
chunk index is_last data_bytes =
    le_bytes 8 index
    ++ ((if is_last then 1 else 0)
        ∷ (le_bytes 4 (length data_bytes)
            ++ (le_bytes 4 (length data_bytes + 16)
                ++ (nonces index ++ (data_bytes ++ replicate 16 0)))))

abbrev stream : Bytes
stream = chunk 0 false (1 ∷ []) ++ chunk 1 true (2 ∷ 3 ∷ [])

abbrev stats : ChunkEncryptionStats
stats = record { chunk_count = 2; plaintext_bytes = 3 }

encrypted :
    encrypt_protected_stream_with_cancel toy key digest nonces 2 (false ∷ []) source
    ≡ ok (stream, stats)
unfolding encrypt_protected_stream_with_cancel encrypt_loop seal_chunk write_chunk_frame read
    is_cancelled next_poll build_chunk_aad le_bytes
encrypted = refl

abbrev decrypted : Result ChunkDecryptionStats × Bytes
decrypted = (ok (record { chunk_count = 2; plaintext_bytes = 3 }), 1 ∷ 2 ∷ 3 ∷ [])

encrypt_protected_stream-Encrypted_example : Encrypted toy key digest nonces 2 source stream stats
encrypt_protected_stream-Encrypted_example =
    encrypt_protected_stream-Encrypted toy key digest nonces 2 (false ∷ []) source stream stats
      encrypted

length-encrypt_example : length stream ≡ length source.bytes + 57 * stats.chunk_count
length-encrypt_example =
    length-encrypt toy toy-IsAead key digest nonces nonces-sized 2 (omega arith) (false ∷ []) source
      stream stats (omega arith) encrypted

decrypt-encrypt_example :
    decrypt_protected_stream_to_writer_with_cancel toy key digest 2 [] stream 3 ≡ decrypted
decrypt-encrypt_example =
    decrypt-encrypt toy toy-IsAead key digest nonces nonces-sized 2 (omega arith) (false ∷ [])
      source stream stats (omega arith) encrypted

-- The same, by running the loop.
decrypts : decrypt_protected_stream_to_writer_with_cancel toy key digest 2 [] stream 3 ≡ decrypted
unfolding decrypt_protected_stream_to_writer_with_cancel decrypt_loop next_chunk open_chunk
    validate_protected_stream_frame validate_chunk_frame read_chunk_frame read_frame_body
    read_exact_or_eof read_exact read_u8 read_u32 read_le from_le le_bytes is_cancelled next_poll
    finish_stream build_chunk_aad
decrypts = refl

decrypt-Released_example :
    Released toy key digest 2 stream 3
      (record { chunk_count = 2; plaintext_bytes = 3 })
      (1 ∷ 2 ∷ 3 ∷ [])
decrypt-Released_example =
    decrypt-Released toy key digest 2 [] stream 3 (record { chunk_count = 2; plaintext_bytes = 3 })
      (1 ∷ 2 ∷ 3 ∷ []) decrypts

decrypt_terminates_example :
    (decrypt_protected_stream_to_writer_with_cancel toy key digest 2 [] stream 3).0
    ≢ err out_of_fuel
decrypt_terminates_example = decrypt_terminates toy key digest 2 [] stream 3

scan-decrypt_example :
    scan_protected_stream_structural 2 stream ≡ ok (record { chunk_count = 2; plaintext_bytes = 3 })
scan-decrypt_example =
    scan-decrypt toy key digest 2 [] stream 3 (record { chunk_count = 2; plaintext_bytes = 3 })
      (1 ∷ 2 ∷ 3 ∷ []) decrypts
