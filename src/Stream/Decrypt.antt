-- ===== src/Stream/Decrypt.antt =====
-- `decrypt_protected_stream_to_writer_with_cancel`. The writer is the bytes written so far; they
-- stay written when the decryption fails later. Progress reports are left out.
use timelocked.Common.{
  ℕ, zero, suc, ◌+◌, Bool, true, false, not, Option, none, some, [], ◌∷◌, ◌++◌, ◌==◌, if◌then◌else◌,
  length, ◌&&◌,
}
use timelocked.Common.Bytes.{Bytes}
use timelocked.Base.{
  Result, ok, err, invalid_format, crypto, cancelled, out_of_fuel, text, fmt, Polls, is_cancelled,
  next_poll, reject_if,
}
use timelocked.Base as B
use timelocked.Base.Read.{Parser, pure, lift, ◌>>=◌}
use timelocked.Primitives.{Primitives}
use timelocked.ChunkFrame.{
  ChunkFrameHeader, read_chunk_frame, validate_chunk_frame, build_chunk_aad,
}

pub record ChunkDecryptionStats : Type 0 where
  pub chunk_count : ℕ
  pub plaintext_bytes : ℕ

unfoldable pub validate_protected_stream_frame : ChunkFrameHeader → ℕ → ℕ → ℕ → Result (Unit {0})
validate_protected_stream_frame frame ciphertext_len chunk_size expected_index =
    B.◌>>◌ (validate_chunk_frame frame ciphertext_len chunk_size expected_index) (
      reject_if (not frame.is_last && frame.plaintext_len == 0)
        (invalid_format (text "non-terminal chunks must carry plaintext bytes")))

-- Where a loop over frames stopped: its counters, whether the terminal chunk was seen, and the
-- bytes that are left.
pub record LoopEnd : Type 0 where
  pub expected_index : ℕ
  pub plaintext_written : ℕ
  pub saw_last : Bool
  pub rest : Bytes

abbrev pub authentication_failed : B.Error
authentication_failed =
    crypto (text "payload authentication failed (file is corrupted or tampered)")

abbrev pub check_length : ChunkFrameHeader → Option Bytes → Result Bytes
check_length frame none = err authentication_failed
check_length frame (some plaintext) =
    if length plaintext == frame.plaintext_len
    then ok plaintext
    else err (invalid_format (fmt "chunk {} plaintext length mismatch" (frame.index ∷ [])))

abbrev pub expect_end : Result (Option (ChunkFrameHeader × Bytes) × Bytes) → Result (Unit {0})
expect_end (err e) = err e
expect_end (ok (some frame, rest)) =
    err (invalid_format (text "unexpected trailing chunk data after terminal chunk"))
expect_end (ok (none, rest)) = ok tt

-- The checks after the loop: a terminal chunk, and nothing behind it.
unfoldable pub finish_stream : LoopEnd → Result (Unit {0})
finish_stream end =
    if not end.saw_last
    then err (invalid_format (text "missing terminal chunk marker"))
    else expect_end (read_chunk_frame end.rest)

module _ (p : Primitives) (key digest : Bytes) (chunk_size : ℕ) where
  -- Validate one frame that was read, and open it.
  unfoldable pub open_chunk : ChunkFrameHeader → Bytes → ℕ → Result Bytes
  open_chunk frame ciphertext expected_index =
      B.◌>>◌ (validate_protected_stream_frame frame (length ciphertext) chunk_size expected_index) (
        check_length frame (
          p.aead_decrypt key frame.nonce
            (build_chunk_aad digest frame.index frame.plaintext_len frame.is_last) ciphertext))

  abbrev pub open_frame : ℕ → Option (ChunkFrameHeader × Bytes) → Parser (Option (Bool × Bytes))
  open_frame expected_index none =
      if expected_index == 0
      then lift (err (invalid_format (text "missing chunk frames")))
      else pure none
  open_frame expected_index (some (frame, ciphertext)) = do
    plaintext ← lift (open_chunk frame ciphertext expected_index)
    pure (some (frame.is_last, plaintext))

  -- The next chunk's terminal marker and plaintext, or the end of the frames.
  unfoldable pub next_chunk : ℕ → Parser (Option (Bool × Bytes))
  next_chunk expected_index = do maybe ← read_chunk_frame; open_frame expected_index maybe

  unfoldable pub decrypt_loop : ℕ → Polls → Bytes → ℕ → ℕ → Bytes → Result LoopEnd × Bytes
  decrypt_loop zero polls stream expected_index written out = (err out_of_fuel, out)
  decrypt_loop (suc fuel) polls stream expected_index written out = elim (is_cancelled polls) [
    | true ↦ (err cancelled, out)
    | false ↦ elim (next_chunk expected_index stream) [
      | err e ↦ (err e, out)
      | ok (none, rest) ↦ (
        ok (record {
          expected_index = expected_index;
          plaintext_written = written;
          saw_last = false;
          rest = rest;
        }),
        out,
      )
      | ok (some (true, plaintext), rest) ↦ (
        ok (record {
          expected_index = expected_index + 1;
          plaintext_written = written + length plaintext;
          saw_last = true;
          rest = rest;
        }),
        out ++ plaintext,
      )
      | ok (some (false, plaintext), rest) ↦
          decrypt_loop fuel (next_poll polls) rest (expected_index + 1) (written + length plaintext)
            (out ++ plaintext)
    ]
  ]

  -- The checks after the loop.
  abbrev pub finish_decryption : ℕ → Result LoopEnd → Result ChunkDecryptionStats
  finish_decryption expected_plaintext (err e) = err e
  finish_decryption expected_plaintext (ok end) = B.◌>>◌ (finish_stream end) (
      if end.plaintext_written == expected_plaintext
      then ok (record { chunk_count = end.expected_index; plaintext_bytes = end.plaintext_written })
      else err (
          invalid_format (
            fmt "plaintext size mismatch, expected {}, got {}"
              (expected_plaintext ∷ end.plaintext_written ∷ []))))

  -- The result, and what was written.
  unfoldable pub decrypt_protected_stream_to_writer_with_cancel :
      Polls → Bytes → ℕ → Result ChunkDecryptionStats × Bytes
  decrypt_protected_stream_to_writer_with_cancel polls stream expected_plaintext =
      if is_cancelled polls
      then (err cancelled, [])
      else let (end, out) = decrypt_loop (suc (length stream)) (next_poll polls) stream 0 0 [] in
        (finish_decryption expected_plaintext end, out)
