-- ===== src/Stream/Scan.antt =====
-- `scan_protected_stream_structural`: the frames without the key.
use timelocked.Common.{
  ℕ, zero, suc, ◌+◌, Bool, true, false, Option, none, some, ◌==◌, if◌then◌else◌, length,
}
use timelocked.Common.Bytes.{Bytes}
use timelocked.Base.{Result, ok, err, invalid_format, out_of_fuel, text}
use timelocked.Base as B
use timelocked.Base.Read.{Parser, pure, lift, ◌>>=◌, ◌>>◌}
use timelocked.ChunkFrame.{ChunkFrameHeader, read_chunk_frame}
use timelocked.Stream.Decrypt.{
  ChunkDecryptionStats, LoopEnd, validate_protected_stream_frame, finish_stream,
}

module _ (chunk_size : ℕ) where
  abbrev pub check_frame : ℕ → Option (ChunkFrameHeader × Bytes) → Parser (Option (Bool × ℕ))
  check_frame expected_index none =
      if expected_index == 0
      then lift (err (invalid_format (text "missing chunk frames")))
      else pure none
  check_frame expected_index (some (frame, ciphertext)) = do
    lift (validate_protected_stream_frame frame (length ciphertext) chunk_size expected_index)
    pure (some (frame.is_last, frame.plaintext_len))

  -- The next chunk's terminal marker and stated plaintext length, or the end of the frames.
  unfoldable pub next_frame : ℕ → Parser (Option (Bool × ℕ))
  next_frame expected_index = do maybe ← read_chunk_frame; check_frame expected_index maybe

  unfoldable pub scan_loop : ℕ → Bytes → ℕ → ℕ → Result LoopEnd
  scan_loop zero stream expected_index plaintext_bytes = err out_of_fuel
  scan_loop (suc fuel) stream expected_index plaintext_bytes =
      elim (next_frame expected_index stream) [
        | err e ↦ err e
        | ok (none, rest) ↦ ok (record {
          expected_index = expected_index;
          plaintext_written = plaintext_bytes;
          saw_last = false;
          rest = rest;
        })
        | ok (some (true, len), rest) ↦ ok (record {
          expected_index = expected_index + 1;
          plaintext_written = plaintext_bytes + len;
          saw_last = true;
          rest = rest;
        })
        | ok (some (false, len), rest) ↦
            scan_loop fuel rest (expected_index + 1) (plaintext_bytes + len)
      ]

  abbrev pub finish_scan : Result LoopEnd → Result ChunkDecryptionStats
  finish_scan (err e) = err e
  finish_scan (ok end) =
      B.◌>>◌ (finish_stream end)
        (ok (record { chunk_count = end.expected_index; plaintext_bytes = end.plaintext_written }))

  unfoldable pub scan_protected_stream_structural : Bytes → Result ChunkDecryptionStats
  scan_protected_stream_structural stream = finish_scan (scan_loop (suc (length stream)) stream 0 0)
