-- ===== src/Stream/Agreement.antt =====
-- The structural scan agrees with decryption, which `verify_timelocked_file_with_key` asserts.
use timelocked.Common.{
  ℕ, zero, suc, ◌+◌, ◌≡◌, refl, Bool, true, false, Option, none, some, [], ◌++◌, arith, length,
}
use timelocked.Common.Bytes.{Bytes}
use timelocked.Base.{Result, ok, err, Polls, is_cancelled, next_poll}
use timelocked.Base.Read.{continue-inv}
use timelocked.Primitives.{Primitives}
use timelocked.ChunkFrame.{ChunkFrameHeader, read_chunk_frame}
use timelocked.Stream.Decrypt.{
  ChunkDecryptionStats, LoopEnd, open_chunk, open_frame, next_chunk, decrypt_loop,
  decrypt_protected_stream_to_writer_with_cancel,
}
use timelocked.Stream.Scan.{next_frame, scan_loop, scan_protected_stream_structural}

module _ (p : Primitives) (key digest : Bytes) (chunk_size : ℕ) where
  abbrev stated : Option (Bool × Bytes) → Option (Bool × ℕ)
  stated none = none
  stated (some (is_last, chunk)) = some (is_last, length chunk)

  next_frame-next_chunk :
      (i : ℕ) (s : Bytes) (o : Option (Bool × Bytes)) (rest : Bytes)
      → next_chunk p key digest chunk_size i s ≡ ok (o, rest)
      → next_frame chunk_size i s ≡ ok (stated o, rest)
  unfolding next_chunk next_frame
  next_frame-next_chunk i s o rest h =
      continue-inv (read_chunk_frame s) _ h λ found mid r e. step found mid r e
    where
      step :
          (found : Option (ChunkFrameHeader × Bytes)) (mid : Bytes)
          → read_chunk_frame s ≡ ok (found, mid)
          → open_frame p key digest chunk_size i found mid ≡ ok (o, rest)
          → next_frame chunk_size i s ≡ ok (stated o, rest)
      step none mid r e = ground arith
      step (some (frame, c)) mid r e = unfold open_chunk in ground arith

  scan_loop-decrypt_loop :
      (fuel : ℕ) (polls : Polls) (s : Bytes) (i written : ℕ) (out out' : Bytes) (end : LoopEnd)
      → decrypt_loop p key digest chunk_size fuel polls s i written out ≡ (ok end, out')
      → scan_loop chunk_size fuel s i written ≡ ok end
  unfolding decrypt_loop scan_loop
  scan_loop-decrypt_loop zero polls s i written out out' end h = absurd (cc)
  scan_loop-decrypt_loop (suc fuel) polls s i written out out' end h =
      step (is_cancelled polls) (next_chunk p key digest chunk_size i s) refl refl (λ rest c e.
        scan_loop-decrypt_loop fuel (next_poll polls) rest (i + 1) (written + length c) (out ++ c)
          out' end e)
    where
      step :
          (b : Bool) (r : Result (Option (Bool × Bytes) × Bytes))
          → is_cancelled polls ≡ b
          → next_chunk p key digest chunk_size i s ≡ r
          → ((rest c : Bytes)
              → decrypt_loop p key digest chunk_size fuel
                  (next_poll polls)
                  rest
                  (i + 1)
                  (written + length c)
                  (out ++ c)
                ≡ (ok end, out')
              → scan_loop chunk_size fuel rest (i + 1) (written + length c) ≡ ok end)
          → scan_loop chunk_size (suc fuel) s i written ≡ ok end
      step b (err e) hb hr ih = ground arith
      step b (ok (none, rest)) hb hr ih = ground (arith, next_frame-next_chunk i s none rest)
      step b (ok (some (true, c), rest)) hb hr ih =
          ground (arith, next_frame-next_chunk i s (some (true, c)) rest)
      step b (ok (some (false, c), rest)) hb hr ih =
          ground (arith, next_frame-next_chunk i s (some (false, c)) rest, ih rest c)

  -- On a stream that decrypts, under whatever key, the structural scan succeeds with the same
  -- counts.
  pub scan-decrypt :
      (polls : Polls) (stream : Bytes) (expected : ℕ) (stats : ChunkDecryptionStats) (out : Bytes)
      → decrypt_protected_stream_to_writer_with_cancel p key digest chunk_size polls stream expected
        ≡ (ok stats, out)
      → scan_protected_stream_structural chunk_size stream ≡ ok stats
  unfolding decrypt_protected_stream_to_writer_with_cancel scan_protected_stream_structural
  scan-decrypt polls stream expected stats out h =
      step (is_cancelled polls)
        (decrypt_loop p key digest chunk_size (suc (length stream)) (next_poll polls) stream 0 0 [])
        refl refl
    where
      step :
          (b : Bool) (r : Result LoopEnd × Bytes)
          → is_cancelled polls ≡ b
          → decrypt_loop p key digest chunk_size
              (suc (length stream))
              (next_poll polls)
              stream
              0
              0
              []
            ≡ r
          → scan_protected_stream_structural chunk_size stream ≡ ok stats
      step b (err e, o) hb hr = ground arith
      step b (ok end, o) hb hr = ground (
        arith,
        scan_loop-decrypt_loop (suc (length stream)) (next_poll polls) stream 0 0 [] o end hr,
      )
