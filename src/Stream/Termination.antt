-- ===== src/Stream/Termination.antt =====
-- The loops over frames end: the bound on their rounds, one more than the bytes of the stream, is
-- never reached, on any input.
use timelocked.Common.{
  ℕ, zero, suc, ◌+◌, ◌<◌, ◌≡◌, ◌≢◌, refl, Bool, true, false, Option, none, some, [], ◌∷◌, ◌++◌,
  arith, length, take, drop,
}
use timelocked.Common.Bytes.{Bytes}
use timelocked.Base.{Result, ok, err, out_of_fuel, Polls, is_cancelled, next_poll}
use timelocked.Base.Read.{read_exact, read_u8, read_u32, read_le, continue-inv}
use timelocked.Primitives.{Primitives}
use timelocked.ChunkFrame.{
  ChunkFrameHeader, read_chunk_frame, read_frame_body, read_exact_or_eof, validate_chunk_frame,
}
use timelocked.ChunkFrame.Validation.{read_chunk_frame-IsReadFrame}
use timelocked.Stream.Decrypt.{
  LoopEnd, validate_protected_stream_frame, open_chunk, open_frame, next_chunk, decrypt_loop,
  finish_stream, decrypt_protected_stream_to_writer_with_cancel,
}

read_frame_body-ne-fuel : (xs s : Bytes) → read_frame_body xs s ≢ err out_of_fuel
unfolding read_frame_body read_u8 read_u32 read_le read_exact
read_frame_body-ne-fuel xs [] h = cc
read_frame_body-ne-fuel xs (b ∷ s) h = ground arith

read_chunk_frame-ne-fuel : (s : Bytes) → read_chunk_frame s ≢ err out_of_fuel
unfolding read_chunk_frame read_exact_or_eof
read_chunk_frame-ne-fuel [] h = cc
read_chunk_frame-ne-fuel (b ∷ s) h =
    ground (arith, read_frame_body-ne-fuel (take 8 (b ∷ s)) (drop 8 (b ∷ s)))

finish_stream-ne-fuel : (end : LoopEnd) → finish_stream end ≢ err out_of_fuel
unfolding finish_stream
finish_stream-ne-fuel end h = ground (arith, read_chunk_frame-ne-fuel end.rest)

module _ (p : Primitives) (key digest : Bytes) (chunk_size : ℕ) where
  next_chunk-ne-fuel :
      (i : ℕ) (s : Bytes) → next_chunk p key digest chunk_size i s ≢ err out_of_fuel
  unfolding next_chunk open_chunk validate_protected_stream_frame validate_chunk_frame
  next_chunk-ne-fuel i s h = ground (arith, read_chunk_frame-ne-fuel s)

  -- A chunk takes at least its frame.
  pub next_chunk_shrinks :
      (i : ℕ) (s : Bytes) (q : Bool × Bytes) (rest : Bytes)
      → next_chunk p key digest chunk_size i s ≡ ok (some q, rest)
      → length rest < length s
  unfolding next_chunk
  next_chunk_shrinks i s q rest h =
      continue-inv (read_chunk_frame s) _ h λ o mid r e. step o mid r e
    where
      step :
          (o : Option (ChunkFrameHeader × Bytes)) (mid : Bytes)
          → read_chunk_frame s ≡ ok (o, mid)
          → open_frame p key digest chunk_size i o mid ≡ ok (some q, rest)
          → length rest < length s
      step none mid r e = absurd (ground arith)
      step (some (frame, c)) mid r e = ground (arith, read_chunk_frame-IsReadFrame s frame c mid r)

  decrypt_loop-ne-fuel :
      (fuel : ℕ) (polls : Polls) (s : Bytes) (i written : ℕ) (out : Bytes)
      → length s < fuel
      → (decrypt_loop p key digest chunk_size fuel polls s i written out).0 ≢ err out_of_fuel
  unfolding decrypt_loop
  decrypt_loop-ne-fuel zero polls s i written out hf h = absurd (omega arith)
  decrypt_loop-ne-fuel (suc fuel) polls s i written out hf h =
      step (is_cancelled polls) (next_chunk p key digest chunk_size i s) refl refl (λ rest c l.
        decrypt_loop-ne-fuel fuel (next_poll polls) rest (i + 1) (written + length c) (out ++ c) l)
    where
      step :
          (b : Bool) (r : Result (Option (Bool × Bytes) × Bytes))
          → is_cancelled polls ≡ b
          → next_chunk p key digest chunk_size i s ≡ r
          → ((rest c : Bytes)
              → length rest < fuel
              → (decrypt_loop p key digest chunk_size fuel
                  (next_poll polls)
                  rest
                  (i + 1)
                  (written + length c)
                  (out ++ c)).0
                ≢ err out_of_fuel)
          → ⊥
      step b (err e) hb hr ih = ground (arith, next_chunk-ne-fuel i s)
      step b (ok (none, rest)) hb hr ih = ground arith
      step b (ok (some (true, c), rest)) hb hr ih = ground arith
      step b (ok (some (false, c), rest)) hb hr ih =
          ground (arith, next_chunk_shrinks i s (false, c) rest, ih rest c)

  -- Decryption ends on every stream, well formed or not, under any cancellation: the bound on the
  -- rounds of its loop is never reached.
  pub decrypt_terminates :
      (polls : Polls) (stream : Bytes) (expected : ℕ)
      → (decrypt_protected_stream_to_writer_with_cancel p key digest chunk_size polls stream
          expected).0
        ≢ err out_of_fuel
  unfolding decrypt_protected_stream_to_writer_with_cancel
  decrypt_terminates polls stream expected h =
      step (is_cancelled polls)
        (decrypt_loop p key digest chunk_size (suc (length stream)) (next_poll polls) stream 0 0
          []).0
        refl refl
    where
      step :
          (b : Bool) (r : Result LoopEnd)
          → is_cancelled polls ≡ b
          → (decrypt_loop p key digest chunk_size
              (suc (length stream))
              (next_poll polls)
              stream
              0
              0
              []).0
            ≡ r
          → ⊥
      step b (err e) hb hr = ground (
        arith,
        decrypt_loop-ne-fuel (suc (length stream)) (next_poll polls) stream 0 0 [] (omega arith),
      )
      step b (ok end) hb hr = ground (arith, finish_stream-ne-fuel end)
