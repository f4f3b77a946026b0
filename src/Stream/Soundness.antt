-- ===== src/Stream/Soundness.antt =====
-- What decryption releases, from any bytes: the chunks that the AEAD opened, each bound to the
-- digest, its position, its length and its terminal marker.
use timelocked.Common.{
  ℕ, zero, suc, ◌+◌, ◌≤◌, ◌<◌, ◌≡◌, refl, ◌∙◌, Bool, true, false, Option, none, some, List, [], ◌∷◌,
  ◌++◌, arith, length, length-append, append-nil, append_assoc, flatten,
}
use mathlib.Core.Path.{subst}
use timelocked.Common.Bytes.{Bytes}
use timelocked.Base.{Result, ok, err, Polls, is_cancelled, next_poll}
use timelocked.Base.Read.{continue-inv}
use timelocked.Primitives.{Primitives}
use timelocked.ChunkFrame.{
  ChunkFrameHeader, read_chunk_frame, validate_chunk_frame, build_chunk_aad,
}
use timelocked.ChunkFrame.Validation.{read_chunk_frame-none}
use timelocked.Stream.Decrypt.{
  ChunkDecryptionStats, LoopEnd, validate_protected_stream_frame, open_chunk, open_frame,
  next_chunk, decrypt_loop, finish_stream, expect_end,
  decrypt_protected_stream_to_writer_with_cancel,
}

expect_end-empty :
    (s : Bytes) (r : Result (Option (ChunkFrameHeader × Bytes) × Bytes))
    → read_chunk_frame s ≡ r
    → expect_end r ≡ ok tt
    → s ≡ []
expect_end-empty s (err e) hr h = absurd (cc)
expect_end-empty s (ok (some frame, rest)) hr h = absurd (cc)
expect_end-empty s (ok (none, rest)) hr h = (read_chunk_frame-none s rest hr).0

-- The checks after the loop pass only at the end of a stream whose terminal chunk was seen.
finish_stream-ok :
    (end : LoopEnd) (u : Unit {0})
    → finish_stream end ≡ ok u
    → (end.saw_last ≡ true) × (end.rest ≡ [])
unfolding finish_stream
finish_stream-ok end u h =
    let seen : end.saw_last ≡ true = ground arith in
    (seen, expect_end-empty end.rest (read_chunk_frame end.rest) refl (rw seen at h))

module _ (p : Primitives) (key digest : Bytes) (chunk_size : ℕ) where
  -- The stream begins with a frame that opens to the chunk, bound to its place.
  pub record Opens (index : ℕ) (is_last : Bool) (chunk s rest : Bytes) : Type 0 where
    pub frame : ChunkFrameHeader
    pub ciphertext : Bytes
    pub read : read_chunk_frame s ≡ ok (some (frame, ciphertext), rest)
    pub room : length chunk ≤ chunk_size
    pub opened :
        p.aead_decrypt key frame.nonce
          (build_chunk_aad digest index (length chunk) is_last)
          ciphertext
        ≡ some chunk

  -- The whole stream is the frames of these chunks, from an index on: only the last is marked, only
  -- the last may be empty, and nothing follows it.
  abbrev pub Opened : ℕ → List Bytes → Bytes → Bytes → Type 0
  Opened index [] s rest = ⊥
  Opened index (c ∷ []) s rest = Opens index true c s rest
  Opened index (c ∷ d ∷ cs) s rest =
      (mid : Bytes) × Opens index false c s mid
      × (0 < length c)
      × Opened (index + 1) (d ∷ cs) mid rest

  next_chunk-Opens :
      (i : ℕ) (s : Bytes) (is_last : Bool) (c rest : Bytes)
      → next_chunk p key digest chunk_size i s ≡ ok (some (is_last, c), rest)
      → Opens i is_last c s rest × ((is_last ≡ false) → 0 < length c)
  unfolding next_chunk
  next_chunk-Opens i s is_last c rest h =
      continue-inv (read_chunk_frame s) _ h λ o mid r e. step o mid r e
    where
      step :
          (o : Option (ChunkFrameHeader × Bytes)) (mid : Bytes)
          → read_chunk_frame s ≡ ok (o, mid)
          → open_frame p key digest chunk_size i o mid ≡ ok (some (is_last, c), rest)
          → Opens i is_last c s rest × ((is_last ≡ false) → 0 < length c)
      step none mid r e = absurd (ground arith)
      step (some (frame, ct)) mid r e = (
        record {
          frame = frame;
          ciphertext = ct;
          read = ground arith;
          room =
              unfold open_chunk validate_protected_stream_frame validate_chunk_frame in
              ground arith;
          opened =
              unfold open_chunk validate_protected_stream_frame validate_chunk_frame in
              ground arith;
        },
        λ m. unfold open_chunk validate_protected_stream_frame validate_chunk_frame in ground arith,
      )

  -- What a loop that saw the terminal chunk released.
  pub record LoopReleased (index written : ℕ) (out s out' : Bytes) (end : LoopEnd) : Type 0 where
    pub first : Bytes
    pub chunks : List Bytes
    pub opened : Opened index (first ∷ chunks) s end.rest
    pub released : out' ≡ out ++ flatten (first ∷ chunks)
    pub counted : end.expected_index ≡ index + length (first ∷ chunks)
    pub measured : end.plaintext_written ≡ written + length (flatten (first ∷ chunks))

  decrypt_loop-LoopReleased :
      (fuel : ℕ) (polls : Polls) (s : Bytes) (i written : ℕ) (out out' : Bytes) (end : LoopEnd)
      → decrypt_loop p key digest chunk_size fuel polls s i written out ≡ (ok end, out')
      → end.saw_last ≡ true
      → LoopReleased i written out s out' end
  unfolding decrypt_loop flatten
  decrypt_loop-LoopReleased zero polls s i written out out' end h seen = absurd (cc)
  decrypt_loop-LoopReleased (suc fuel) polls s i written out out' end h seen =
      step (is_cancelled polls) (next_chunk p key digest chunk_size i s) refl refl (λ rest c e.
        decrypt_loop-LoopReleased fuel (next_poll polls) rest (i + 1) (written + length c)
          (out ++ c) out' end e seen)
    where
      step :
          (b : Bool) (r : Result (Option (Bool × Bytes) × Bytes))
          → is_cancelled polls ≡ b
          → next_chunk p key digest chunk_size i s ≡ r
          → ((rest c : Bytes)
              → decrypt_loop p key digest chunk_size fuel
                  (next_poll polls)
                  rest
                  (i + 1)
                  (written + length c)
                  (out ++ c)
                ≡ (ok end, out')
              → LoopReleased (i + 1) (written + length c) (out ++ c) rest out' end)
          → LoopReleased i written out s out' end
      step true r hb hr ih = absurd (ground arith)
      step false (err e) hb hr ih = absurd (ground arith)
      step false (ok (none, rest)) hb hr ih = absurd (ground arith)
      step false (ok (some (true, c), rest)) hb hr ih =
          let here : end.rest ≡ rest = ground arith in
          record {
            first = c;
            chunks = [];
            opened = rw here (next_chunk-Opens i s true c rest hr).0;
            released = ground (arith, append-nil c);
            counted = ground arith;
            measured = ground (arith, append-nil c);
          }
      step false (ok (some (false, c), rest)) hb hr ih =
          let later = ih rest c (ground arith) in
          let (opens, full) = next_chunk-Opens i s false c rest hr in
          record {
            first = c;
            chunks = later.first ∷ later.chunks;
            opened = (rest, opens, full refl, later.opened);
            released = later.released ∙ append_assoc out c (flatten (later.first ∷ later.chunks));
            counted = omega (arith, later.counted);
            measured =
                omega
                  (arith, later.measured, length-append c (flatten (later.first ∷ later.chunks)));
          }

  -- What a successful decryption released.
  pub record Released (stream : Bytes) (expected : ℕ) (stats : ChunkDecryptionStats) (out : Bytes)
      : Type 0 where
    pub chunks : List Bytes
    pub opened : Opened 0 chunks stream []
    pub released : out ≡ flatten chunks
    pub counted : stats.chunk_count ≡ length chunks
    pub measured : stats.plaintext_bytes ≡ length out
    pub whole : length out ≡ expected

  -- Whatever the bytes of the stream, a successful decryption released the plaintexts of chunks
  -- that the AEAD opened: the stream is exactly their frames with nothing behind them, each chunk
  -- was opened with associated data that names the digest, its position from 0, its length and
  -- whether it is the last, no chunk but the last is empty, none is longer than the chunk size, and
  -- the counts and the expected size are those of what was released.
  pub decrypt-Released :
      (polls : Polls) (stream : Bytes) (expected : ℕ) (stats : ChunkDecryptionStats) (out : Bytes)
      → decrypt_protected_stream_to_writer_with_cancel p key digest chunk_size polls stream expected
        ≡ (ok stats, out)
      → Released stream expected stats out
  unfolding decrypt_protected_stream_to_writer_with_cancel
  decrypt-Released polls stream expected stats out h =
      step (is_cancelled polls)
        (decrypt_loop p key digest chunk_size (suc (length stream)) (next_poll polls) stream 0 0 [])
        refl refl
    where
      step :
          (b : Bool) (r : Result LoopEnd × Bytes)
          → is_cancelled polls ≡ b
          → decrypt_loop p key digest chunk_size
              (suc (length stream))
              (next_poll polls)
              stream
              0
              0
              []
            ≡ r
          → Released stream expected stats out
      step true r hb hr = absurd (ground arith)
      step false (err e, o) hb hr = absurd (ground arith)
      step false (ok end, o) hb hr =
          let (seen, empty) = finish_stream-ok end tt (ground arith) in
          let w =
            decrypt_loop-LoopReleased (suc (length stream)) (next_poll polls) stream 0 0 [] o end hr
              seen in
          record {
            chunks = w.first ∷ w.chunks;
            opened = subst (λ t. Opened 0 (w.first ∷ w.chunks) stream t) empty w.opened;
            released = ground (arith, w.released);
            counted = ground (arith, w.counted);
            measured = ground (arith, w.measured, w.released);
            whole = ground (arith, w.measured, w.released);
          }
