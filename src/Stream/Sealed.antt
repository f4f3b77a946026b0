-- ===== src/Stream/Sealed.antt =====
-- What `encrypt_protected_stream_with_cancel` writes, whatever the source returns at each read:
-- a frame for each chunk, where the chunks make up the plaintext.
use timelocked.Common.{
  ℕ, zero, suc, ◌+◌, ◌^◌, ◌≤◌, ◌<◌, ◌≡◌, refl, sym, ap, ◌∙◌, Bool, true, false, Option, none, some,
  List, [], ◌∷◌, ◌++◌, ◌==◌, arith, if◌then◌else◌, length, is_empty, length-append, append_assoc,
  All, flatten, Bool-cases, ◌⊎◌, inl, inr,
}
use mathlib.Core.Path.{subst}
use timelocked.Common.Bytes.{Bytes}
use timelocked.Base.{ok, Polls, is_cancelled, next_poll, bind-inv}
use timelocked.Primitives.{Primitives}
use timelocked.ChunkFrame.{write_chunk_frame}
use timelocked.ChunkFrame.RoundTrip.{frame_bytes}
use timelocked.Stream.Source.{Source, read, read_split, read-empty}
use timelocked.Stream.Encrypt.{
  ChunkEncryptionStats, stats_of, chunk_header, encrypt_chunk, write_sealed, seal_chunk,
  encrypt_loop, encrypt_from, encrypt_protected_stream_with_cancel,
}

module _ (p : Primitives) (key digest : Bytes) (nonces : ℕ → Bytes) (chunk_size : ℕ) where
  -- A frame of one chunk: its ciphertext, of a length that fits its field, and its bytes.
  abbrev pub IsSealed : ℕ → Bytes → Bool → Bytes → Type 0
  IsSealed index chunk is_last s =
      (c : Bytes) × (encrypt_chunk p key digest nonces chunk_size index chunk is_last ≡ some c)
      × (length c < 2 ^ 32)
      × (s ≡ frame_bytes (chunk_header p key digest nonces chunk_size index chunk is_last c) c)

  -- The frames of a list of chunks from an index on; the last chunk is marked.
  abbrev pub Sealed : ℕ → List Bytes → Bytes → Type 0
  Sealed index [] s = ⊥
  Sealed index (c ∷ []) s = IsSealed index c true s
  Sealed index (c ∷ d ∷ cs) s =
      (front : Bytes) × (back : Bytes) × (s ≡ front ++ back)
      × IsSealed index c false front
      × Sealed (index + 1) (d ∷ cs) back

  pub seal_chunk-IsSealed :
      (index : ℕ) (chunk : Bytes) (is_last : Bool) (s : Bytes)
      → seal_chunk p key digest nonces chunk_size index chunk is_last ≡ ok s
      → IsSealed index chunk is_last s
  unfolding seal_chunk
  seal_chunk-IsSealed index chunk is_last s h =
      by_cases (encrypt_chunk p key digest nonces chunk_size index chunk is_last) refl h
    where
      by_cases :
          (o : Option Bytes)
          → encrypt_chunk p key digest nonces chunk_size index chunk is_last ≡ o
          → write_sealed p key digest nonces chunk_size index chunk is_last o ≡ ok s
          → IsSealed index chunk is_last s
      by_cases none e h' = absurd (cc)
      by_cases (some c) e h' = (
        c,
        e,
        unfold write_chunk_frame in ground arith,
        unfold write_chunk_frame frame_bytes in ground arith,
      )

  abbrev pub IsChunk : Bytes → Type 0
  IsChunk c = (0 < length c) × (length c ≤ chunk_size)

  -- What a run of the loop wrote behind `out`.
  pub record LoopWrote (source : Source) (current : Bytes) (index written : ℕ) (out stream : Bytes)
      (stats : ChunkEncryptionStats) : Type 0 where
    pub chunks : List Bytes
    pub frames : Bytes
    pub sealed : Sealed index (current ∷ chunks) frames
    pub appended : stream ≡ out ++ frames
    pub whole : current ++ source.bytes ≡ flatten (current ∷ chunks)
    pub sized : All IsChunk chunks
    pub counted : stats.chunk_count ≡ index + length (current ∷ chunks)
    pub measured : stats.plaintext_bytes ≡ written + length (current ++ source.bytes)

  -- One round, given what the rounds after it write.
  round :
      (fuel : ℕ) (polls : Polls) (source : Source) (current : Bytes) (index written : ℕ)
      (out stream : Bytes) (stats : ChunkEncryptionStats) (next : Bytes) (source' : Source)
      (frame : Bytes)
      → 0 < chunk_size
      → read chunk_size source ≡ ok (next, source')
      → seal_chunk p key digest nonces chunk_size index current (is_empty next) ≡ ok frame
      → (if is_empty next
          then ok (out ++ frame, stats_of (index + 1) (written + length current))
          else encrypt_loop p key digest nonces chunk_size fuel polls source' next
              (index + 1)
              (written + length current)
              (out ++ frame))
        ≡ ok (stream, stats)
      → (encrypt_loop p key digest nonces chunk_size fuel polls source' next
              (index + 1)
              (written + length current)
              (out ++ frame)
            ≡ ok (stream, stats)
          → LoopWrote source' next
              (index + 1)
              (written + length current)
              (out ++ frame)
              stream
              stats)
      → LoopWrote source current index written out stream stats
  unfolding flatten
  round fuel polls source current index written out stream stats [] source' frame pos r s h ih =
      let (none_left, _) = read-empty chunk_size source source' pos r in
      record {
        chunks = [];
        frames = frame;
        sealed = seal_chunk-IsSealed index current true frame s;
        appended = cc;
        whole = cc;
        sized = tt;
        counted = ground arith;
        measured = ground (arith, length-append current source.bytes);
      }
  round fuel polls source current index written out stream stats (b ∷ bs) source' frame pos r s h
        ih =
      let rest = ih h in
      let (split, room) = read_split chunk_size source (b ∷ bs) source' r in
      record {
        chunks = (b ∷ bs) ∷ rest.chunks;
        frames = frame ++ rest.frames;
        sealed = (
          frame,
          rest.frames,
          refl,
          seal_chunk-IsSealed index current false frame s,
          rest.sealed,
        );
        appended = rest.appended ∙ append_assoc out frame rest.frames;
        whole = ap (λ t. current ++ t) (split ∙ rest.whole);
        sized = ((omega arith, room), rest.sized);
        counted = omega (arith, rest.counted);
        measured = omega (
          arith,
          rest.measured,
          length-append current source.bytes,
          ap (λ (t : Bytes). length t) split,
        );
      }

  pub encrypt_loop-LoopWrote :
      (fuel : ℕ) (polls : Polls) (source : Source) (current : Bytes) (index written : ℕ)
      (out stream : Bytes) (stats : ChunkEncryptionStats)
      → 0 < chunk_size
      → encrypt_loop p key digest nonces chunk_size fuel polls source current index written out
        ≡ ok (stream, stats)
      → LoopWrote source current index written out stream stats
  unfolding encrypt_loop
  encrypt_loop-LoopWrote zero polls source current index written out stream stats pos h =
      absurd (cc)
  encrypt_loop-LoopWrote (suc fuel) polls source current index written out stream stats pos h =
      elim (Bool-cases (is_cancelled polls)) [
        | inl stop ↦ absurd (cc (rw stop at h))
        | inr go ↦ bind-inv (read chunk_size source) _ (rw go at h) λ q r e1.
            bind-inv (seal_chunk p key digest nonces chunk_size index current (is_empty q.0)) _ e1
              λ frame s e2.
                round fuel (next_poll polls) source current index written out stream stats q.0 q.1
                  frame pos r s e2
                  (encrypt_loop-LoopWrote fuel (next_poll polls) q.1 q.0 (index + 1)
                    (written + length current) (out ++ frame) stream stats pos)
      ]

  -- What a successful encryption of a source wrote.
  pub record Encrypted (source : Source) (stream : Bytes) (stats : ChunkEncryptionStats)
      : Type 0 where
    pub first : Bytes
    pub chunks : List Bytes
    pub sealed : Sealed 0 (first ∷ chunks) stream
    pub whole : source.bytes ≡ flatten (first ∷ chunks)
    pub first_room : length first ≤ chunk_size
    pub first_last : (chunks ≡ []) ⊎ (0 < length first)
    pub sized : All IsChunk chunks
    pub counted : stats.chunk_count ≡ length (first ∷ chunks)
    pub measured : stats.plaintext_bytes ≡ length source.bytes

  encrypt_from-Encrypted :
      (polls : Polls) (source source' : Source) (current stream : Bytes)
      (stats : ChunkEncryptionStats)
      → 0 < chunk_size
      → read chunk_size source ≡ ok (current, source')
      → encrypt_from p key digest nonces chunk_size polls current source' ≡ ok (stream, stats)
      → Encrypted source stream stats
  unfolding flatten
  encrypt_from-Encrypted polls source source' [] stream stats pos r h =
      bind-inv (seal_chunk p key digest nonces chunk_size 0 [] true) _ h λ frame s e.
        let (none_left, _) = read-empty chunk_size source source' pos r in
        record {
          first = [];
          chunks = [];
          sealed = seal_chunk-IsSealed 0 [] true stream (cc);
          whole = none_left;
          first_room = omega arith;
          first_last = inl refl;
          sized = tt;
          counted = ground arith;
          measured = ground arith;
        }
  encrypt_from-Encrypted polls source source' (b ∷ bs) stream stats pos r h =
      let w =
        encrypt_loop-LoopWrote (suc (length source'.bytes)) polls source' (b ∷ bs) 0 0 [] stream
          stats pos h in
      let (split, room) = read_split chunk_size source (b ∷ bs) source' r in
      record {
        first = b ∷ bs;
        chunks = w.chunks;
        sealed = subst (λ t. Sealed 0 ((b ∷ bs) ∷ w.chunks) t) (sym w.appended) w.sealed;
        whole = split ∙ w.whole;
        first_room = room;
        first_last = inr (omega arith);
        sized = w.sized;
        counted = omega (arith, w.counted);
        measured = omega (arith, w.measured, ap (λ (t : Bytes). length t) split);
      }

  -- Whatever the source returns at each read, a successful encryption wrote the frames of chunks
  -- that make up the source's bytes in order: no chunk is longer than the buffer, none is empty but
  -- a sole one, the last one alone is marked, the indices count from 0, and the counts are those
  -- of the chunks and of the bytes.
  pub encrypt_protected_stream-Encrypted :
      (polls : Polls) (source : Source) (stream : Bytes) (stats : ChunkEncryptionStats)
      → encrypt_protected_stream_with_cancel p key digest nonces chunk_size polls source
        ≡ ok (stream, stats)
      → Encrypted source stream stats
  unfolding encrypt_protected_stream_with_cancel
  encrypt_protected_stream-Encrypted polls source stream stats h =
      elim (Bool-cases (chunk_size == 0)) [
        | inl z ↦ absurd (cc (rw z at h))
        | inr nz ↦ elim (Bool-cases (is_cancelled polls)) [
          | inl stop ↦ absurd (cc (rw (nz, stop) at h))
          | inr go ↦ bind-inv (read chunk_size source) _ (rw (nz, go) at h) λ q r e.
              encrypt_from-Encrypted (next_poll polls) source q.1 q.0 stream stats (ground arith) r
                e
        ]
      ]
