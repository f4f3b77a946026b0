-- ===== src/Stream/Totality.antt =====
-- A source that fills every buffer, and no cancellation: the encryption succeeds.
use timelocked.Common.{
  ℕ, zero, suc, ◌+◌, ◌-◌, ◌/◌, ◌%◌, ◌^◌, ◌≤◌, ◌<◌, ◌≡◌, refl, ap, inl, inr, Bool, true, false, some,
  [], ◌∷◌, ◌++◌, ◌==◌, eq→==, ltb, if◌then◌else◌, Bool-cases, is_empty, length, take, drop,
  length-take, length-drop, arith,
}
use native.Mathlib.Nat.{div-eq_of_lt, mod-eq_of_lt, div-eq-sub-div, mod-eq-sub-mod}
use timelocked.Common.Bytes.{Bytes}
use timelocked.Base.{ok, is_cancelled, next_poll}
use timelocked.Primitives.{Primitives}
use timelocked.Primitives.Laws.{IsAead}
use timelocked.ChunkFrame.RoundTrip.{frame_bytes}
use timelocked.ChunkFrame.{write_chunk_frame, build_chunk_aad}
use timelocked.Region.Layout.{div_ceil}
use timelocked.Stream.Source.{Source, read}
use timelocked.Stream.Encrypt.{
  ChunkEncryptionStats, stats_of, chunk_header, encrypt_chunk, seal_chunk, encrypt_loop,
  encrypt_protected_stream_with_cancel,
}

-- A source that fills every buffer as far as its bytes go.
abbrev pub calm : Bytes → Source
calm bytes = record { bytes = bytes; grants = [] }

module _ (p : Primitives) (aead : IsAead p) (key digest : Bytes) (nonces : ℕ → Bytes)
    (chunk_size : ℕ) (positive : 0 < chunk_size) (room : chunk_size + 16 < 2 ^ 32) where
  seal_chunk-frame :
      (index : ℕ) (chunk : Bytes) (is_last : Bool) (c : Bytes)
      → encrypt_chunk p key digest nonces chunk_size index chunk is_last ≡ some c
      → length c < 2 ^ 32
      → seal_chunk p key digest nonces chunk_size index chunk is_last
        ≡ ok (frame_bytes (chunk_header p key digest nonces chunk_size index chunk is_last c) c)
  unfolding seal_chunk write_chunk_frame frame_bytes
  seal_chunk-frame index chunk is_last c sealed small =
      let same : (length c % 2 ^ 32 == length c) ≡ true = eq→== _ _ (omega arith) in
      rw (sealed, same) refl

  seal_chunk-ok :
      (index : ℕ) (chunk : Bytes) (is_last : Bool)
      → length chunk ≤ chunk_size
      → (frame : Bytes) × (seal_chunk p key digest nonces chunk_size index chunk is_last ≡ ok frame)
  seal_chunk-ok index chunk is_last fits =
      let aad = build_chunk_aad digest index (length chunk % 2 ^ 32) is_last in
      let (c, sealed) = aead.seals key (nonces index) aad chunk (omega arith) in
      let sized = aead.tagged key (nonces index) aad chunk c sealed in
      (_, seal_chunk-frame index chunk is_last c sealed (omega arith))

  read-calm :
      (bytes : Bytes)
      → read chunk_size (calm bytes) ≡ ok (take chunk_size bytes, calm (drop chunk_size bytes))
  unfolding read
  read-calm bytes = refl

  -- One chunk fewer behind a full one.
  div_ceil-suc : (n : ℕ) → 0 < n → div_ceil n chunk_size ≡ 1 + div_ceil (n - chunk_size) chunk_size
  div_ceil-suc n some_left = elim (Bool-cases (ltb n chunk_size)) [
    | inl short ↦
        let lt : n < chunk_size = ground arith in
        let none_left : n - chunk_size ≡ 0 = omega arith in
        let q : n / chunk_size ≡ 0 = div-eq_of_lt lt in
        let r : n % chunk_size ≡ n = mod-eq_of_lt lt in
        let q0 : 0 / chunk_size ≡ 0 = div-eq_of_lt positive in
        let r0 : 0 % chunk_size ≡ 0 = mod-eq_of_lt positive in
        rw (none_left, q, r, q0, r0) (ground arith)
    | inr long ↦
        let le : chunk_size ≤ n = ground arith in
        let q : n / chunk_size ≡ (n - chunk_size) / chunk_size + 1 = div-eq-sub-div positive le in
        let r : n % chunk_size ≡ (n - chunk_size) % chunk_size = mod-eq-sub-mod le in
        rw (q, r) (both ((n - chunk_size) % chunk_size == 0) ((n - chunk_size) / chunk_size))
  ]
    where
      both : (b : Bool) (q : ℕ) → (if b then q + 1 else q + 1 + 1) ≡ 1 + (if b then q else q + 1)
      both true q = omega arith
      both false q = omega arith

  is_empty-take : (bytes : Bytes) → is_empty (take chunk_size bytes) ≡ is_empty bytes
  is_empty-take bytes = front chunk_size bytes positive
    where
      front : (n : ℕ) (bytes : Bytes) → 0 < n → is_empty (take n bytes) ≡ is_empty bytes
      front zero bytes h = absurd (omega arith)
      front (suc n) [] h = refl
      front (suc n) (b ∷ bytes) h = refl

  encrypt_loop-ok :
      (fuel : ℕ) (rest current : Bytes) (index written : ℕ) (out : Bytes)
      → length rest < fuel
      → length current ≤ chunk_size
      → (stream : Bytes) × (stats : ChunkEncryptionStats) × (encrypt_loop p key digest nonces
            chunk_size fuel []
            (calm rest)
            current
            index
            written
            out
          ≡ ok (stream, stats))
        × (stats.chunk_count ≡ index + 1 + div_ceil (length rest) chunk_size)
  unfolding encrypt_loop is_cancelled next_poll
  encrypt_loop-ok zero rest current index written out enough fits = absurd (omega arith)
  encrypt_loop-ok (suc fuel) [] current index written out enough fits =
      let (frame, sealed) = seal_chunk-ok index current true fits in
      let nothing : is_empty (take chunk_size []) ≡ true = is_empty-take [] in
      let q0 : 0 / chunk_size ≡ 0 = div-eq_of_lt positive in
      let r0 : 0 % chunk_size ≡ 0 = mod-eq_of_lt positive in
      (
        out ++ frame,
        stats_of (index + 1) (written + length current),
        rw (read-calm [], nothing, sealed) refl,
        rw (q0, r0) (ground arith),
      )
  encrypt_loop-ok (suc fuel) (b ∷ rest) current index written out enough fits =
      let bytes : Bytes = b ∷ rest in
      let (frame, sealed) = seal_chunk-ok index current false fits in
      let something : is_empty (take chunk_size bytes) ≡ false = is_empty-take bytes in
      let (stream, stats, made, counted) =
        encrypt_loop-ok fuel (drop chunk_size bytes) (take chunk_size bytes) (index + 1)
          (written + length current) (out ++ frame) (omega (arith, length-drop chunk_size bytes))
          (omega (arith, length-take chunk_size bytes)) in
      (
        stream,
        stats,
        rw (read-calm bytes, something, sealed) made,
        omega (
          arith,
          div_ceil-suc (length bytes) (omega arith),
          ap (λ n. div_ceil n chunk_size) (length-drop chunk_size bytes),
        ),
      )

  -- Without cancellation, from a source that fills every buffer, the encryption succeeds: the AEAD
  -- seals, and the chunk size is positive and leaves room for the tag in 32 bits. It makes one chunk
  -- for each started chunk size of the plaintext, and one for an empty plaintext.
  pub encrypt_protected_stream-ok :
      (bytes : Bytes)
      → (stream : Bytes) × (stats : ChunkEncryptionStats) × (encrypt_protected_stream_with_cancel p
            key digest nonces chunk_size []
            (calm bytes)
          ≡ ok (stream, stats))
        × (stats.chunk_count
            ≡ (if length bytes == 0 then 1 else div_ceil (length bytes) chunk_size))
  unfolding encrypt_protected_stream_with_cancel is_cancelled next_poll
  encrypt_protected_stream-ok [] =
      let some_size : (chunk_size == 0) ≡ false = ground arith in
      let nothing : is_empty (take chunk_size []) ≡ true = is_empty-take [] in
      let (frame, sealed) = seal_chunk-ok 0 [] true (omega arith) in
      (frame, stats_of 1 0, rw (some_size, read-calm [], nothing, sealed) refl, refl)
  encrypt_protected_stream-ok (b ∷ rest) =
      let bytes : Bytes = b ∷ rest in
      let some_size : (chunk_size == 0) ≡ false = ground arith in
      let something : is_empty (take chunk_size bytes) ≡ false = is_empty-take bytes in
      let (stream, stats, made, counted) =
        encrypt_loop-ok (suc (length (drop chunk_size bytes))) (drop chunk_size bytes)
          (take chunk_size bytes) 0 0 [] (omega arith)
          (omega (arith, length-take chunk_size bytes)) in
      let some_bytes : (length bytes == 0) ≡ false = ground arith in
      (
        stream,
        stats,
        rw (some_size, read-calm bytes, something) made,
        rw some_bytes (
            omega (
              arith,
              counted,
              div_ceil-suc (length bytes) (omega arith),
              ap (λ n. div_ceil n chunk_size) (length-drop chunk_size bytes),
            )),
      )
