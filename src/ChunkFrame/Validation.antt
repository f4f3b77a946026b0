-- ===== src/ChunkFrame/Validation.antt =====
-- What `read_chunk_frame` and `validate_chunk_frame` guarantee of a frame from untrusted bytes.
use timelocked.Common.{
  ℕ, ◌+◌, ◌^◌, ◌≤◌, ◌<◌, ◌≡◌, refl, sym, ◌⊎◌, inl, inr, Bool-cases, ◌∙◌, not, ◌==◌, Bool, true,
  false, Option, none, some, [], ◌∷◌, ◌++◌, arith, ltb, length, ap, length-append, take-append-drop,
  length-take,
}
use timelocked.Common.Bytes.{Bytes, IsBytes, IsByte, from_le-lt, All-split, from_le}
use mathlib.Core.Path.{subst}
use timelocked.Base.{ok}
use timelocked.Base.Read.{
  lift, read_exact-split, read_u8, read_u32, read_exact, read_le, continue-inv, read_u8-ReadsTo,
  read_le-ReadsTo, read_exact-ReadsTo,
}
use timelocked.Base.{Error, reject_if}
use timelocked.ChunkFrame.{
  ChunkFrameHeader, read_chunk_frame, read_frame_body, read_exact_or_eof, validate_chunk_frame,
  read_frame_after,
}

-- What a frame that was read and validated at an index is.
pub record IsValidFrame (h : ChunkFrameHeader) (ct_len chunk_size index : ℕ) : Type 0 where
  pub at_index : h.index ≡ index
  pub fits : h.plaintext_len ≤ chunk_size
  pub tagged : ct_len ≡ h.plaintext_len + 16
  pub stated : h.ciphertext_len ≡ ct_len

-- `validate_chunk_frame` accepts a frame whose ciphertext has the stated length of at least 16
-- bytes, at 32-bit field widths, exactly when its index is the expected one, its plaintext length
-- is within the chunk size and its ciphertext is exactly one tag longer: the wrap-around of the
-- 32-bit sum never lets a frame pass.
pub validate_chunk_frame_iff :
    (h : ChunkFrameHeader) (ct_len chunk_size index : ℕ)
    → h.plaintext_len < 2 ^ 32
    → h.ciphertext_len < 2 ^ 32
    → 16 ≤ h.ciphertext_len
    → ct_len ≡ h.ciphertext_len
    → (validate_chunk_frame h ct_len chunk_size index ≡ ok tt
        → IsValidFrame h ct_len chunk_size index)
      × (IsValidFrame h ct_len chunk_size index
          → validate_chunk_frame h ct_len chunk_size index ≡ ok tt)
unfolding validate_chunk_frame
validate_chunk_frame_iff h ct_len chunk_size index pl cl tag stated =
    (λ e. ground arith, λ v. ground arith)

-- What is known of a frame that `read_chunk_frame` returned: the bytes it took are those of its
-- fields in their order, and each field is the number that its bytes make.
pub record IsReadFrame (s : Bytes) (h : ChunkFrameHeader) (c rest : Bytes) : Type 0 where
  pub index_bytes : Bytes
  pub last_byte : ℕ
  pub plaintext_len_bytes : Bytes
  pub ciphertext_len_bytes : Bytes
  pub whole :
      s
      ≡ index_bytes
        ++ (last_byte ∷ (plaintext_len_bytes ++ (ciphertext_len_bytes ++ (h.nonce ++ (c ++ rest)))))
  pub index_width : length index_bytes ≡ 8
  pub plaintext_len_width : length plaintext_len_bytes ≡ 4
  pub ciphertext_len_width : length ciphertext_len_bytes ≡ 4
  pub nonce_width : length h.nonce ≡ 24
  pub index : h.index ≡ from_le index_bytes
  pub is_last : ((h.is_last ≡ false) × (last_byte ≡ 0)) ⊎ ((h.is_last ≡ true) × (0 < last_byte))
  pub plaintext_len : h.plaintext_len ≡ from_le plaintext_len_bytes
  pub ciphertext_len : h.ciphertext_len ≡ from_le ciphertext_len_bytes
  pub shorter : length s ≡ 41 + length c + length rest
  pub stated : h.ciphertext_len ≡ length c
  pub tagged : 16 ≤ h.ciphertext_len
  pub widths :
      IsBytes s
      → (h.plaintext_len < 2 ^ 32) × (h.ciphertext_len < 2 ^ 32) × (h.index < 2 ^ 64) × IsBytes rest

lift-reject_if :
    (b : Bool) (e : Error) (s t : Bytes) (u : Unit {0})
    → lift (reject_if b e) s ≡ ok (u, t)
    → (b ≡ false) × (s ≡ t)
lift-reject_if true e s t u h = cc
lift-reject_if false e s t u h = (refl, cc)

-- The bytes of a number that was read.
read_le-split :
    (w : ℕ) (s : Bytes) (n : ℕ) (rest : Bytes)
    → read_le w s ≡ ok (n, rest)
    → (xs : Bytes) × (s ≡ xs ++ rest) × (length xs ≡ w) × (n ≡ from_le xs)
unfolding read_le
read_le-split w s n rest h = continue-inv (read_exact w s) _ h λ xs mid r e.
    let (same, size) = read_exact-split w s xs mid r in
    let left : mid ≡ rest = cc in
    let value : n ≡ from_le xs = cc in (xs, subst (λ t. s ≡ xs ++ t) left same, size, value)

read_u8-split : (s : Bytes) (n : ℕ) (rest : Bytes) → read_u8 s ≡ ok (n, rest) → s ≡ n ∷ rest
unfolding read_u8
read_u8-split [] n rest h = cc
read_u8-split (b ∷ s) n rest h = cc

abbrev Body : Bytes → Bytes → ChunkFrameHeader → Bytes → Bytes → Type 0
Body index_bytes s h c rest =
    (last : ℕ) × (pl cl : Bytes) × (s ≡ last ∷ (pl ++ (cl ++ (h.nonce ++ (c ++ rest)))))
    × (length pl ≡ 4)
    × (length cl ≡ 4)
    × (length h.nonce ≡ 24)
    × (h.is_last ≡ not (last == 0))
    × (h.plaintext_len ≡ from_le pl)
    × (h.ciphertext_len ≡ from_le cl)

read_frame_body-Body :
    (index_bytes s : Bytes) (h : ChunkFrameHeader) (c rest : Bytes)
    → read_frame_body index_bytes s ≡ ok (some (h, c), rest)
    → Body index_bytes s h c rest
unfolding read_frame_body read_u32
read_frame_body-Body index_bytes s h c rest e = continue-inv (read_u8 s) _ e λ last s1 r1 e1.
    continue-inv (read_le 4 s1) _ e1 λ pl s2 r2 e2. continue-inv (read_le 4 s2) _ e2 λ cl s3 r3 e3.
      continue-inv (lift (reject_if (ltb cl 16) _) s3) _ e3 λ u s4 r4 e4.
        continue-inv (read_exact 24 s4) _ e4 λ nonce s5 r5 e5.
          continue-inv (read_exact cl s5) _ e5 λ ct s6 r6 e6.
            let (pb, s1_eq, pb_width, pl_eq) = read_le-split 4 s1 pl s2 r2 in
            let (cb, s2_eq, cb_width, cl_eq) = read_le-split 4 s2 cl s3 r3 in
            let (tagged, s3_eq) = lift-reject_if (ltb cl 16) _ s3 s4 u r4 in
            let (s4_eq, nonce_width) = read_exact-split 24 s4 nonce s5 r5 in
            let (s5_eq, ct_width) = read_exact-split cl s5 ct s6 r6 in
            let nonce_eq : nonce ≡ h.nonce = cc in
            let ct_eq : ct ≡ c = cc in
            let rest_eq : s6 ≡ rest = cc in
            let last_eq : not (last == 0) ≡ h.is_last = cc in
            let pl_is : pl ≡ h.plaintext_len = cc in
            let cl_is : cl ≡ h.ciphertext_len = cc in
            (
              last,
              pb,
              cb,
              rw
                  (
                    read_u8-split s last s1 r1,
                    s1_eq,
                    s2_eq,
                    s3_eq,
                    s4_eq,
                    s5_eq,
                    nonce_eq,
                    ct_eq,
                    rest_eq,
                  )
                  refl,
              pb_width,
              cb_width,
              subst (λ n. length n ≡ 24) nonce_eq nonce_width,
              sym last_eq,
              sym pl_is ∙ pl_eq,
              sym cl_is ∙ cl_eq,
            )

read_frame_body_inv :
    (index_bytes s : Bytes) (h : ChunkFrameHeader) (c rest : Bytes)
    → read_frame_body index_bytes s ≡ ok (some (h, c), rest)
    → (length s ≡ 33 + length c + length rest)
      × (h.ciphertext_len ≡ length c)
      × (16 ≤ h.ciphertext_len)
      × (h.index ≡ from_le index_bytes)
      × (IsBytes s → (h.plaintext_len < 2 ^ 32) × (h.ciphertext_len < 2 ^ 32) × IsBytes rest)
unfolding read_frame_body read_u32
read_frame_body_inv index_bytes s h c rest e = continue-inv (read_u8 s) _ e λ last_byte s1 r1 e1.
    continue-inv (read_le 4 s1) _ e1 λ pl s2 r2 e2. continue-inv (read_le 4 s2) _ e2 λ cl s3 r3 e3.
      continue-inv (lift (reject_if (ltb cl 16) _) s3) _ e3 λ u s4 r4 e4.
        continue-inv (read_exact 24 s4) _ e4 λ nonce s5 r5 e5.
          continue-inv (read_exact cl s5) _ e5 λ ct s6 r6 e6. ground (
            arith,
            lift-reject_if (ltb cl 16) _ s3 s4 u r4,
            read_exact-split cl s5 ct s6 r6,
            read_u8-ReadsTo s last_byte s1 r1,
            read_le-ReadsTo 4 s1 pl s2 r2,
            read_le-ReadsTo 4 s2 cl s3 r3,
            read_exact-ReadsTo 24 s4 nonce s5 r5,
            read_exact-ReadsTo cl s5 ct s6 r6,
          )

read_exact_or_eof_inv :
    (n : ℕ) (s xs rest : Bytes)
    → read_exact_or_eof n s ≡ ok (some xs, rest)
    → (s ≡ xs ++ rest) × (length xs ≡ n)
unfolding read_exact_or_eof
read_exact_or_eof_inv n [] xs rest h = cc
read_exact_or_eof_inv n (b ∷ s) xs rest h =
    ground (arith, take-append-drop n (b ∷ s), length-take n (b ∷ s))

-- A frame that `read_chunk_frame` returns was read off the front of the bytes: eight of them are its
-- index, the next one is zero exactly where the frame is not the last, four are the length of its
-- plaintext and four that of its ciphertext, all little-endian, 24 are its nonce, and then stands
-- the ciphertext, which has the stated length of at least 16 bytes; the rest is what follows it.
pub read_chunk_frame-IsReadFrame :
    (s : Bytes) (h : ChunkFrameHeader) (c rest : Bytes)
    → read_chunk_frame s ≡ ok (some (h, c), rest)
    → IsReadFrame s h c rest
unfolding read_chunk_frame
read_chunk_frame-IsReadFrame s h c rest e =
    continue-inv (read_exact_or_eof 8 s) _ e λ o s1 r1 e1. after o s1 r1 e1
  where
    after :
        (o : Option Bytes) (s1 : Bytes)
        → read_exact_or_eof 8 s ≡ ok (o, s1)
        → read_frame_after o s1 ≡ ok (some (h, c), rest)
        → IsReadFrame s h c rest
    after none s1 r1 e1 = absurd (cc)
    after (some xs) s1 r1 e1 =
        let (whole, taken) = read_exact_or_eof_inv 8 s xs s1 r1 in
        let (l, st, tag, idx, w) = read_frame_body_inv xs s1 h c rest e1 in
        let (last, pb, cb, behind, pb_width, cb_width, nonce_width, last_is, pl, cl) =
          read_frame_body-Body xs s1 h c rest e1 in
        record {
          index_bytes = xs;
          last_byte = last;
          plaintext_len_bytes = pb;
          ciphertext_len_bytes = cb;
          whole = subst (λ t. s ≡ xs ++ t) behind whole;
          index_width = taken;
          plaintext_len_width = pb_width;
          ciphertext_len_width = cb_width;
          nonce_width = nonce_width;
          index = idx;
          is_last = elim (Bool-cases (last == 0)) [
            | inl none_set ↦ inl (ground arith)
            | inr set ↦ inr (ground arith)
          ];
          plaintext_len = pl;
          ciphertext_len = cl;
          shorter = omega (arith, ap (λ (t : Bytes). length t) whole, length-append xs s1);
          stated = st;
          tagged = tag;
          widths = λ b.
              let (bx, bs) = All-split IsByte xs s1 (subst IsBytes whole b) in
              let (p, q, r) = w bs in
              let below : from_le xs < 256 ^ 8 = rw taken at (from_le-lt xs bx) in
              (p, q, omega arith, r);
        }

-- At the end of the stream there is no frame.
pub read_chunk_frame-end : read_chunk_frame [] ≡ ok (none, [])
unfolding read_chunk_frame read_exact_or_eof
read_chunk_frame-end = refl

pub read_chunk_frame-none :
    (s rest : Bytes) → read_chunk_frame s ≡ ok (none, rest) → (s ≡ []) × (rest ≡ [])
unfolding read_chunk_frame read_exact_or_eof read_frame_body read_u32 read_le
read_chunk_frame-none [] rest h = ground arith
read_chunk_frame-none (b ∷ s) rest h = ground arith
