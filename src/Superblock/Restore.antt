-- ===== src/Superblock/Restore.antt =====
-- Decoding the two copies of a superblock.
use timelocked.Common.{
  ℕ, ◌+◌, ◌-◌, ◌≤◌, ◌≡◌, refl, true, ◌++◌, arith, le→ltb, eq→==, length, drop, append_assoc,
  length-append, take-append, drop-append,
}
use timelocked.Common.Bytes.{
  Bytes, bytes_eq, bytes_eq_self, le_bytes, from_le, length-le_bytes, from_le-le_bytes,
}
use timelocked.Base.{ok, bind-inv}
use timelocked.Primitives.{Primitives}
use timelocked.Primitives.Laws.{IsBigEndian, IsChecksum}
use timelocked.Superblock.Body.{SuperblockBody, max_superblock_body_len_bytes}
use timelocked.Superblock.Encode.{encode_superblock_body}
use timelocked.Superblock.RoundTrip.{IsBody, decode-encode_superblock_body}
use timelocked.Superblock.Copies.{
  range, start_superblock_magic, end_superblock_magic, encode_start_superblock_copy,
  encode_end_superblock_copy, validate_crc, validated_copy, decode_start_superblock_copy,
  decode_end_superblock_copy,
}

pub range-append :
    (from to : ℕ) (xs ys zs : Bytes)
    → length xs ≡ from
    → length ys ≡ to - from
    → range from to (xs ++ (ys ++ zs)) ≡ ys
range-append from to xs ys zs h k =
    rw (drop-append from xs (ys ++ zs) h, take-append (to - from) ys zs k)

-- The same behind two pieces.
pub range-append_2 :
    (from to : ℕ) (vs xs ys zs : Bytes)
    → length vs + length xs ≡ from
    → length ys ≡ to - from
    → range from to (vs ++ (xs ++ (ys ++ zs))) ≡ ys
range-append_2 from to vs xs ys zs h k = rw (
  ← append_assoc vs xs (ys ++ zs),
  range-append from to (vs ++ xs) ys zs (omega (arith, length-append vs xs)) k,
)

pub range-append_3 :
    (from to : ℕ) (us vs xs ys zs : Bytes)
    → length us + length vs + length xs ≡ from
    → length ys ≡ to - from
    → range from to (us ++ (vs ++ (xs ++ (ys ++ zs)))) ≡ ys
range-append_3 from to us vs xs ys zs h k = rw (
  ← append_assoc us vs (xs ++ (ys ++ zs)),
  range-append_2 from to (us ++ vs) xs ys zs (omega (arith, length-append us vs)) k,
)

pub drop_last :
    (n : ℕ) (magic l c b : Bytes)
    → length b ≡ n
    → length c ≡ 4
    → length l ≡ 4
    → drop (12 + n - 4) (b ++ (c ++ (l ++ magic))) ≡ magic
drop_last n magic l c b h k r = rw (
  ← append_assoc c l magic,
  ← append_assoc b (c ++ l) magic,
  drop-append (12 + n - 4) (b ++ (c ++ l)) magic
      (omega (arith, length-append b (c ++ l), length-append c l)),
)

module _ (p : Primitives) where
  validated_copy_lem :
      IsBigEndian p
      → (body : SuperblockBody) (bytes : Bytes) (total : ℕ) → IsBody p body
      → encode_superblock_body p body ≡ ok bytes
      → length bytes ≤ max_superblock_body_len_bytes
      → validated_copy p bytes (p.crc32c bytes) total
        ≡ ok (record { body = body; body_bytes = bytes; total_len = total })
  unfolding validate_crc
  validated_copy_lem big body bytes total w h small = rw (
    eq→== (p.crc32c bytes) (p.crc32c bytes) refl,
    decode-encode_superblock_body p big body bytes w h small,
  )

  -- The layout, for pieces that carry a magic, a length and a checksum.
  decode_start_lem :
      (magic l c b rest : Bytes)
      → bytes_eq magic start_superblock_magic ≡ true
      → length magic ≡ 4
      → length l ≡ 4
      → length c ≡ 4
      → from_le l ≡ length b
      → from_le c ≡ p.crc32c b
      → length b ≤ max_superblock_body_len_bytes
      → decode_start_superblock_copy p (magic ++ (l ++ (c ++ (b ++ rest))))
        ≡ validated_copy p b (p.crc32c b) (12 + length b)
  unfolding decode_start_superblock_copy
  decode_start_lem magic l c b rest m four l4 c4 sl sc small =
      let whole : length (magic ++ (l ++ (c ++ (b ++ rest)))) ≡ 12 + length b + length rest =
        omega (
          arith,
          length-append magic (l ++ (c ++ (b ++ rest))),
          length-append l (c ++ (b ++ rest)),
          length-append c (b ++ rest),
          length-append b rest,
        ) in
      rw (
        le→ltb (length (magic ++ (l ++ (c ++ (b ++ rest))))) 12 (omega arith),
        take-append 4 magic (l ++ (c ++ (b ++ rest))) four,
        m,
        range-append 4 8 magic l (c ++ (b ++ rest)) four l4,
        range-append_2 8 12 magic l c (b ++ rest) (omega arith) c4,
        sl,
        sc,
        le→ltb max_superblock_body_len_bytes (length b) small,
        le→ltb (length (magic ++ (l ++ (c ++ (b ++ rest))))) (12 + length b) (omega arith),
        range-append_3 12 (12 + length b) magic l c b rest (omega arith) (omega arith),
      )

  pub encode_start-inv :
      (body : SuperblockBody) (copy : Bytes)
      → encode_start_superblock_copy p body ≡ ok copy
      → (bytes : Bytes) × (encode_superblock_body p body ≡ ok bytes)
        × (copy
            ≡ start_superblock_magic
              ++ (le_bytes 4 (length bytes) ++ (le_bytes 4 (p.crc32c bytes) ++ bytes)))
  unfolding encode_start_superblock_copy
  encode_start-inv body copy h =
      bind-inv (encode_superblock_body p body) _ h λ bytes e same. (bytes, e, ground arith)

  pub encode_end-inv :
      (body : SuperblockBody) (bytes copy : Bytes)
      → encode_superblock_body p body ≡ ok bytes
      → encode_end_superblock_copy p body ≡ ok copy
      → copy
        ≡ bytes
          ++ (le_bytes 4 (p.crc32c bytes) ++ (le_bytes 4 (length bytes) ++ end_superblock_magic))
  unfolding encode_end_superblock_copy
  encode_end-inv body bytes copy e h = ground arith

  decode_end_lem :
      (magic l c b : Bytes)
      → bytes_eq magic end_superblock_magic ≡ true
      → length magic ≡ 4
      → length l ≡ 4
      → length c ≡ 4
      → from_le l ≡ length b
      → from_le c ≡ p.crc32c b
      → length b ≤ max_superblock_body_len_bytes
      → decode_end_superblock_copy p (b ++ (c ++ (l ++ magic)))
        ≡ validated_copy p b (p.crc32c b) (12 + length b)
  unfolding decode_end_superblock_copy
  decode_end_lem magic l c b m four l4 c4 sl sc small =
      let whole : length (b ++ (c ++ (l ++ magic))) ≡ 12 + length b = omega (
        arith,
        length-append b (c ++ (l ++ magic)),
        length-append c (l ++ magic),
        length-append l magic,
      ) in
      rw (
        whole,
        le→ltb (12 + length b) 12 (omega arith),
        drop_last (length b) magic l c b refl c4 l4,
        m,
        range-append_2 (12 + length b - 8) (12 + length b - 4) b c l magic (omega arith)
            (omega arith),
        sl,
        le→ltb max_superblock_body_len_bytes (length b) small,
        eq→== (12 + length b) (length b + 12) (omega arith),
        range-append (12 + length b - 12) (12 + length b - 8) b c (l ++ magic) (omega arith)
            (omega arith),
        sc,
        take-append (12 + length b - 12) b (c ++ (l ++ magic)) (omega arith),
      )

  -- The end copy of a body decodes to that body and its bytes.
  pub decode-encode_end :
      IsBigEndian p
      → IsChecksum p
      → (body : SuperblockBody) (bytes : Bytes) → IsBody p body
      → encode_superblock_body p body ≡ ok bytes
      → length bytes ≤ max_superblock_body_len_bytes
      → decode_end_superblock_copy p (
          bytes
          ++ (le_bytes 4 (p.crc32c bytes) ++ (le_bytes 4 (length bytes) ++ end_superblock_magic)))
        ≡ ok (record { body = body; body_bytes = bytes; total_len = 12 + length bytes })
  decode-encode_end big sum body bytes w h small = rw (
    decode_end_lem end_superblock_magic (le_bytes 4 (length bytes)) (le_bytes 4 (p.crc32c bytes))
        bytes (bytes_eq_self end_superblock_magic) refl (length-le_bytes 4 (length bytes))
        (length-le_bytes 4 (p.crc32c bytes)) (from_le-le_bytes 4 (length bytes) (omega arith))
        (from_le-le_bytes 4 (p.crc32c bytes) (sum.fits bytes)) small,
    validated_copy_lem big body bytes (12 + length bytes) w h small,
  )

  pub decode-encode_start :
      IsBigEndian p
      → IsChecksum p
      → (body : SuperblockBody) (bytes rest : Bytes) → IsBody p body
      → encode_superblock_body p body ≡ ok bytes
      → length bytes ≤ max_superblock_body_len_bytes
      → decode_start_superblock_copy p (
          start_superblock_magic
          ++ (le_bytes 4 (length bytes) ++ (le_bytes 4 (p.crc32c bytes) ++ (bytes ++ rest))))
        ≡ ok (record { body = body; body_bytes = bytes; total_len = 12 + length bytes })
  decode-encode_start big sum body bytes rest w h small = rw (
    decode_start_lem start_superblock_magic (le_bytes 4 (length bytes))
        (le_bytes 4 (p.crc32c bytes)) bytes rest (bytes_eq_self start_superblock_magic) refl
        (length-le_bytes 4 (length bytes)) (length-le_bytes 4 (p.crc32c bytes))
        (from_le-le_bytes 4 (length bytes) (omega arith))
        (from_le-le_bytes 4 (p.crc32c bytes) (sum.fits bytes)) small,
    validated_copy_lem big body bytes (12 + length bytes) w h small,
  )
