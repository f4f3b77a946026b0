-- ===== src/Artifact/RoundTrip.antt =====
-- What the reader finds in a file of the writer's parts.
use timelocked.Common.{
  ℕ, ◌+◌, ◌^◌, ◌≤◌, ◌<◌, ◌≡◌, refl, ap, true, none, some, ◌++◌, arith, le→ltb, ◌⊎◌, length,
  append_assoc, length-append, inl, inr,
}
use timelocked.Common.Bytes.{Bytes, bytes_eq_self, le_bytes, length-le_bytes, from_le-le_bytes}
use timelocked.Base.{Error, ok, err}
use timelocked.Primitives.{Primitives}
use timelocked.Primitives.Laws.{IsBigEndian, IsChecksum}
use timelocked.Superblock.Body.{SuperblockBody, max_superblock_body_len_bytes}
use timelocked.Superblock.Encode.{encode_superblock_body}
use timelocked.Superblock.RoundTrip.{IsBody}
use timelocked.Superblock.Copies.{
  start_superblock_magic, end_superblock_magic, encode_start_superblock_copy,
  encode_end_superblock_copy,
}
use timelocked.Superblock.Restore.{
  range-append, decode-encode_start, decode-encode_end, encode_start-inv, encode_end-inv,
}
use timelocked.Artifact.Notice.{
  file_magic, max_notice_bytes, encode_notice, find_start_superblock_offset, decode_notice,
}
use timelocked.Artifact.Reader.{
  read_timelocked_artifact_bytes, read_payload_region_bytes, notice_or, Found, start_copy_at,
  decode_end_copy_from_file,
}
use timelocked.Artifact.Locate.{
  artifact_of, copy_for, locate_lem, decode_notice_parts, find_start_parts,
  decode_end_from_file_parts,
}

encode_notice-inv :
    (n ns : Bytes)
    → encode_notice n ≡ ok ns
    → (ns ≡ file_magic ++ (le_bytes 2 (length n) ++ n)) × (length n ≤ max_notice_bytes)
unfolding encode_notice
encode_notice-inv n ns h = (ground arith, ground arith)

module _ (p : Primitives) (big : IsBigEndian p) (sum : IsChecksum p) (body : SuperblockBody)
    (bytes region : Bytes) (writable : IsBody p body)
    (encoded : encode_superblock_body p body ≡ ok bytes)
    (small : length bytes ≤ max_superblock_body_len_bytes)
    (measured : length region ≡ body.payload_region_len) where
  abbrev start_part : Bytes → Bytes
  start_part rest =
      start_superblock_magic
      ++ (le_bytes 4 (length bytes) ++ (le_bytes 4 (p.crc32c bytes) ++ (bytes ++ rest)))

  abbrev end_part : Bytes
  end_part =
      bytes ++ (le_bytes 4 (p.crc32c bytes) ++ (le_bytes 4 (length bytes) ++ end_superblock_magic))

  length-start_part : (rest : Bytes) → length (start_part rest) ≡ 12 + length bytes + length rest
  length-start_part rest = omega (
    arith,
    length-append (le_bytes 4 (length bytes)) (le_bytes 4 (p.crc32c bytes) ++ (bytes ++ rest)),
    length-append (le_bytes 4 (p.crc32c bytes)) (bytes ++ rest),
    length-append bytes rest,
    length-le_bytes 4 (length bytes),
    length-le_bytes 4 (p.crc32c bytes),
  )

  length-end_part : length end_part ≡ 12 + length bytes
  length-end_part = omega (
    arith,
    length-append bytes
        (le_bytes 4 (p.crc32c bytes) ++ (le_bytes 4 (length bytes) ++ end_superblock_magic)),
    length-append (le_bytes 4 (p.crc32c bytes)) (le_bytes 4 (length bytes) ++ end_superblock_magic),
    length-append (le_bytes 4 (length bytes)) end_superblock_magic,
    length-le_bytes 4 (length bytes),
    length-le_bytes 4 (p.crc32c bytes),
  )

  found_end :
      (front : Bytes)
      → decode_end_copy_from_file p (front ++ end_part) ≡ ok (length front, copy_for body bytes)
  found_end front =
      decode_end_from_file_parts p front end_superblock_magic (le_bytes 4 (length bytes))
        (le_bytes 4 (p.crc32c bytes)) bytes (copy_for body bytes)
        (bytes_eq_self end_superblock_magic) refl (length-le_bytes 4 (length bytes))
        (length-le_bytes 4 (p.crc32c bytes)) (from_le-le_bytes 4 (length bytes) (omega arith))
        (decode-encode_end p big sum body bytes writable encoded small)

  -- A file whose front has the right length and yields no start superblock, or the right one.
  read_from :
      (front : Bytes) (start : ℕ) (first : Found)
      → length front ≡ start + (12 + length bytes)
      → start + (12 + length bytes) + body.payload_region_len + (12 + length bytes) < 2 ^ 64
      → start_copy_at p
          (front ++ (region ++ end_part))
          (find_start_superblock_offset p (front ++ (region ++ end_part)))
        ≡ first
      → (first ≡ none) ⊎ (first ≡ some (start, copy_for body bytes))
      → read_timelocked_artifact_bytes p (front ++ (region ++ end_part))
        ≡ ok (
            artifact_of
              (notice_or (decode_notice p (front ++ (region ++ end_part))))
              body
              bytes
              start)
  unfolding read_timelocked_artifact_bytes
  read_from front start first sized room at_start which =
      let split : (front ++ region) ++ end_part ≡ front ++ (region ++ end_part) =
        append_assoc front region end_part in
      let offset : length (front ++ region)
          ≡ start + (12 + length bytes) + body.payload_region_len =
        omega (arith, length-append front region, measured) in
      let whole : length (front ++ (region ++ end_part))
          ≡ start + (12 + length bytes) + body.payload_region_len + (12 + length bytes) =
        omega (
          arith,
          length-append front (region ++ end_part),
          length-append region end_part,
          length-end_part,
        ) in
      let at_end : decode_end_copy_from_file p (front ++ (region ++ end_part))
          ≡ ok (start + (12 + length bytes) + body.payload_region_len, copy_for body bytes) =
        rw (← split, found_end (front ++ region), offset) in
      rw
        (
          le→ltb (length (front ++ (region ++ end_part))) 6 (omega (arith, whole)),
          at_start,
          at_end,
          whole,
        )
        (locate_lem _ body bytes start first room which)

  -- The region is read back from the offset that was found.
  read_region :
      (front notice : Bytes) (start : ℕ)
      → length front ≡ start + (12 + length bytes)
      → start + (12 + length bytes) + body.payload_region_len + (12 + length bytes) < 2 ^ 64
      → read_payload_region_bytes
          (front ++ (region ++ end_part))
          (artifact_of notice body bytes start)
        ≡ ok region
  unfolding read_payload_region_bytes
  read_region front notice start sized room = ground (
    arith,
    measured,
    length-append front (region ++ end_part),
    length-append region end_part,
    range-append (start + (12 + length bytes))
        (start + (12 + length bytes) + body.payload_region_len) front region end_part sized
        (omega (arith, measured)),
  )

  start_part-append :
      (rest : Bytes)
      → (start_superblock_magic
            ++ (le_bytes 4 (length bytes) ++ (le_bytes 4 (p.crc32c bytes) ++ bytes)))
          ++ rest
        ≡ start_part rest
  start_part-append rest = simp append_assoc

  -- What stands at the front of a written file.
  found_start :
      (n rest : Bytes)
      → length n ≤ max_notice_bytes
      → p.is_utf8 n ≡ true
      → start_copy_at p (file_magic ++ (le_bytes 2 (length n) ++ (n ++ start_part rest))) (
          find_start_superblock_offset p
            (file_magic ++ (le_bytes 2 (length n) ++ (n ++ start_part rest))))
        ≡ some (6 + length n, copy_for body bytes)
  found_start n rest short utf8 =
      find_start_parts p file_magic (le_bytes 2 (length n)) n (start_part rest)
        (copy_for body bytes) (bytes_eq_self file_magic) refl (length-le_bytes 2 (length n))
        (from_le-le_bytes 2 (length n) (omega arith)) short utf8
        (omega (arith, length-start_part rest)) (bytes_eq_self start_superblock_magic)
        (decode-encode_start p big sum body bytes rest writable encoded small)

  found_notice :
      (n rest : Bytes)
      → length n ≤ max_notice_bytes
      → p.is_utf8 n ≡ true
      → decode_notice p (file_magic ++ (le_bytes 2 (length n) ++ (n ++ rest)))
        ≡ ok (n, 6 + length n)
  found_notice n rest short utf8 =
      decode_notice_parts p file_magic (le_bytes 2 (length n)) n rest (bytes_eq_self file_magic)
        refl (length-le_bytes 2 (length n)) (from_le-le_bytes 2 (length n) (omega arith)) short utf8

  file_parts :
      (n ns ss es : Bytes)
      → encode_notice n ≡ ok ns
      → encode_start_superblock_copy p body ≡ ok ss
      → encode_end_superblock_copy p body ≡ ok es
      → (es ≡ end_part)
        × (length (ns ++ ss) ≡ length ns + (12 + length bytes))
        × ((ns ++ ss) ++ (region ++ end_part)
            ≡ file_magic ++ (le_bytes 2 (length n) ++ (n ++ start_part (region ++ end_part))))
        × (length ns ≡ 6 + length n)
  file_parts n ns ss es hn hs he =
      let (same_n, short) = encode_notice-inv n ns hn in
      let (b, e, same_s) = encode_start-inv p body ss hs in
      let same_b : b ≡ bytes = cc in
      let ss_is : ss
          ≡ start_superblock_magic
            ++ (le_bytes 4 (length bytes) ++ (le_bytes 4 (p.crc32c bytes) ++ bytes)) =
        rw (← same_b) same_s in
      (
        encode_end-inv p body bytes es encoded he,
        omega (
          arith,
          length-append ns ss,
          ap (λ (t : Bytes). length t) ss_is,
          length-append (le_bytes 4 (length bytes)) (le_bytes 4 (p.crc32c bytes) ++ bytes),
          length-append (le_bytes 4 (p.crc32c bytes)) bytes,
          length-le_bytes 4 (length bytes),
          length-le_bytes 4 (p.crc32c bytes),
        ),
        rw (same_n, ss_is) (simp append_assoc),
        omega (
          arith,
          ap (λ (t : Bytes). length t) same_n,
          length-append (le_bytes 2 (length n)) n,
          length-le_bytes 2 (length n),
        ),
      )

  -- A file of a notice, the start copy of a superblock, a region of the stated length and the end
  -- copy is read back: the reader returns that notice, that superblock and the offsets of the parts,
  -- and the region read from the file is the one that was written. The superblock is encodable
  -- (ranges, names, at most 1 MiB), the notice is valid UTF-8, and the file is below 2 ^ 64 bytes.
  pub read_timelocked_artifact-whole :
      (notice ns ss es : Bytes)
      → encode_notice notice ≡ ok ns
      → p.is_utf8 notice ≡ true
      → encode_start_superblock_copy p body ≡ ok ss
      → encode_end_superblock_copy p body ≡ ok es
      → length ns + (12 + length bytes) + body.payload_region_len + (12 + length bytes) < 2 ^ 64
      → (read_timelocked_artifact_bytes p ((ns ++ ss) ++ (region ++ es))
          ≡ ok (artifact_of notice body bytes (length ns)))
        × (read_payload_region_bytes
              ((ns ++ ss) ++ (region ++ es))
              (artifact_of notice body bytes (length ns))
            ≡ ok region)
  read_timelocked_artifact-whole notice ns ss es hn utf8 hs he room =
      let (short_ns, short) = encode_notice-inv notice ns hn in
      let (same_e, front, whole, six) = file_parts notice ns ss es hn hs he in
      let at_start : start_copy_at p ((ns ++ ss) ++ (region ++ end_part))
            (find_start_superblock_offset p ((ns ++ ss) ++ (region ++ end_part)))
          ≡ some (length ns, copy_for body bytes) =
        rw (whole, six) (found_start notice (region ++ end_part) short utf8) in
      let read_notice : decode_notice p ((ns ++ ss) ++ (region ++ end_part))
          ≡ ok (notice, 6 + length notice) =
        rw (whole) (found_notice notice (start_part (region ++ end_part)) short utf8) in
      rw same_e (
        rw (
          read_from (ns ++ ss) (length ns) (some (length ns, copy_for body bytes)) front room
              at_start (inr refl),
          read_notice,
        ),
        read_region (ns ++ ss) notice (length ns) front room,
      )

  -- The same file with other bytes of the same length in place of the notice and the start copy,
  -- among which no start superblock is found, is read back from its end copy: the reader returns
  -- the superblock and the offsets of the parts, and the region read from the file is the one that
  -- was written. The notice is what those bytes decode to, or the default.
  pub read_timelocked_artifact-damaged :
      (front es : Bytes) (start : ℕ) (e : Error)
      → encode_end_superblock_copy p body ≡ ok es
      → length front ≡ start + (12 + length bytes)
      → start + (12 + length bytes) + body.payload_region_len + (12 + length bytes) < 2 ^ 64
      → find_start_superblock_offset p (front ++ (region ++ es)) ≡ err e
      → (read_timelocked_artifact_bytes p (front ++ (region ++ es))
          ≡ ok (
              artifact_of (notice_or (decode_notice p (front ++ (region ++ es)))) body bytes start))
        × (read_payload_region_bytes
              (front ++ (region ++ es))
              (artifact_of (notice_or (decode_notice p (front ++ (region ++ es)))) body bytes start)
            ≡ ok region)
  read_timelocked_artifact-damaged front es start e he sized room lost =
      let same : es ≡ end_part = encode_end-inv p body bytes es encoded he in
      let gone : find_start_superblock_offset p (front ++ (region ++ end_part)) ≡ err e =
        rw (← same) lost in
      rw same (
        read_from front start none sized room (rw gone refl) (inl refl),
        read_region front (notice_or (decode_notice p (front ++ (region ++ end_part)))) start sized
            room,
      )
