-- ===== src/Artifact/Locate.antt =====
-- Reading a written file, whole or with its start damaged.
use timelocked.Common.{
  ℕ, ◌+◌, ◌-◌, ◌^◌, ◌≤◌, ◌<◌, ◌≡◌, true, none, some, ◌++◌, arith, le→ltb, le→leb, length, take,
  drop, append_assoc, length-append, take-append, drop-append, ◌⊎◌, inl, inr,
}
use timelocked.Common.Bytes.{Bytes, bytes_eq, bytes_eq_self, from_le}
use timelocked.Base.{ok}
use timelocked.Primitives.{Primitives}
use timelocked.Superblock.Body.{SuperblockBody}
use timelocked.Superblock.Copies.{
  ValidatedSuperblockCopy, start_superblock_magic, end_superblock_magic,
  decode_start_superblock_copy, decode_end_superblock_copy, choose_superblock_copy,
}
use timelocked.Superblock.Restore.{range-append, range-append_2, range-append_3, drop_last}
use timelocked.Artifact.Notice.{
  file_magic, max_notice_bytes, decode_notice, starts_at, find_start_superblock_offset,
}
use timelocked.Artifact.Reader.{
  StoredTimelockedArtifact, Found, locate, decode_end_copy_from_file, start_superblock_offset_of,
  payload_region_offset_of, end_superblock_offset_of, start_copy_at,
}

-- The artifact that a file of these parts is.
abbrev pub artifact_of : Bytes → SuperblockBody → Bytes → ℕ → StoredTimelockedArtifact
artifact_of notice body bytes start = record {
  notice = notice;
  superblock = body;
  superblock_bytes = bytes;
  start_superblock_offset = start;
  payload_region_offset = start + (12 + length bytes);
  end_superblock_offset = start + (12 + length bytes) + body.payload_region_len;
  file_len = start + (12 + length bytes) + body.payload_region_len + (12 + length bytes);
}

abbrev pub copy_for : SuperblockBody → Bytes → ValidatedSuperblockCopy
copy_for body bytes = record { body = body; body_bytes = bytes; total_len = 12 + length bytes }

pub locate_lem :
    (notice : Bytes) (body : SuperblockBody) (bytes : Bytes) (start : ℕ) (first : Found)
    → start + (12 + length bytes) + body.payload_region_len + (12 + length bytes) < 2 ^ 64
    → (first ≡ none) ⊎ (first ≡ some (start, copy_for body bytes))
    → locate notice
        (start + (12 + length bytes) + body.payload_region_len + (12 + length bytes))
        first
        (some (start + (12 + length bytes) + body.payload_region_len, copy_for body bytes))
      ≡ ok (artifact_of notice body bytes start)
unfolding locate choose_superblock_copy start_superblock_offset_of payload_region_offset_of
    end_superblock_offset_of
locate_lem notice body bytes start first small (inl e) = rw e (ground (arith))
locate_lem notice body bytes start first small (inr e) = rw e (ground (arith, bytes_eq_self bytes))

drop_3 :
    (n : ℕ) (us vs xs ys : Bytes)
    → length us + length vs + length xs ≡ n
    → drop n (us ++ (vs ++ (xs ++ ys))) ≡ ys
drop_3 n us vs xs ys h = rw (
  ← append_assoc vs xs ys,
  ← append_assoc us (vs ++ xs) ys,
  drop-append n (us ++ (vs ++ xs)) ys
      (omega (arith, length-append us (vs ++ xs), length-append vs xs)),
)

module _ (p : Primitives) where
  pub decode_notice_parts :
      (magic l n rest : Bytes)
      → bytes_eq magic file_magic ≡ true
      → length magic ≡ 4
      → length l ≡ 2
      → from_le l ≡ length n
      → length n ≤ max_notice_bytes
      → p.is_utf8 n ≡ true
      → decode_notice p (magic ++ (l ++ (n ++ rest))) ≡ ok (n, 6 + length n)
  unfolding decode_notice
  decode_notice_parts magic l n rest m four two sl small utf8 =
      let whole : length (magic ++ (l ++ (n ++ rest))) ≡ 6 + length n + length rest = omega (
        arith,
        length-append magic (l ++ (n ++ rest)),
        length-append l (n ++ rest),
        length-append n rest,
      ) in
      rw (
        le→ltb (length (magic ++ (l ++ (n ++ rest)))) 6 (omega arith),
        take-append 4 magic (l ++ (n ++ rest)) four,
        m,
        range-append 4 6 magic l (n ++ rest) four two,
        sl,
        le→ltb max_notice_bytes (length n) small,
        le→ltb (length (magic ++ (l ++ (n ++ rest)))) (6 + length n) (omega arith),
        range-append_2 6 (6 + length n) magic l n rest (omega arith) (omega arith),
        utf8,
      )

  -- The offset right behind a notice is found when a start superblock decodes there.
  pub find_start_parts :
      (magic l n rest : Bytes) (copy : ValidatedSuperblockCopy)
      → bytes_eq magic file_magic ≡ true
      → length magic ≡ 4
      → length l ≡ 2
      → from_le l ≡ length n
      → length n ≤ max_notice_bytes
      → p.is_utf8 n ≡ true
      → 4 ≤ length rest
      → bytes_eq (take 4 rest) start_superblock_magic ≡ true
      → decode_start_superblock_copy p rest ≡ ok copy
      → start_copy_at p
          (magic ++ (l ++ (n ++ rest)))
          (find_start_superblock_offset p (magic ++ (l ++ (n ++ rest))))
        ≡ some (6 + length n, copy)
  unfolding find_start_superblock_offset starts_at
  find_start_parts magic l n rest copy m four two sl small utf8 room marked decoded =
      let whole : length (magic ++ (l ++ (n ++ rest))) ≡ 6 + length n + length rest = omega (
        arith,
        length-append magic (l ++ (n ++ rest)),
        length-append l (n ++ rest),
        length-append n rest,
      ) in
      let behind : drop (6 + length n) (magic ++ (l ++ (n ++ rest))) ≡ rest =
        drop_3 (6 + length n) magic l n rest (omega arith) in
      rw (
        le→ltb (length (magic ++ (l ++ (n ++ rest)))) 6 (omega arith),
        take-append 4 magic (l ++ (n ++ rest)) four,
        m,
        decode_notice_parts magic l n rest m four two sl small utf8,
        le→leb (6 + length n + 4) (length (magic ++ (l ++ (n ++ rest)))) (omega arith),
        behind,
        decoded,
        (let w : 6 + length n + 4 - (6 + length n) ≡ 4 = omega arith in w),
        marked,
        behind,
        decoded,
      )

  pub decode_end_from_file_parts :
      (front magic l c b : Bytes) (copy : ValidatedSuperblockCopy)
      → bytes_eq magic end_superblock_magic ≡ true
      → length magic ≡ 4
      → length l ≡ 4
      → length c ≡ 4
      → from_le l ≡ length b
      → decode_end_superblock_copy p (b ++ (c ++ (l ++ magic))) ≡ ok copy
      → decode_end_copy_from_file p (front ++ (b ++ (c ++ (l ++ magic)))) ≡ ok (length front, copy)
  unfolding decode_end_copy_from_file
  decode_end_from_file_parts front magic l c b copy m four l4 c4 sl decoded =
      let whole : length (front ++ (b ++ (c ++ (l ++ magic)))) ≡ 12 + (length front + length b) =
        omega (
          arith,
          length-append front (b ++ (c ++ (l ++ magic))),
          length-append b (c ++ (l ++ magic)),
          length-append c (l ++ magic),
          length-append l magic,
        ) in
      let last : drop (12 + (length front + length b) - 4) (front ++ (b ++ (c ++ (l ++ magic))))
          ≡ magic =
        rw (
          ← append_assoc front b (c ++ (l ++ magic)),
          drop_last (length front + length b) magic l c (front ++ b) (length-append front b) c4 l4,
        ) in
      rw (
        whole,
        le→ltb (12 + (length front + length b)) 12 (omega arith),
        last,
        m,
        range-append_3 (12 + (length front + length b) - 8) (12 + (length front + length b) - 4)
            front b c l magic (omega arith) (omega arith),
        sl,
        le→ltb (12 + (length front + length b)) (length b + 12) (omega arith),
        drop-append (12 + (length front + length b) - (length b + 12)) front
            (b ++ (c ++ (l ++ magic))) (omega arith),
        decoded,
        (let w : 12 + (length front + length b) - (length b + 12) ≡ length front = omega arith in
            w),
      )
