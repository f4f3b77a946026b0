-- ===== src/Artifact/Reader.antt =====
-- reader.rs: finding the superblock and the payload region of a file. The header for the inspect
-- view, a function of the superblock and the notice, is left out.
use timelocked.Common.{ℕ, ◌+◌, ◌-◌, ◌^◌, not, Option, none, some, ltb, if◌then◌else◌, length, drop}
use timelocked.Common.Bytes.{Bytes, ascii, bytes_eq, from_le}
use timelocked.Base.{
  Error, Result, ok, err, invalid_format, verification, text, reject_if, ◌>>=◌, ◌>>◌,
}
use timelocked.Primitives.{Primitives}
use timelocked.Superblock.Body.{SuperblockBody}
use timelocked.Superblock.Copies.{
  ValidatedSuperblockCopy, range, decode_start_superblock_copy, decode_end_superblock_copy,
  choose_superblock_copy,
}
use timelocked.Artifact.Notice.{default_notice_text, decode_notice, find_start_superblock_offset}

pub record StoredTimelockedArtifact : Type 0 where
  pub notice : Bytes
  pub superblock : SuperblockBody
  pub superblock_bytes : Bytes
  pub start_superblock_offset : ℕ
  pub payload_region_offset : ℕ
  pub end_superblock_offset : ℕ
  pub file_len : ℕ

-- A copy and its offset, where one was found.
abbrev pub Found : Type 0
Found = Option (ℕ × ValidatedSuperblockCopy)

abbrev pub copy_of : Found → Option ValidatedSuperblockCopy
copy_of none = none
copy_of (some (offset, copy)) = some copy

-- `checked_sub` and `checked_add` on u64, with the error of the `ok_or_else` behind them.
abbrev pub checked_sub : ℕ → ℕ → Error → Result ℕ
checked_sub a b e = if ltb a b then err e else ok (a - b)

abbrev pub checked_add : ℕ → ℕ → Error → Result ℕ
checked_add a b e = if ltb (a + b) (2 ^ 64) then ok (a + b) else err e

abbrev pub invalid_offsets : Error
invalid_offsets = invalid_format (text "invalid offsets while recovering from end superblock")

-- The `expect` cannot fail: a copy was chosen, so that one is there.
unfoldable pub start_superblock_offset_of : Found → Found → ValidatedSuperblockCopy → Result ℕ
start_superblock_offset_of (some (offset, copy)) end_copy chosen = ok offset
start_superblock_offset_of none (some (end_offset, copy)) chosen = do
  payload_region_offset ← checked_sub end_offset chosen.body.payload_region_len invalid_offsets
  checked_sub payload_region_offset chosen.total_len invalid_offsets
start_superblock_offset_of none none chosen = err invalid_offsets

unfoldable pub payload_region_offset_of : Found → Found → ValidatedSuperblockCopy → Result ℕ
payload_region_offset_of (some (offset, copy)) end_copy chosen =
    checked_add offset copy.total_len (invalid_format (text "payload region offset overflow"))
payload_region_offset_of none (some (end_offset, copy)) chosen =
    checked_sub end_offset chosen.body.payload_region_len
      (invalid_format (text "invalid payload region offset from end superblock"))
payload_region_offset_of none none chosen = err invalid_offsets

unfoldable pub end_superblock_offset_of : Found → ℕ → ValidatedSuperblockCopy → Result ℕ
end_superblock_offset_of (some (offset, copy)) payload_region_offset chosen = ok offset
end_superblock_offset_of none payload_region_offset chosen =
    checked_add payload_region_offset chosen.body.payload_region_len
      (invalid_format (text "end superblock offset overflow"))

abbrev pub notice_or : Result (Bytes × ℕ) → Bytes
notice_or (ok (notice, end)) = notice
notice_or (err e) = default_notice_text

-- From the copies on.
unfoldable pub locate : Bytes → ℕ → Found → Found → Result StoredTimelockedArtifact
locate notice file_len start_copy end_copy = do
  chosen ← choose_superblock_copy (copy_of start_copy) (copy_of end_copy)
  start_superblock_offset ← start_superblock_offset_of start_copy end_copy chosen
  payload_region_offset ← payload_region_offset_of start_copy end_copy chosen
  end_superblock_offset ← end_superblock_offset_of end_copy payload_region_offset chosen
  payload_region_end ←
      checked_add payload_region_offset chosen.body.payload_region_len
        (invalid_format (text "payload region length overflow"))
  reject_if (ltb file_len payload_region_end) (verification (text "payload region length mismatch"))
  reject_if (ltb end_superblock_offset payload_region_end)
      (verification (text "payload region length mismatch"))
  ok (record {
    notice = notice;
    superblock = chosen.body;
    superblock_bytes = chosen.body_bytes;
    start_superblock_offset = start_superblock_offset;
    payload_region_offset = payload_region_offset;
    end_superblock_offset = end_superblock_offset;
    file_len = file_len;
  })

unfoldable pub read_payload_region_bytes : Bytes → StoredTimelockedArtifact → Result Bytes
read_payload_region_bytes bytes artifact = do
  let start = artifact.payload_region_offset
  end ←
      checked_add start artifact.superblock.payload_region_len
        (invalid_format (text "payload region length overflow"))
  reject_if (ltb (length bytes) end) (verification (text "payload region length mismatch"))
  ok (range start end bytes)

module _ (p : Primitives) where
  abbrev pub found_at : ℕ → Result ValidatedSuperblockCopy → Found
  found_at offset (ok copy) = some (offset, copy)
  found_at offset (err e) = none

  abbrev pub start_copy_at : Bytes → Result ℕ → Found
  start_copy_at bytes (ok offset) =
      found_at offset (decode_start_superblock_copy p (drop offset bytes))
  start_copy_at bytes (err e) = none

  abbrev pub with_offset : ℕ → Result ValidatedSuperblockCopy → Result (ℕ × ValidatedSuperblockCopy)
  with_offset offset r = do copy ← r; ok (offset, copy)

  unfoldable pub decode_end_copy_from_file : Bytes → Result (ℕ × ValidatedSuperblockCopy)
  decode_end_copy_from_file bytes =
      if ltb (length bytes) 12
      then err (invalid_format (text "file is too small"))
      else if not (bytes_eq (drop (length bytes - 4) bytes) (ascii "TLEB"))
      then err (invalid_format (text "invalid end superblock magic"))
      else let body_len = from_le (range (length bytes - 8) (length bytes - 4) bytes) in
        let total_len = body_len + 12 in
        if ltb (length bytes) total_len
        then err (invalid_format (text "truncated end superblock"))
        else let start = length bytes - total_len in
          with_offset start (decode_end_superblock_copy p (drop start bytes))

  abbrev pub found : Result (ℕ × ValidatedSuperblockCopy) → Found
  found (ok copy) = some copy
  found (err e) = none

  unfoldable pub read_timelocked_artifact_bytes : Bytes → Result StoredTimelockedArtifact
  read_timelocked_artifact_bytes bytes =
      if ltb (length bytes) 6
      then err (invalid_format (text "file is too small"))
      else locate (notice_or (decode_notice p bytes)) (length bytes)
          (start_copy_at bytes (find_start_superblock_offset p bytes))
          (found (decode_end_copy_from_file bytes))
