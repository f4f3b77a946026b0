-- ===== src/Artifact/Notice.antt =====
-- notice.rs: the notice at the start of a file, and the search for the start superblock.
use timelocked.Common.{
  ℕ, zero, suc, ◌+◌, ◌-◌, min, Bool, true, false, not, ◌&&◌, ◌||◌, ◌++◌, ltb, leb, if◌then◌else◌,
  length, take, drop,
}
use timelocked.Common.Bytes.{Bytes, ascii, bytes_eq, le_bytes, from_le}
use timelocked.Base.{Result, ok, err, invalid_argument, invalid_format, text}
use timelocked.Primitives.{Primitives}
use timelocked.Superblock.Copies.{range, start_superblock_magic, decode_start_superblock_copy}

abbrev pub file_magic : Bytes
file_magic = ascii "TLCK"

abbrev pub max_notice_bytes : ℕ
max_notice_bytes = 4_096

abbrev pub notice_scan_window_bytes : ℕ
notice_scan_window_bytes = 8_192

abbrev pub default_notice_text : Bytes
default_notice_text =
    ascii
      "This is a Timelocked file. Use the Timelocked app (https://timelocked.app) to inspect or unlock it."

unfoldable pub encode_notice : Bytes → Result Bytes
encode_notice notice_bytes =
    if ltb max_notice_bytes (length notice_bytes)
    then err (invalid_argument (text "notice exceeds supported maximum length"))
    else ok (file_magic ++ (le_bytes 2 (length notice_bytes) ++ notice_bytes))

abbrev pub is_ok {ℓ} : {A : Type ℓ} → Result A → Bool
is_ok (ok a) = true
is_ok (err e) = false

module _ (p : Primitives) where
  -- The notice, and the offset behind it.
  unfoldable pub decode_notice : Bytes → Result (Bytes × ℕ)
  decode_notice bytes =
      if ltb (length bytes) 6 || not (bytes_eq (take 4 bytes) file_magic)
      then err (invalid_format (text "invalid file magic"))
      else let notice_len = from_le (range 4 6 bytes) in
        if ltb max_notice_bytes notice_len
        then err (invalid_format (text "invalid notice length"))
        else let end = 6 + notice_len in
          if ltb (length bytes) end
          then err (invalid_format (text "truncated notice"))
          else if p.is_utf8 (range 6 end bytes)
          then ok (range 6 end bytes, end)
          else err (invalid_format (text "notice is not valid UTF-8"))

  -- The test of one offset.
  unfoldable pub starts_at : Bytes → ℕ → Bool
  starts_at bytes offset =
      leb (offset + 4) (length bytes)
      && (bytes_eq (range offset (offset + 4) bytes) start_superblock_magic
          && is_ok (decode_start_superblock_copy p (drop offset bytes)))

  -- `for offset in 6..scan_end.saturating_sub(3)`, by the offsets that are left. The range ends
  -- three bytes before the end of the file, so its slices of four bytes are inside.
  unfoldable pub scan_offsets : Bytes → ℕ → ℕ → Result ℕ
  scan_offsets bytes zero offset =
      err (invalid_format (text "unable to locate a valid start superblock"))
  scan_offsets bytes (suc n) offset =
      let more = scan_offsets bytes n (offset + 1) in
      if starts_at bytes offset then ok offset else more

  abbrev pub scan_window : Bytes → Result ℕ
  scan_window bytes =
      let scan_end = min (length bytes) (6 + notice_scan_window_bytes) in
      scan_offsets bytes ((scan_end - 3) - 6) 6

  -- The direct offset behind a notice that decodes, then the window.
  abbrev pub find_from : Bytes → Result (Bytes × ℕ) → Result ℕ
  find_from bytes (ok (notice, notice_end)) =
      let scanned = scan_window bytes in
      if starts_at bytes notice_end then ok notice_end else scanned
  find_from bytes (err e) = scan_window bytes

  unfoldable pub find_start_superblock_offset : Bytes → Result ℕ
  find_start_superblock_offset bytes =
      if ltb (length bytes) 6 || not (bytes_eq (take 4 bytes) file_magic)
      then err (invalid_format (text "invalid file magic"))
      else find_from bytes (decode_notice bytes)
