-- ===== src/Superblock/Copies.antt =====
-- superblock.rs: a superblock body behind its magic, length and CRC-32C, at the start of an
-- artifact and, in the reverse order, at its end.
use timelocked.Common.{
  ℕ, ◌+◌, ◌-◌, not, Option, none, some, ◌++◌, ltb, ◌==◌, if◌then◌else◌, length, take, drop, ◌||◌,
}
use timelocked.Common.Bytes.{Bytes, ascii, bytes_eq, le_bytes, from_le}
use timelocked.Base.{Result, ok, err, invalid_format, text, ◌>>=◌, ◌>>◌}
use timelocked.Primitives.{Primitives}
use timelocked.Superblock.Body.{SuperblockBody, max_superblock_body_len_bytes}
use timelocked.Superblock.Encode.{encode_superblock_body}
use timelocked.Superblock.Decode.{decode_superblock_body}

abbrev pub start_superblock_magic : Bytes
start_superblock_magic = ascii "TLSB"

abbrev pub end_superblock_magic : Bytes
end_superblock_magic = ascii "TLEB"

pub record ValidatedSuperblockCopy : Type 0 where
  pub body : SuperblockBody
  pub body_bytes : Bytes
  pub total_len : ℕ

-- `&bytes[from..to]`, where the tests before it keep the range inside.
abbrev pub range : ℕ → ℕ → Bytes → Bytes
range from to bytes = take (to - from) (drop from bytes)

unfoldable pub choose_superblock_copy :
    Option ValidatedSuperblockCopy → Option ValidatedSuperblockCopy → Result ValidatedSuperblockCopy
choose_superblock_copy (some start_copy) (some end_copy) =
    if bytes_eq start_copy.body_bytes end_copy.body_bytes
    then ok start_copy
    else err (invalid_format (text "contradictory valid superblock copies"))
choose_superblock_copy (some start_copy) none = ok start_copy
choose_superblock_copy none (some end_copy) = ok end_copy
choose_superblock_copy none none = err (invalid_format (text "both superblock copies are unusable"))

module _ (p : Primitives) where
  unfoldable pub encode_start_superblock_copy : SuperblockBody → Result Bytes
  encode_start_superblock_copy body = do
    body_bytes ← encode_superblock_body p body
    let crc = p.crc32c body_bytes
    ok (
        start_superblock_magic
        ++ (le_bytes 4 (length body_bytes) ++ (le_bytes 4 crc ++ body_bytes)))

  unfoldable pub encode_end_superblock_copy : SuperblockBody → Result Bytes
  encode_end_superblock_copy body = do
    body_bytes ← encode_superblock_body p body
    let crc = p.crc32c body_bytes
    ok (body_bytes ++ (le_bytes 4 crc ++ (le_bytes 4 (length body_bytes) ++ end_superblock_magic)))

  unfoldable pub validate_crc : Bytes → ℕ → Result (Unit {0})
  validate_crc body_bytes expected_crc =
      if not (p.crc32c body_bytes == expected_crc)
      then err (invalid_format (text "superblock CRC mismatch"))
      else ok tt

  abbrev pub validated_copy : Bytes → ℕ → ℕ → Result ValidatedSuperblockCopy
  validated_copy body_bytes crc total_len = do
    validate_crc body_bytes crc
    body ← decode_superblock_body p body_bytes
    ok (record { body = body; body_bytes = body_bytes; total_len = total_len })

  unfoldable pub decode_start_superblock_copy : Bytes → Result ValidatedSuperblockCopy
  decode_start_superblock_copy bytes =
      if ltb (length bytes) 12 || not (bytes_eq (take 4 bytes) start_superblock_magic)
      then err (invalid_format (text "invalid start superblock magic"))
      else let len = from_le (range 4 8 bytes) in
        if ltb max_superblock_body_len_bytes len
        then err (invalid_format (text "unreasonable start superblock length"))
        else let total_len = 12 + len in
          if ltb (length bytes) total_len
          then err (invalid_format (text "truncated start superblock"))
          else validated_copy (range 12 total_len bytes) (from_le (range 8 12 bytes)) total_len

  unfoldable pub decode_end_superblock_copy : Bytes → Result ValidatedSuperblockCopy
  decode_end_superblock_copy bytes =
      if ltb (length bytes) 12
        || not (bytes_eq (drop (length bytes - 4) bytes) end_superblock_magic)
      then err (invalid_format (text "invalid end superblock magic"))
      else let len_offset = length bytes - 8 in
        let crc_offset = length bytes - 12 in
        let len = from_le (range len_offset (length bytes - 4) bytes) in
        if ltb max_superblock_body_len_bytes len
        then err (invalid_format (text "unreasonable end superblock length"))
        else if not (length bytes == len + 12)
        then err (invalid_format (text "end superblock length mismatch"))
        else validated_copy (take crc_offset bytes) (from_le (range crc_offset len_offset bytes))
            (length bytes)
