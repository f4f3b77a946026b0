-- ===== src/Region/Shard.antt =====
-- shard_record.rs: a shard behind its CRC-32C.
use timelocked.Common.{
  ℕ, ◌+◌, ◌≡◌, sym, not, Option, none, some, ◌++◌, ◌==◌, arith, if◌then◌else◌, length, take, drop,
  take-append, drop-append, length-append, take-append-drop, length-take, length-drop,
}
use mathlib.Core.Path.{subst}
use timelocked.Common.Bytes.{
  Bytes, IsByte, IsBytes, le_bytes, from_le, length-le_bytes, from_le-le_bytes, le_bytes-from_le,
  All-split,
}
use timelocked.Base.{Result, ok, err, invalid_format, text}
use timelocked.Primitives.{Primitives}
use timelocked.Primitives.Laws.{IsChecksum}

module _ (p : Primitives) where
  unfoldable pub encode_shard_record : Bytes → Bytes
  encode_shard_record shard_bytes = le_bytes 4 (p.crc32c shard_bytes) ++ shard_bytes

  -- `none` is a damaged shard: an erasure.
  unfoldable pub decode_shard_record : Bytes → ℕ → Result (Option Bytes)
  decode_shard_record record_bytes shard_len =
      if not (length record_bytes == shard_len + 4)
      then err (invalid_format (text "invalid shard record length"))
      else let expected_crc = from_le (take 4 record_bytes) in
        let shard_bytes = drop 4 record_bytes in
        if not (p.crc32c shard_bytes == expected_crc) then ok none else ok (some shard_bytes)

  pub length-encode_shard_record : (s : Bytes) → length (encode_shard_record s) ≡ length s + 4
  unfolding encode_shard_record
  length-encode_shard_record s =
      omega (arith, length-append (le_bytes 4 (p.crc32c s)) s, length-le_bytes 4 (p.crc32c s))

  pub decode-encode_shard_record :
      IsChecksum p
      → (s : Bytes) → decode_shard_record (encode_shard_record s) (length s) ≡ ok (some s)
  unfolding decode_shard_record encode_shard_record
  decode-encode_shard_record c s = ground (
    arith,
    length-encode_shard_record s,
    take-append 4 (le_bytes 4 (p.crc32c s)) s (length-le_bytes 4 (p.crc32c s)),
    drop-append 4 (le_bytes 4 (p.crc32c s)) s (length-le_bytes 4 (p.crc32c s)),
    from_le-le_bytes 4 (p.crc32c s) (c.fits s),
  )

  encode-decode_shard_record :
      (record_bytes : Bytes) (shard_len : ℕ) (s : Bytes)
      → IsBytes record_bytes
      → decode_shard_record record_bytes shard_len ≡ ok (some s)
      → (record_bytes ≡ encode_shard_record s) × (length s ≡ shard_len)
  unfolding decode_shard_record encode_shard_record
  encode-decode_shard_record r n s b h =
      let split : take 4 r ++ drop 4 r ≡ r = take-append-drop 4 r in
      let sized : length r ≡ n + 4 = ground arith in
      let four : length (take 4 r) ≡ 4 = omega (arith, length-take 4 r) in
      let front = (All-split IsByte (take 4 r) (drop 4 r) (subst IsBytes (sym split) b)).0 in
      ground (
        arith,
        split,
        sized,
        length-drop 4 r,
        subst (λ k. le_bytes k (from_le (take 4 r)) ≡ take 4 r) four
            (le_bytes-from_le (take 4 r) front),
      )

  -- `decode_shard_record` accepts a record of bytes exactly when it is the encoding of a shard of
  -- the expected length, and returns that shard. The checksum is a 32-bit number.
  pub decode_shard_record_iff :
      IsChecksum p
      → (record_bytes : Bytes) (shard_len : ℕ) (s : Bytes) → IsBytes record_bytes
      → (decode_shard_record record_bytes shard_len ≡ ok (some s)
          → (record_bytes ≡ encode_shard_record s) × (length s ≡ shard_len))
        × ((record_bytes ≡ encode_shard_record s) × (length s ≡ shard_len)
            → decode_shard_record record_bytes shard_len ≡ ok (some s))
  decode_shard_record_iff c r n s b =
      (encode-decode_shard_record r n s b, λ h. rw (h.0, ← h.1) (decode-encode_shard_record c s))
