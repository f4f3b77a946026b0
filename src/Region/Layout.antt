-- ===== src/Region/Layout.antt =====
-- `PayloadRegionLayout` of payload_region.rs. Its products stay below 2 ^ 49, so they do not wrap
-- a 64-bit `usize`.
use timelocked.Common.{ℕ, ◌+◌, ◌*◌, ◌/◌, ◌%◌, ◌==◌, if◌then◌else◌}
use timelocked.Base.{Result, ok, err, invalid_format, text, ◌>>◌}

pub record PayloadRegionLayout : Type 0 where
  pub rs_data_shards : ℕ
  pub rs_parity_shards : ℕ
  pub rs_shard_bytes : ℕ

abbrev pub total_shards : PayloadRegionLayout → ℕ
total_shards layout = layout.rs_data_shards + layout.rs_parity_shards

abbrev pub data_bytes_per_stripe : PayloadRegionLayout → ℕ
data_bytes_per_stripe layout = layout.rs_data_shards * layout.rs_shard_bytes

abbrev pub shard_record_len : PayloadRegionLayout → ℕ
shard_record_len layout = layout.rs_shard_bytes + 4

abbrev pub stripe_record_len : PayloadRegionLayout → ℕ
stripe_record_len layout = total_shards layout * shard_record_len layout

unfoldable pub validate : PayloadRegionLayout → Result (Unit {0})
validate layout =
    if layout.rs_data_shards == 0
    then err (invalid_format (text "rs_data_shards must be greater than 0"))
    else if layout.rs_parity_shards == 0
    then err (invalid_format (text "rs_parity_shards must be greater than 0"))
    else if layout.rs_shard_bytes == 0
    then err (invalid_format (text "rs_shard_bytes must be greater than 0"))
    else ok tt

-- `div_ceil` of the standard library.
abbrev pub div_ceil : ℕ → ℕ → ℕ
div_ceil a b = if a % b == 0 then a / b else a / b + 1

unfoldable pub stripe_count : ℕ → ℕ → ℕ
stripe_count total_len data_bytes = if total_len == 0 then 1 else div_ceil total_len data_bytes

unfoldable pub encoded_payload_region_len : ℕ → PayloadRegionLayout → Result ℕ
encoded_payload_region_len protected_stream_len layout =
    validate layout
    >> ok (
        stripe_count protected_stream_len (data_bytes_per_stripe layout) * stripe_record_len layout)
