-- ===== src/Lock/Shards.antt =====
-- domains/timelocked_file/writer.rs: the shard size for a protected stream.
use timelocked.Common.{ℕ, zero, suc, ◌*◌, ◌%◌, ◌^◌, max, leb, if◌then◌else◌}
use timelocked.Region.Layout.{div_ceil}

abbrev pub default_rs_data_shards : ℕ
default_rs_data_shards = 4

abbrev pub default_rs_parity_shards : ℕ
default_rs_parity_shards = 2

abbrev pub default_rs_shard_bytes : ℕ
default_rs_shard_bytes = 65_536

abbrev pub min_adaptive_rs_shard_bytes : ℕ
min_adaptive_rs_shard_bytes = 64

-- Doubling up to n, on fuel.
unfoldable pub power_from : ℕ → ℕ → ℕ → ℕ
power_from zero power n = power
power_from (suc fuel) power n =
    let more = power_from fuel (power * 2) n in if leb n power then power else more

-- `u64::next_power_of_two`. Beyond 2 ^ 63 the method panics or returns 0; here it stops at 2 ^ 64.
unfoldable pub next_power_of_two : ℕ → ℕ
next_power_of_two n = power_from 64 1 n

unfoldable pub choose_rs_shard_bytes_for_protected_stream_len : ℕ → ℕ
choose_rs_shard_bytes_for_protected_stream_len protected_stream_len =
    let required_shard_bytes = div_ceil protected_stream_len default_rs_data_shards in
    let bucketed_shard_bytes = next_power_of_two required_shard_bytes in
    let adapted = max bucketed_shard_bytes min_adaptive_rs_shard_bytes % 2 ^ 32 in
    if leb default_rs_shard_bytes protected_stream_len then default_rs_shard_bytes else adapted
