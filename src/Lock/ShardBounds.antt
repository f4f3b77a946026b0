-- ===== src/Lock/ShardBounds.antt =====
-- The shard size that writer.rs chooses.
use timelocked.Common.{
  ℕ, zero, suc, ◌+◌, ◌*◌, ◌%◌, ◌^◌, ◌≤◌, ◌<◌, ◌≡◌, refl, sym, ◌∙◌, ap, ◌⊎◌, inl, inr, max, leb,
  Bool-cases, arith,
}
use native.Mathlib.Nat.{pow-suc, pow-zero}
use timelocked.Region.Layout.{div_ceil}
use timelocked.Lock.Shards.{
  power_from, next_power_of_two, choose_rs_shard_bytes_for_protected_stream_len,
}

-- Doubling reaches n, and stops before twice n.
abbrev Reaches : ℕ → ℕ → ℕ → Type 0
Reaches power n result =
    (k : ℕ) × (result ≡ power * 2 ^ k) × (n ≤ result) × ((k ≡ 0) ⊎ (result < 2 * n))

Reaches-later :
    (power n result : ℕ) → power < n → Reaches (power * 2) n result → Reaches power n result
Reaches-later power n result below (k, same, reach, short) =
    let move : power * 2 ^ suc k ≡ power * 2 * 2 ^ k = rw (pow-suc 2 k) (omega arith) in
    (suc k, same ∙ sym move, reach, inr (bound k same short))
  where
    bound : (k : ℕ) → result ≡ power * 2 * 2 ^ k → (k ≡ 0) ⊎ (result < 2 * n) → result < 2 * n
    bound k same (inr short) = short
    bound k same (inl none) =
        let first : result ≡ power * 2 * 2 ^ 0 = same ∙ ap (λ j. power * 2 * 2 ^ j) none in
        omega (arith, pow-zero 2)

power_from-Reaches :
    (fuel power n : ℕ) → n ≤ power * 2 ^ fuel → Reaches power n (power_from fuel power n)
unfolding power_from
power_from-Reaches zero power n h =
    let one : power * 2 ^ 0 ≡ power = rw (pow-zero 2) (omega arith) in
    (0, sym one, omega arith, inl refl)
power_from-Reaches (suc fuel) power n h =
    let one : power * 2 ^ 0 ≡ power = rw (pow-zero 2) (omega arith) in
    let move : power * 2 ^ suc fuel ≡ power * 2 * 2 ^ fuel = rw (pow-suc 2 fuel) (omega arith) in
    elim (Bool-cases (leb n power)) [
      | inl reached ↦ rw reached (0, sym one, ground arith, inl refl)
      | inr below ↦ rw below (
          Reaches-later power n _ (ground arith)
            (power_from-Reaches fuel (power * 2) n (omega arith)))
    ]

div_ceil_four : (n : ℕ) → (n ≤ 4 * div_ceil n 4) × (4 * div_ceil n 4 < n + 4)
div_ceil_four n = ground arith

abbrev IsPower : ℕ → Type 0
IsPower n = (k : ℕ) × (n ≡ 2 ^ k)

next_power_of_two-Reaches : (n : ℕ) → n < 2 ^ 63 → Reaches 1 n (next_power_of_two n)
unfolding next_power_of_two
next_power_of_two-Reaches n h = power_from-Reaches 64 1 n (omega arith)

-- The power, raised to at least 64.
abbrev IsSize : ℕ → ℕ → Type 0
IsSize need size =
    IsPower size × (64 ≤ size) × (size ≤ 65_536) × (need ≤ size) × ((size ≡ 64) ⊎ (size < 2 * need))

raised-IsSize :
    (need power : ℕ) → need ≤ 16_384 → Reaches 1 need power → IsSize need (max power 64 % 2 ^ 32)
raised-IsSize need power small (k, same, reach, short) = elim (Bool-cases (leb power 64)) [
  | inl low ↦
      let e : max power 64 % 2 ^ 32 ≡ 64 = ground arith in
      rw e ((6, refl), omega arith, omega arith, ground arith, inl refl)
  | inr high ↦
      let above : 64 < power = ground arith in
      let bound : power < 2 * need = big k same short above in
      let e : max power 64 % 2 ^ 32 ≡ power = omega arith in
      rw e ((k, same ∙ omega arith), omega arith, omega arith, reach, inr bound)
]
  where
    big : (k : ℕ) → power ≡ 1 * 2 ^ k → (k ≡ 0) ⊎ (power < 2 * need) → 64 < power → power < 2 * need
    big k same (inr short) above = short
    big k same (inl none) above =
        let first : power ≡ 1 * 2 ^ 0 = same ∙ ap (λ j. 1 * 2 ^ j) none in
        absurd (omega (arith, pow-zero 2))

-- The shard size for a protected stream is a power of two from 64 to 65 536. For a stream below
-- 65 536 bytes, four such shards hold it, and the size is 64 or a shard is less than twice what a
-- quarter of the stream needs, rounded up.
pub choose_rs_shard_bytes-bounds :
    (len : ℕ)
    → let size = choose_rs_shard_bytes_for_protected_stream_len len in
      ((k : ℕ) × (size ≡ 2 ^ k))
      × (64 ≤ size)
      × (size ≤ 65_536)
      × (len < 65_536 → (len ≤ 4 * size) × ((size ≡ 64) ⊎ (size < 2 * div_ceil len 4)))
unfolding choose_rs_shard_bytes_for_protected_stream_len
choose_rs_shard_bytes-bounds len = elim (Bool-cases (leb 65_536 len)) [
  | inl large ↦ rw large ((16, refl), omega arith, omega arith, λ small. absurd (ground arith))
  | inr small ↦
      let quarter = div_ceil_four len in
      let below : len < 65_536 = ground arith in
      let need : div_ceil len 4 ≤ 16_384 = omega arith in
      let (power, least, most, enough, short) =
        raised-IsSize (div_ceil len 4) (next_power_of_two (div_ceil len 4)) need
          (next_power_of_two-Reaches (div_ceil len 4) (omega arith)) in
      rw small (power, least, most, λ h. (omega arith, short))
]
