-- ===== src/Region/Padding.antt =====
-- The data shards of all stripes, one after the other, are the stream padded with zeros.
use timelocked.Common.{
  ℕ, zero, suc, ◌+◌, ◌-◌, ◌*◌, ◌≤◌, ◌≡◌, refl, sym, ap, ◌∙◌, min, [], ◌∷◌, ◌++◌, arith, ltb, length,
  take, drop, replicate, flatten, length-drop, drop_all, All, Bool-cases, inl, inr,
}
use timelocked.Common.Bytes.{Bytes}
use timelocked.Region.Layout.{PayloadRegionLayout, data_bytes_per_stripe}
use timelocked.Region.Encode.{data_shard, data_shards, stripe_of, slice}

-- The first n bytes, with zeros where there are none.
unfoldable pub padded : ℕ → Bytes → Bytes
padded zero xs = []
padded (suc n) [] = 0 ∷ padded n []
padded (suc n) (x ∷ xs) = x ∷ padded n xs

pub length-padded : (n : ℕ) (xs : Bytes) → length (padded n xs) ≡ n
unfolding padded
length-padded zero xs = refl
length-padded (suc n) [] = ap suc (length-padded n [])
length-padded (suc n) (x ∷ xs) = ap suc (length-padded n xs)

padded-nil : (n : ℕ) → padded n [] ≡ replicate n 0
unfolding padded
padded-nil zero = refl
padded-nil (suc n) = ap (λ t. 0 ∷ t) (padded-nil n)

pub padded-append :
    (n m k : ℕ) (xs : Bytes) → n + m ≡ k → padded n xs ++ padded m (drop n xs) ≡ padded k xs
unfolding padded
padded-append zero m k xs e = let same : m ≡ k = omega arith in rw same
padded-append (suc n) m zero xs e = absurd (omega arith)
padded-append (suc n) m (suc k) [] e =
    let ih = padded-append n m k [] (omega arith) in
    ap (λ t. 0 ∷ t) (rw (drop_all {A = ℕ} n [] (omega arith)) at ih)
padded-append (suc n) m (suc k) (x ∷ xs) e = ap (λ t. x ∷ t) (padded-append n m k xs (omega arith))

-- Cutting at the end of the list changes nothing.
take-min : (n : ℕ) (xs : Bytes) → take (min (length xs) n) xs ≡ take n xs
take-min zero xs = let z : min (length xs) 0 ≡ 0 = omega arith in rw z
take-min (suc n) [] = let z : min 0 (suc n) ≡ 0 = omega arith in rw z
take-min (suc n) (x ∷ xs) =
    let step : min (suc (length xs)) (suc n) ≡ suc (min (length xs) n) = omega arith in
    rw step (ap (λ t. x ∷ t) (take-min n xs))

padded-take : (n : ℕ) (xs : Bytes) → take n xs ++ replicate (n - length xs) 0 ≡ padded n xs
unfolding padded
padded-take zero xs = let z : 0 - length xs ≡ 0 = omega arith in rw z
padded-take (suc n) [] = let z : suc n - 0 ≡ suc n = omega arith in rw (z, padded-nil n)
padded-take (suc n) (x ∷ xs) =
    let z : suc n - suc (length xs) ≡ n - length xs = omega arith in
    rw z (ap (λ t. x ∷ t) (padded-take n xs))

pub padded-take_self : (n : ℕ) (xs : Bytes) → padded n (take n xs) ≡ padded n xs
unfolding padded
padded-take_self zero xs = refl
padded-take_self (suc n) [] = refl
padded-take_self (suc n) (x ∷ xs) = ap (λ t. x ∷ t) (padded-take_self n xs)

pub take-padded : (n : ℕ) (xs : Bytes) → length xs ≤ n → take (length xs) (padded n xs) ≡ xs
unfolding padded
take-padded n [] h = refl
take-padded zero (x ∷ xs) h = absurd (omega arith)
take-padded (suc n) (x ∷ xs) h = ap (λ t. x ∷ t) (take-padded n xs (omega arith))

pub drop-drop : (n m k : ℕ) (xs : Bytes) → m + n ≡ k → drop n (drop m xs) ≡ drop k xs
drop-drop n zero k xs e = let same : n ≡ k = omega arith in rw same
drop-drop n (suc m) zero xs e = absurd (omega arith)
drop-drop n (suc m) (suc k) [] e = drop_all {A = ℕ} n [] (omega arith)
drop-drop n (suc m) (suc k) (x ∷ xs) e = drop-drop n m k xs (omega arith)

-- The part of a list from `start` on, at most `size` bytes of it.
slice-take :
    (xs : Bytes) (start size : ℕ)
    → start ≤ length xs
    → slice xs start (min (length xs) (start + size)) ≡ take size (drop start xs)
slice-take xs start size h =
    let e : min (length xs) (start + size) - start ≡ min (length (drop start xs)) size =
      omega (arith, length-drop start xs) in
    rw e (take-min size (drop start xs))

-- A data shard is its part of the stripe, padded.
data_shard-padded :
    (xs : Bytes) (size index : ℕ) → data_shard xs size index ≡ padded size (drop (index * size) xs)
unfolding data_shard
data_shard-padded xs size index = elim (Bool-cases (ltb (index * size) (length xs))) [
  | inl inside ↦
      let start : index * size ≤ length xs = ground arith in
      let gap : size - (min (length xs) (index * size + size) - index * size)
          ≡ size - length (drop (index * size) xs) =
        omega (arith, length-drop (index * size) xs) in
      rw (inside, gap, slice-take xs (index * size) size start)
        (padded-take size (drop (index * size) xs))
  | inr outside ↦
      let past : length xs ≤ index * size = ground arith in
      rw (outside, drop_all (index * size) xs past) (sym (padded-nil size))
]

pub data_shards-padded :
    (n : ℕ) (xs : Bytes) (size index : ℕ)
    → flatten (data_shards xs size index n) ≡ padded (n * size) (drop (index * size) xs)
unfolding data_shards flatten
data_shards-padded zero xs size index =
    unfold padded in (let z : 0 * size ≡ 0 = omega arith in rw z)
data_shards-padded (suc n) xs size index =
    let ih : flatten (data_shards xs size (index + 1) n)
        ≡ padded (n * size) (drop size (drop (index * size) xs)) =
      data_shards-padded n xs size (index + 1)
      ∙ ap (padded (n * size))
          (sym (drop-drop size (index * size) ((index + 1) * size) xs (omega arith))) in
    rw (data_shard-padded xs size index, ih)
      (padded-append size (n * size) (suc n * size) (drop (index * size) xs) (omega arith))

pub length-data_shards :
    (n : ℕ) (xs : Bytes) (size index : ℕ) → length (data_shards xs size index n) ≡ n
unfolding data_shards
length-data_shards zero xs size index = refl
length-data_shards (suc n) xs size index = ap suc (length-data_shards n xs size (index + 1))

pub data_shards-sized :
    (n : ℕ) (xs : Bytes) (size index : ℕ) → All (λ s. length s ≡ size) (data_shards xs size index n)
unfolding data_shards
data_shards-sized zero xs size index = tt
data_shards-sized (suc n) xs size index = (
  rw (data_shard-padded xs size index) (length-padded size (drop (index * size) xs)),
  data_shards-sized n xs size (index + 1),
)

-- The data shards of a stripe are the stripe's part of the stream, padded.
pub stripe_data-padded :
    (stream : Bytes) (layout : PayloadRegionLayout) (index : ℕ)
    → index * data_bytes_per_stripe layout ≤ length stream
    → flatten
        (data_shards (stripe_of stream layout index) layout.rs_shard_bytes 0 layout.rs_data_shards)
      ≡ padded (data_bytes_per_stripe layout) (drop (index * data_bytes_per_stripe layout) stream)
unfolding stripe_of
stripe_data-padded stream layout index h =
    let z : 0 * layout.rs_shard_bytes ≡ 0 = omega arith in
    data_shards-padded layout.rs_data_shards (stripe_of stream layout index) layout.rs_shard_bytes 0
    ∙ rw
        (
          z,
          slice-take stream (index * data_bytes_per_stripe layout) (data_bytes_per_stripe layout) h,
        )
        (padded-take_self (data_bytes_per_stripe layout)
          (drop (index * data_bytes_per_stripe layout) stream))
