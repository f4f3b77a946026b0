-- ===== src/Examples/Keyed.antt =====
-- Puzzles and wrapped keys.
use timelocked.Common.{
  arith, ℕ, zero, suc, ◌-◌, ◌*◌, ◌/◌, ◌%◌, ◌^◌, ◌==◌, if◌then◌else◌, inl, inr, ◌≡◌, refl, [], ◌∷◌,
  ◌++◌, some, replicate,
}
use timelocked.Common.Bytes.{Bytes, ascii}
use timelocked.Base.{ok}
use timelocked.Keys.Xor.{xor_32}
use timelocked.Keys.Params.{
  PasswordProtectionParams, metadata_v1, default_with_salt, new_params, validate_params,
}
use timelocked.Keys.Wrap.{
  key_protection_material, wrap_file_key_for_password_protected_lock, validate_lock_passphrase,
  wrap_file_key_with_password, derive_password_wrap_key,
}
use timelocked.Keys.Unwrap.{recover_key, recover-key_protection_material}
use timelocked.Puzzle.Service.{
  TimelockPuzzleMaterial, CreatedTimelockPuzzle, create_puzzle_and_derive_mask,
  create_puzzle_and_wrap_key, solve_puzzle_mask_with_cancel, unwrap_key_with_cancel,
  derive_key_mask,
}
use timelocked.Puzzle.Generate.{gen_primes}
use timelocked.Puzzle.Draws.{drawn, gen_primes-first}
use timelocked.Puzzle.Shortcut.{solve-create_puzzle, unwrap-create_puzzle}
use timelocked.Examples.Toy.{toy, toy-IsDigest, toy-IsKdf, sum}

abbrev key : Bytes
key = replicate 32 5

abbrev mask : Bytes
mask = replicate 32 9

abbrev params : PasswordProtectionParams
params = record { memory_kib = 65_536; iterations = 3; parallelism = 1; salt = 1 ∷ 2 ∷ [] }

abbrev wrapped : Bytes
wrapped =
    xor_32 key
      (replicate 32 (sum (ascii "TLCK-PASSWORD-WRAP-v1" ++ (mask ++ (97 ∷ 97 ∷ []))) % 256))

recover-key_protection_material_example :
    recover_key toy wrapped mask (some (metadata_v1 params)) (97 ∷ 97 ∷ []) ≡ ok key
unfolding key_protection_material default_with_salt new_params validate_params
    wrap_file_key_for_password_protected_lock validate_lock_passphrase wrap_file_key_with_password
    derive_password_wrap_key xor_32
recover-key_protection_material_example =
    recover-key_protection_material toy toy-IsKdf key mask (1 ∷ 2 ∷ []) (some (97 ∷ 97 ∷ []))
      wrapped (some (metadata_v1 params)) refl refl refl

-- The least common multiple of 2 and 10 is 10.
abbrev lcm_of_both : ℕ → ℕ → ℕ
lcm_of_both m n = 10

-- 5 to the 10th power is 1 modulo 33.
period : 5 ^ lcm_of_both (3 - 1) (11 - 1) % (3 * 11) ≡ 1 % (3 * 11)
period = refl

abbrev puzzle : CreatedTimelockPuzzle
puzzle = record {
  modulus_n = 33;
  base_a = 5;
  iterations = 3;
  modulus_bits = 2_048;
  solution_mask = replicate 32 (5 ^ (2 ^ 3 % 10) % 33);
}

created : create_puzzle_and_derive_mask toy lcm_of_both 3 11 5 3 2_048 ≡ ok puzzle
unfolding create_puzzle_and_derive_mask derive_key_mask
created = refl

solve-create_puzzle_example :
    solve_puzzle_mask_with_cancel toy
      (record {
        modulus_n = 33;
        base_a = 5;
        wrapped_key = [];
        iterations = 3;
        modulus_bits = 2_048;
      })
      []
    ≡ ok puzzle.solution_mask
solve-create_puzzle_example =
    solve-create_puzzle toy lcm_of_both 3 11 5 period 3 2_048 puzzle [] created

abbrev material : TimelockPuzzleMaterial
material = record {
  modulus_n = 33;
  base_a = 5;
  wrapped_key = xor_32 key puzzle.solution_mask;
  iterations = 3;
  modulus_bits = 2_048;
}

unwrap-create_puzzle_example : unwrap_key_with_cancel toy material [] ≡ ok key
unfolding create_puzzle_and_wrap_key create_puzzle_and_derive_mask derive_key_mask
unwrap-create_puzzle_example =
    unwrap-create_puzzle toy lcm_of_both 3 11 5 period toy-IsDigest key 3 2_048 material refl refl

-- The length of a number in bits, up to 16.
abbrev bits_up_to : ℕ → ℕ → ℕ
bits_up_to zero n = 0
bits_up_to (suc width) n = let rest = bits_up_to width (n / 2) in if n == 0 then 0 else suc rest

abbrev bits : ℕ → ℕ
bits = bits_up_to 16

-- 137 and 149 are 1 modulo 4, 131 is p, and 127 is too close to it.
gen_primes-first_example :
    gen_primes bits 16 (drawn (137 ∷ []) (ok 131 ∷ drawn (149 ∷ 131 ∷ 127 ∷ []) (ok 227 ∷ [])))
    ≡ ok (131, 227)
gen_primes-first_example =
    gen_primes-first bits 16 (137 ∷ []) 131 (149 ∷ 131 ∷ 127 ∷ []) 227 []
      (λ h. absurd (omega arith), tt) refl
      (inl (λ h. absurd (omega arith)), (inr (inl refl), (inr (inr (omega arith)), tt)))
      (refl, ((λ h. absurd (omega arith)), omega arith))
