-- ===== src/Examples/UseCases.antt =====
-- Unlocks, locks and paths on small inputs.
use timelocked.Common.{
  ℕ, ◌+◌, ◌*◌, ◌^◌, ◌≤◌, ◌<◌, ◌≡◌, refl, ◌⊎◌, Bool, true, false, ◌||◌, none, some, List, [], ◌∷◌,
  arith,
}
use timelocked.Common.Bytes.{Bytes, ascii, bytes_eq}
use timelocked.Base.{ok, err, invalid_argument, text}
use timelocked.Keys.Params.{metadata_v1}
use timelocked.Region.Layout.{div_ceil}
use timelocked.Paths.FilePath.{FilePath, path_with, file_stem, file_name, extension, with_file_name}
use timelocked.Difficulty.Resolve.{parse_u64}
use timelocked.Paths.Decimal.{decimal}
use timelocked.Paths.Output.{
  parse_suffix_index, candidate_name, find_available, resolve_available_output_path,
}
use timelocked.Paths.Available.{
  numbered, IsFirstFree, resolve_available_output_path-IsFirstFree,
  resolve_available_output_path-taken,
}
use timelocked.Paths.Numbering.{parse_suffix_index-decimal}
use timelocked.Unlock.Request.{max_password_attempts}
use timelocked.Unlock.Key.{new_session}
use timelocked.Unlock.Execute.{attempts, execute_with_cancel_and_password_provider}
use timelocked.Unlock.Once.{never}
use timelocked.Unlock.Safety.{IsClean, execute-IsClean}
use timelocked.Unlock.Prompts.{IsDone, execute-IsDone}
use timelocked.Unlock.Verdict.{first_verdict, attempts-eq-first_verdict}
use timelocked.Lock.Shards.{choose_rs_shard_bytes_for_protected_stream_len}
use timelocked.Lock.ShardBounds.{choose_rs_shard_bytes-bounds}
use timelocked.Lock.Execute.{LockPolls, execute_with_cancel}
use timelocked.Lock.Safety.{IsCleanLock, lock-IsClean}
use timelocked.Examples.Locked.{
  lib, passphrase, parsed, solved, draws, answers, request, params, mask, unlock, disk, target,
}

execute-IsClean_example :
    IsClean disk
      (execute_with_cancel_and_password_provider lib answers
        (some (λ context. ok passphrase))
        []
        never
        unlock
        disk).0
execute-IsClean_example =
    execute-IsClean lib answers (some (λ context. ok passphrase)) [] never unlock disk

execute-IsDone_example :
    IsDone max_password_attempts
      (execute_with_cancel_and_password_provider lib answers none [] never unlock disk).1
execute-IsDone_example = execute-IsDone lib answers none [] never unlock disk

attempts-eq-first_verdict_example :
    (attempts lib answers
      (some (λ context. ok passphrase))
      never
      unlock
      (1 ∷ [])
      parsed
      (some target)
      (metadata_v1 params)
      max_password_attempts
      1
      false
      disk
      new_session).0
    ≡ first_verdict lib answers
        (λ context. ok passphrase)
        never
        unlock
        (1 ∷ [])
        parsed
        (some target)
        (metadata_v1 params)
        mask
        max_password_attempts
        1
        false
        disk
attempts-eq-first_verdict_example =
    attempts-eq-first_verdict lib answers (λ context. ok passphrase) never unlock (1 ∷ []) parsed
      (some target) (metadata_v1 params) mask solved disk

abbrev lock_polls : LockPolls
lock_polls = record { start = []; staging = []; staged = []; payload = []; verification = [] }

lock-IsClean_example :
    IsCleanLock lib draws
      (ok [])
      (ok 1)
      answers
      answers
      lock_polls
      request
      disk
      (execute_with_cancel lib draws (ok []) (ok 1) answers answers lock_polls request disk)
lock-IsClean_example = lock-IsClean lib draws (ok []) (ok 1) answers answers lock_polls request disk

choose_rs_shard_bytes-bounds_example :
    ((k : ℕ) × (choose_rs_shard_bytes_for_protected_stream_len 1_000 ≡ 2 ^ k))
    × (64 ≤ choose_rs_shard_bytes_for_protected_stream_len 1_000)
    × (choose_rs_shard_bytes_for_protected_stream_len 1_000 ≤ 65_536)
    × (1_000 < 65_536
        → (1_000 ≤ 4 * choose_rs_shard_bytes_for_protected_stream_len 1_000)
          × ((choose_rs_shard_bytes_for_protected_stream_len 1_000 ≡ 64)
              ⊎ (choose_rs_shard_bytes_for_protected_stream_len 1_000 < 2 * div_ceil 1_000 4)))
choose_rs_shard_bytes-bounds_example = choose_rs_shard_bytes-bounds 1_000

-- "a.txt", where "a.txt" and "a.1.txt" are taken.
abbrev text_path : FilePath
text_path = path_with false (ascii "a.txt" ∷ [])

abbrev names_taken : List Bytes → Bool
names_taken [] = false
names_taken (name ∷ rest) = bytes_eq name (ascii "a.txt") || bytes_eq name (ascii "a.1.txt")

abbrev taken : FilePath → Bool
taken path = names_taken path.names

abbrev second : FilePath
second = path_with false (ascii "a.2.txt" ∷ [])

found : resolve_available_output_path taken (λ name. name) text_path ≡ ok second
unfolding resolve_available_output_path find_available parse_suffix_index file_stem file_name
    extension with_file_name candidate_name decimal bytes_eq
found = refl

stem : file_stem text_path ≡ some (ascii "a")
unfolding file_stem file_name bytes_eq
stem = refl

resolve_available_output_path-IsFirstFree_example :
    (taken second ≡ false)
    × (((second ≡ text_path) × (taken text_path ≡ false))
        ⊎ ((taken text_path ≡ true)
            × ((k : ℕ) × ((parse_suffix_index (ascii "a")).1 + k < 2 ^ 64)
                × (second ≡ numbered (λ name. name) text_path (ascii "a") k)
                × IsFirstFree taken (numbered (λ name. name) text_path (ascii "a")) k)))
resolve_available_output_path-IsFirstFree_example =
    resolve_available_output_path-IsFirstFree taken (λ name. name) text_path (ascii "a") second stem
      found

-- The stem ends in u64::MAX, so that one candidate is left.
abbrev last_path : FilePath
last_path = path_with false (ascii "a.18446744073709551615.txt" ∷ [])

last_stem : file_stem last_path ≡ some (ascii "a.18446744073709551615")
unfolding file_stem file_name bytes_eq
last_stem = refl

all_taken :
    resolve_available_output_path (λ path. true) (λ name. name) last_path
    ≡ err (invalid_argument (text "unable to derive available output filename"))
unfolding resolve_available_output_path find_available parse_suffix_index file_stem file_name
    extension with_file_name candidate_name decimal bytes_eq parse_u64
all_taken = refl

resolve_available_output_path-taken_example :
    (true ≡ true)
    × ((k : ℕ) → (parse_suffix_index (ascii "a.18446744073709551615")).1 + k < 2 ^ 64 → true ≡ true)
resolve_available_output_path-taken_example =
    resolve_available_output_path-taken (λ path. true) (λ name. name) last_path
      (ascii "a.18446744073709551615") _ last_stem all_taken

parse_suffix_index-decimal_example : parse_suffix_index (97 ∷ (46 ∷ decimal 12)) ≡ (97 ∷ [], 13)
parse_suffix_index-decimal_example = parse_suffix_index-decimal (97 ∷ []) 12 refl (omega arith)
