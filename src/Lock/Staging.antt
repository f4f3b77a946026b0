-- ===== src/Lock/Staging.antt =====
-- usecases/lock/mod.rs and usecases/lock/input_staging.rs: the request, the source of the plaintext,
-- the path of the output and the staged plaintext. A temporary file is its bytes.
use timelocked.Common.{ℕ, Bool, Option, none, some, if◌then◌else◌, length}
use timelocked.Common.Bytes.{Bytes, ascii, bytes_eq}
use timelocked.Base.{
  Result, ok, err, invalid_argument, output_exists, text, reject_if, Polls, ensure_not_cancelled,
  ◌>>=◌, ◌>>◌,
}
use timelocked.Primitives.{Primitives}
use timelocked.Paths.FilePath.{FilePath, path_of, parent, file_name}
use timelocked.Paths.Output.{default_timelocked_output_path, ensure_timelocked_extension}
use timelocked.Disk.{Disk, Answers, create_dir_all}
use timelocked.Unlock.Request.{or_else}

-- `creator_name` and `creator_message` are not read.
pub record LockRequest : Type 0 where
  pub input : Bytes
  pub output : Option FilePath
  pub modulus_bits : ℕ
  pub target : Option Bytes
  pub iterations : Option ℕ
  pub hardware_profile : Option Bytes
  pub current_machine_iterations_per_second : Option ℕ
  pub password : Option Bytes
  pub verify : Bool

pub data InputSource : Type 0 where
  stdin : InputSource
  from_file : FilePath → InputSource
  from_text : Bytes → InputSource

pub record StagedLockInput : Type 0 where
  pub output_path : FilePath
  pub output_parent : FilePath
  pub plaintext_staging : Bytes
  pub plaintext_bytes : ℕ
  pub original_filename : Option Bytes

unfoldable pub default_output_path : InputSource → Option FilePath
default_output_path stdin = none
default_output_path (from_text t) = none
default_output_path (from_file path) = some (default_timelocked_output_path path)

unfoldable pub resolve_input_source : (FilePath → Bool) → Bytes → InputSource
resolve_input_source exists input =
    if bytes_eq input (ascii "-")
    then stdin
    else if exists (path_of input)
    then from_file (path_of input)
    else from_text input

abbrev pub ok_or_explicit : Option FilePath → Result FilePath
ok_or_explicit (some path) = ok path
ok_or_explicit none =
    err (
      invalid_argument
        (text "an explicit output path is required when locking stdin or text input"))

unfoldable pub resolve_lock_output_path : InputSource → Option FilePath → Result FilePath
resolve_lock_output_path input_source (some path) = ok (ensure_timelocked_extension path)
resolve_lock_output_path input_source none = ok_or_explicit (default_output_path input_source)

unfoldable pub assert_output_not_exists : (FilePath → Bool) → FilePath → Result (Unit {0})
assert_output_not_exists exists path = reject_if (exists path) (output_exists path.text)

abbrev pub create_parent : Answers → Option FilePath → Disk → Result (Unit {0}) × Disk
create_parent answers none disk = (ok tt, disk)
create_parent answers (some dir) disk = create_dir_all answers dir disk

unfoldable pub ensure_parent_dir_exists : Answers → FilePath → Disk → Result (Unit {0}) × Disk
ensure_parent_dir_exists answers path disk = create_parent answers (parent path) disk

-- The source, and a path for the output at which nothing is.
abbrev pub resolve_input_and_output :
    Disk → Bytes → Option FilePath → Result (InputSource × FilePath)
resolve_input_and_output disk input explicit_output = do
  let input_source = resolve_input_source disk.exists input
  output_path ← resolve_lock_output_path input_source explicit_output
  assert_output_not_exists disk.exists output_path
  ok (input_source, output_path)

module _ (p : Primitives) where
  -- `and_then(|name| name.to_str())`
  abbrev pub to_str : Option Bytes → Option Bytes
  to_str none = none
  to_str (some name) = if p.is_utf8 name then some name else none

  -- What is copied, its length, and the name that the artifact keeps.
  unfoldable pub copy_input_to_staging :
      Disk → Result Bytes → Answers → InputSource → Result (Bytes × ℕ × Option Bytes)
  copy_input_to_staging disk standard_input answers stdin = do
    copied ← standard_input
    answers.flush
    ok (copied, length copied, none)
  copy_input_to_staging disk standard_input answers (from_file path) = do
    copied ← disk.contents path
    answers.flush
    ok (copied, length copied, to_str (file_name path))
  copy_input_to_staging disk standard_input answers (from_text t) = do
    answers.flush
    ok (t, length t, none)

  module _ (standard_input : Result Bytes) (answers : Answers) (before behind : Polls) where
    -- Once the parent directory is made.
    abbrev pub stage_input : Disk → InputSource → FilePath → Result StagedLockInput
    stage_input disk input_source output_path = do
      ensure_not_cancelled before
      let output_parent = or_else (parent output_path) (path_of (ascii "."))
      answers.new_temp_in output_parent
      (plaintext_staging, plaintext_bytes, original_filename) ←
          copy_input_to_staging disk standard_input answers input_source
      ensure_not_cancelled behind
      ok (record {
        output_path = output_path;
        output_parent = output_parent;
        plaintext_staging = plaintext_staging;
        plaintext_bytes = plaintext_bytes;
        original_filename = original_filename;
      })

    abbrev pub stage_at : Result (InputSource × FilePath) → Disk → Result StagedLockInput × Disk
    stage_at (err e) disk = (err e, disk)
    stage_at (ok (input_source, output_path)) disk =
        let (created, disk') = ensure_parent_dir_exists answers output_path disk in
        ((created >> stage_input disk' input_source output_path), disk')

    -- The polls: before the input is staged, and behind.
    unfoldable pub resolve_and_stage_input :
        Disk → Bytes → Option FilePath → Result StagedLockInput × Disk
    resolve_and_stage_input disk input explicit_output =
        stage_at (resolve_input_and_output disk input explicit_output) disk
