-- ===== src/Unlock/Request.antt =====
-- usecases/unlock.rs: requests, responses, the path of the recovered file and the error that asks
-- for another password. And `PayloadKind` of domains/timelocked_file/artifact.rs.
use timelocked.Common.{ℕ, Bool, true, false, ◌||◌, ◌&&◌, Option, none, some, [], ◌∷◌, ◌==◌}
use timelocked.Common.Bytes.{Bytes, ascii}
use timelocked.Base.{
  Message, fmt, caused, Error, Result, ok, crypto, invalid_argument, text, reject_if, ◌>>◌,
}
use timelocked.Paths.FilePath.{FilePath, parent, path_of, join}
use timelocked.Superblock.Body.{SuperblockBody}

abbrev pub max_password_attempts : ℕ
max_password_attempts = 3

pub record UnlockRequest : Type 0 where
  pub input : FilePath
  pub out_dir : Option FilePath
  pub out : Option FilePath

pub data RecoveredPayload : Type 0 where
  recovered_file : FilePath → RecoveredPayload
  recovered_text : Bytes → RecoveredPayload

pub record UnlockResponse : Type 0 where
  pub recovered_payload : RecoveredPayload
  pub recovered_bytes : ℕ

pub record PasswordPromptContext : Type 0 where
  pub input : FilePath
  pub attempt : ℕ
  pub max_attempts : ℕ
  pub previous_attempt_failed : Bool

-- `PayloadKind`
pub data PayloadKind : Type 0 where
  text_payload : PayloadKind
  file_payload : Bytes → PayloadKind

abbrev pub kind_of : Option Bytes → PayloadKind
kind_of (some original_filename) = file_payload original_filename
kind_of none = text_payload

unfoldable pub payload_kind : SuperblockBody → PayloadKind
payload_kind superblock = kind_of superblock.original_filename

abbrev pub is_some {ℓ} : {A : Type ℓ} → Option A → Bool
is_some none = false
is_some (some a) = true

abbrev pub or_else {ℓ} : {A : Type ℓ} → Option A → A → A
or_else none other = other
or_else (some a) other = a

abbrev pub out_or_in_dir : UnlockRequest → Bytes → Option FilePath → FilePath
out_or_in_dir request original_filename (some path) = path
out_or_in_dir request original_filename none =
    join (or_else request.out_dir (or_else (parent request.input) (path_of (ascii "."))))
      (path_of original_filename)

unfoldable pub resolve_recovered_file_path : UnlockRequest → PayloadKind → Result (Option FilePath)
resolve_recovered_file_path request text_payload = do
  reject_if (is_some request.out || is_some request.out_dir)
      (invalid_argument (text "output path options cannot be used when unlocking a text payload"))
  ok none
resolve_recovered_file_path request (file_payload original_filename) =
    ok (some (out_or_in_dir request original_filename request.out))

-- `str::contains`
abbrev pub starts_with : Bytes → Bytes → Bool
starts_with [] s = true
starts_with (b ∷ pattern) [] = false
starts_with (b ∷ pattern) (c ∷ s) = (b == c) && starts_with pattern s

abbrev pub contains : Bytes → Bytes → Bool
contains [] pattern = starts_with pattern []
contains (c ∷ s) pattern = starts_with pattern (c ∷ s) || contains s pattern

-- Whether the text of a message contains a pattern that no argument of a template completes.
abbrev pub message_contains : Message → Bytes → Bool
message_contains (text s) pattern = contains (ascii s) pattern
message_contains (fmt s arguments) pattern = contains (ascii s) pattern
message_contains (caused s m) pattern = contains (ascii s) pattern || message_contains m pattern

unfoldable pub is_payload_authentication_error : Error → Bool
is_payload_authentication_error (crypto m) =
    message_contains m (ascii "payload authentication failed")
is_payload_authentication_error _ = false

abbrev pub password_payload_authentication_error : Error
password_payload_authentication_error =
    crypto (text "payload authentication failed (wrong password or file is corrupted)")
