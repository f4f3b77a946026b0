-- ===== src/Tui/LockFileKeys.antt =====
-- What a key does to the form that locks a file, and the request that the form makes:
-- userinterfaces/tui/features/lock/file_form.rs. `String::trim`, the bytes of a string and the
-- conversions between strings and paths are given, and so is the answer of the calibration.
use timelocked.Common.{
  ℕ, ◌==◌, Bool, true, false, ◌&&◌, not, ◌⊎◌, inl, inr, List, [], is_empty, Option, none, some,
  if◌then◌else◌,
}
use timelocked.Common.Bytes.{Bytes, bytes_eq}
use timelocked.Base.{Message, text, Result, ok, err, display}
use timelocked.Difficulty.Resolve.{is_current_machine_profile_id}
use timelocked.Paths.FilePath.{FilePath}
use timelocked.Paths.Output.{ensure_timelocked_extension}
use timelocked.Lock.Staging.{LockRequest}
use timelocked.Tui.TextField.{
  KeyCode, char, key_left, key_right, other, key_enter, key_esc, KeyEvent, TextField,
  SecretTextField, new_field, apply_key, apply_secret_key, clear_secret,
}
use timelocked.Tui.FormNavigation.{vertical, cycled_focus}
use timelocked.Tui.LockFileForm.{
  LockFileFocus, on_input_path, on_browse_input, on_output_path, on_target_delay, on_password,
  on_confirm_password, on_hardware_profile, on_lock, on_cancel, LockFileFormState, next, prev,
  arm_focus_field_for_replace, profile_id_for_index, profile_next, profile_prev,
}

abbrev pub Chars : Type 0
Chars = List ℕ

pub record StringOperations : Type 0 where
  pub trim : Chars → Chars
  pub as_bytes : Chars → Bytes
  pub path_from : Chars → FilePath
  pub to_string_lossy : FilePath → Chars

-- The screen behind a key: the form, the main menu, the form under a browser that starts at a path
-- or under an error, or the progress of a lock whose form is left as it stands.
pub data FormScreen : Type 0 where
  form : LockFileFormState → FormScreen
  main_menu : FormScreen
  browser : LockFileFormState → FilePath → FormScreen
  form_error : LockFileFormState → Message → FormScreen
  lock_progress : LockFileFormState → LockRequest → FormScreen

unfoldable pub password_from_fields : SecretTextField → SecretTextField → Message ⊎ Option Chars
password_from_fields password confirmation =
    if not (bytes_eq password.field.value confirmation.field.value)
    then inl (text "Password and confirmation do not match.")
    else if is_empty password.field.value
    then inr none
    else inr (some password.field.value)

-- The rate of this machine, where the profile asks for it.
unfoldable pub rate_of : Bytes → Result ℕ → Message ⊎ Option ℕ
rate_of profile (ok rate) =
    if is_current_machine_profile_id profile then inr (some rate) else inr none
rate_of profile (err e) =
    if is_current_machine_profile_id profile then inl (display e) else inr none

abbrev pub on_enter : KeyCode → FormScreen → FormScreen → FormScreen
on_enter (other key_enter) taken left = taken
on_enter code taken left = left

abbrev pub turn_profile : KeyCode → LockFileFormState → LockFileFormState
turn_profile key_left state = profile_prev state
turn_profile key_right state = profile_next state
turn_profile (char c) state = if c == 32 then profile_next state else state
turn_profile code state = state

abbrev pub started : LockFileFormState → Message ⊎ LockRequest → FormScreen
started state (inl message) = form_error state message
started state (inr request) =
    lock_progress
      (record state {
        password = clear_secret state.password;
        password_confirmation = clear_secret state.password_confirmation;
      })
      request

abbrev pub with_output : LockFileFormState → TextField × Bool → LockFileFormState
with_output state (field, true) = record state { output_path = field; output_touched = true }
with_output state (field, false) = record state { output_path = field }

abbrev pub unless_esc : KeyCode → FormScreen → FormScreen
unless_esc (other key_esc) screen = main_menu
unless_esc code screen = screen

module _ (std : StringOperations) where
  unfoldable pub derive_default_output : Chars → Chars
  derive_default_output input =
      if is_empty (std.trim input)
      then []
      else std.to_string_lossy (ensure_timelocked_extension (std.path_from (std.trim input)))

  abbrev pub password_bytes : Option Chars → Option Bytes
  password_bytes (some password) = some (std.as_bytes password)
  password_bytes none = none

  abbrev pub with_input : LockFileFormState → TextField × Bool → LockFileFormState
  with_input state (field, taken) =
      if taken && not state.output_touched
      then record state {
        input_path = field;
        output_path = new_field (derive_default_output field.value);
      }
      else record state { input_path = field }

  module _ (lock_modulus_bits : ℕ) (session_calibration : Result ℕ) where
    abbrev pub lock_request :
        LockFileFormState → Message ⊎ Option Chars → Message ⊎ Option ℕ → Message ⊎ LockRequest
    lock_request state (inl message) rate = inl message
    lock_request state (inr password) (inl message) = inl message
    lock_request state (inr password) (inr rate) = inr (record {
      input = std.as_bytes (std.trim state.input_path.value);
      output = some (std.path_from (std.trim state.output_path.value));
      modulus_bits = lock_modulus_bits;
      target = some (std.as_bytes (std.trim state.target_delay.value));
      iterations = none;
      hardware_profile = some (profile_id_for_index state.profile_index);
      current_machine_iterations_per_second = rate;
      password = password_bytes password;
      verify = false;
    })

    unfoldable pub build_lock_file_request : LockFileFormState → Message ⊎ LockRequest
    build_lock_file_request state =
        if is_empty (std.trim state.input_path.value)
        then inl (text "Input file is required.")
        else if is_empty (std.trim state.output_path.value)
        then inl (text "Output timelocked file is required.")
        else if is_empty (std.trim state.target_delay.value)
        then inl (text "Target delay is required (examples: 6h, 3d, 2w).")
        else lock_request state (password_from_fields state.password state.password_confirmation)
            (rate_of (profile_id_for_index state.profile_index) session_calibration)

    unfoldable pub start_lock_file : LockFileFormState → FormScreen
    start_lock_file state = started state (build_lock_file_request state)

    abbrev pub press : LockFileFocus → LockFileFormState → KeyEvent → FormScreen
    press on_input_path state key = form (with_input state (apply_key state.input_path key))
    press on_browse_input state key =
        on_enter key.code (browser state (std.path_from (std.trim state.input_path.value)))
          (form state)
    press on_output_path state key = form (with_output state (apply_key state.output_path key))
    press on_target_delay state key =
        form (record state { target_delay = (apply_key state.target_delay key).0 })
    press on_password state key =
        form (record state { password = (apply_secret_key state.password key).0 })
    press on_confirm_password state key = form (record state {
      password_confirmation = (apply_secret_key state.password_confirmation key).0;
    })
    press on_hardware_profile state key = form (turn_profile key.code state)
    press on_lock state key = on_enter key.code (start_lock_file state) (form state)
    press on_cancel state key = on_enter key.code main_menu (form state)

    abbrev pub move_or_press : LockFileFormState → KeyEvent → Option LockFileFocus → FormScreen
    move_or_press state key (some focus) =
        form (arm_focus_field_for_replace (record state { focus = focus }))
    move_or_press state key none = press state.focus state key

    unfoldable pub handle_key : LockFileFormState → KeyEvent → FormScreen
    handle_key state key =
        unless_esc key.code
          (move_or_press state key (cycled_focus next prev state.focus key.code vertical))
