-- ===== src/Tui/LockFileForm.antt =====
-- The state of the form that locks a file: userinterfaces/tui/features/lock/file_form.rs.
use timelocked.Common.{
  ℕ, zero, suc, ◌+◌, ◌-◌, ◌%◌, ◌==◌, max, Bool, false, List, [], ◌∷◌, length, if◌then◌else◌,
}
use timelocked.Common.Bytes.{Bytes, bytes_eq, ascii}
use timelocked.Difficulty.Resolve.{
  HardwareProfile, profiles, current_machine_profile_id, is_current_machine_profile_id,
}
use timelocked.Tui.TextField.{
  TextField, SecretTextField, new_field, new_secret, arm_clear_on_next_edit,
}

pub data LockFileFocus : Type 0 where
  on_input_path on_browse_input on_output_path on_target_delay on_password on_confirm_password :
      LockFileFocus
  on_hardware_profile on_lock on_cancel : LockFileFocus

pub record LockFileFormState : Type 0 where
  pub input_path : TextField
  pub output_path : TextField
  pub target_delay : TextField
  pub password : SecretTextField
  pub password_confirmation : SecretTextField
  pub profile_index : ℕ
  pub output_touched : Bool
  pub focus : LockFileFocus

unfoldable pub next : LockFileFocus → LockFileFocus
next on_input_path = on_browse_input
next on_browse_input = on_output_path
next on_output_path = on_target_delay
next on_target_delay = on_password
next on_password = on_confirm_password
next on_confirm_password = on_hardware_profile
next on_hardware_profile = on_lock
next on_lock = on_cancel
next on_cancel = on_input_path

unfoldable pub prev : LockFileFocus → LockFileFocus
prev on_input_path = on_cancel
prev on_browse_input = on_input_path
prev on_output_path = on_browse_input
prev on_target_delay = on_output_path
prev on_password = on_target_delay
prev on_confirm_password = on_password
prev on_hardware_profile = on_confirm_password
prev on_lock = on_hardware_profile
prev on_cancel = on_lock

abbrev pub arm_secret : SecretTextField → SecretTextField
arm_secret secret = record { field = arm_clear_on_next_edit secret.field }

abbrev pub arm_field : LockFileFocus → LockFileFormState → LockFileFormState
arm_field on_input_path state = record state {
  input_path = arm_clear_on_next_edit state.input_path;
}
arm_field on_output_path state = record state {
  output_path = arm_clear_on_next_edit state.output_path;
}
arm_field on_target_delay state = record state {
  target_delay = arm_clear_on_next_edit state.target_delay;
}
arm_field on_password state = record state { password = arm_secret state.password }
arm_field on_confirm_password state = record state {
  password_confirmation = arm_secret state.password_confirmation;
}
arm_field focus state = state

unfoldable pub arm_focus_field_for_replace : LockFileFormState → LockFileFormState
arm_focus_field_for_replace state = arm_field state.focus state

unfoldable pub profile_option_count : ℕ
profile_option_count = length profiles + 1

-- The position, or the first where there is none.
abbrev pub position_or_first : Bytes → ℕ → List HardwareProfile → ℕ
position_or_first profile_id index [] = 0
position_or_first profile_id index (profile ∷ rest) =
    let later = position_or_first profile_id (index + 1) rest in
    if bytes_eq profile.id profile_id then index else later

unfoldable pub default_profile_index : ℕ
default_profile_index = position_or_first (ascii "desktop-2026") 0 profiles

abbrev pub id_at : ℕ → List HardwareProfile → Bytes
id_at index [] = current_machine_profile_id
id_at zero (profile ∷ rest) = profile.id
id_at (suc index) (profile ∷ rest) = id_at index rest

unfoldable pub profile_id_for_index : ℕ → Bytes
profile_id_for_index index = id_at index profiles

unfoldable pub profile_label_for_index : ℕ → Bytes
profile_label_for_index index =
    let profile_id = profile_id_for_index index in
    if is_current_machine_profile_id profile_id then ascii "current machine" else profile_id

unfoldable pub profile_next : LockFileFormState → LockFileFormState
profile_next state = record state {
  profile_index = (state.profile_index + 1) % max profile_option_count 1;
}

unfoldable pub profile_prev : LockFileFormState → LockFileFormState
profile_prev state =
    if state.profile_index == 0
    then record state { profile_index = profile_option_count - 1 }
    else record state { profile_index = state.profile_index - 1 }

unfoldable pub default_form : LockFileFormState
default_form = arm_focus_field_for_replace (record {
  input_path = new_field [];
  output_path = new_field [];
  target_delay = new_field (ascii "3d");
  password = new_secret [];
  password_confirmation = new_secret [];
  profile_index = default_profile_index;
  output_touched = false;
  focus = on_input_path;
})
