-- ===== src/Tui/LockFileInvariant.antt =====
-- What every key leaves true of the form that locks a file.
use timelocked.Common.{
  ℕ, ◌+◌, ◌<◌, ◌≡◌, refl, ◌==◌, Bool, true, false, ◌&&◌, not, Bool-cases, ◌⊎◌, inl, inr, List,
  Option, none, some, arith,
}
use native.Mathlib.Nat.{mod-lt}
use timelocked.Common.Bytes.{bytes_eq}
use timelocked.Base.{Message, Result}
use timelocked.Lock.Staging.{LockRequest}
use timelocked.Tui.TextField.{
  KeyCode, char, key_backspace, key_delete, key_left, key_right, key_home, key_end, other, key_tab,
  key_back_tab, key_up, key_down, key_enter, key_esc, key_unread, KeyEvent, TextField,
  SecretTextField, new_field, new_secret, arm_clear_on_next_edit, apply_key, apply_secret_key,
  clear, clear_secret,
}
use timelocked.Tui.Cursor.{IsValid, apply_key-IsValid}
use timelocked.Tui.FormNavigation.{vertical, cycled_focus}
use timelocked.Tui.LockFileForm.{
  LockFileFocus, on_input_path, on_browse_input, on_output_path, on_target_delay, on_password,
  on_confirm_password, on_hardware_profile, on_lock, on_cancel, LockFileFormState, next, prev,
  arm_field, arm_focus_field_for_replace, profile_option_count, profile_next, profile_prev,
  default_form, default_profile_index,
}
use timelocked.Tui.LockFileKeys.{
  StringOperations, FormScreen, form, main_menu, browser, form_error, lock_progress, on_enter,
  turn_profile, started, start_lock_file, with_input, with_output, press, move_or_press, unless_esc,
  handle_key, build_lock_file_request, derive_default_output,
}

-- Every cursor stands in its text or at its end, and the index of the profile stands for a profile
-- or for this machine.
abbrev pub IsForm : LockFileFormState → Type 0
IsForm state =
    IsValid state.input_path
    × IsValid state.output_path
    × IsValid state.target_delay
    × IsValid state.password.field
    × IsValid state.password_confirmation.field
    × (state.profile_index < profile_option_count)

-- The form of a screen that has one.
abbrev pub IsScreen : FormScreen → Type 0
IsScreen (form state) = IsForm state
IsScreen main_menu = Unit
IsScreen (browser state path) = IsForm state
IsScreen (form_error state message) = IsForm state
IsScreen (lock_progress state request) = IsForm state

arm-IsValid : (field : TextField) → IsValid field → IsValid (arm_clear_on_next_edit field)
unfolding arm_clear_on_next_edit
arm-IsValid field h = ground arith

arm_field-IsForm :
    (focus : LockFileFocus) (state : LockFileFormState)
    → IsForm state
    → IsForm (arm_field focus state)
arm_field-IsForm on_input_path state (i, o, d, p, c, n) =
    (arm-IsValid state.input_path i, o, d, p, c, n)
arm_field-IsForm on_output_path state (i, o, d, p, c, n) =
    (i, arm-IsValid state.output_path o, d, p, c, n)
arm_field-IsForm on_target_delay state (i, o, d, p, c, n) =
    (i, o, arm-IsValid state.target_delay d, p, c, n)
arm_field-IsForm on_password state (i, o, d, p, c, n) =
    (i, o, d, arm-IsValid state.password.field p, c, n)
arm_field-IsForm on_confirm_password state (i, o, d, p, c, n) =
    (i, o, d, p, arm-IsValid state.password_confirmation.field c, n)
arm_field-IsForm on_browse_input state h = h
arm_field-IsForm on_hardware_profile state h = h
arm_field-IsForm on_lock state h = h
arm_field-IsForm on_cancel state h = h

profile_next-IsForm : (state : LockFileFormState) → IsForm state → IsForm (profile_next state)
unfolding profile_next profile_option_count
profile_next-IsForm state (i, o, d, p, c, n) =
    (i, o, d, p, c, mod-lt (state.profile_index + 1) (omega arith))

profile_prev-IsForm : (state : LockFileFormState) → IsForm state → IsForm (profile_prev state)
unfolding profile_prev profile_option_count
profile_prev-IsForm state (i, o, d, p, c, n) = elim (Bool-cases (state.profile_index == 0)) [
  | inl first ↦ rw first (i, o, d, p, c, omega arith)
  | inr later ↦ rw later (i, o, d, p, c, omega arith)
]

turn_profile-IsForm :
    (code : KeyCode) (state : LockFileFormState) → IsForm state → IsForm (turn_profile code state)
turn_profile-IsForm key_left state h = profile_prev-IsForm state h
turn_profile-IsForm key_right state h = profile_next-IsForm state h
turn_profile-IsForm (char c) state h = elim (Bool-cases (c == 32)) [
  | inl space ↦ rw space (profile_next-IsForm state h)
  | inr letter ↦ rw letter h
]
turn_profile-IsForm key_backspace state h = h
turn_profile-IsForm key_delete state h = h
turn_profile-IsForm key_home state h = h
turn_profile-IsForm key_end state h = h
turn_profile-IsForm (other key) state h = h

secret-IsValid :
    (secret : SecretTextField) (key : KeyEvent)
    → IsValid secret.field
    → IsValid (apply_secret_key secret key).0.field
unfolding apply_secret_key
secret-IsValid secret key = apply_key-IsValid secret.field key

new_field-IsValid : (value : List ℕ) → IsValid (new_field value)
unfolding new_field
new_field-IsValid value = omega arith

cleared-IsValid : (secret : SecretTextField) → IsValid (clear_secret secret).field
unfolding clear_secret clear
cleared-IsValid secret = omega arith

on_enter-IsScreen :
    (code : KeyCode) (taken left : FormScreen)
    → IsScreen taken
    → IsScreen left
    → IsScreen (on_enter code taken left)
on_enter-IsScreen (other key_enter) taken left h h0 = h
on_enter-IsScreen (other key_tab) taken left h h0 = h0
on_enter-IsScreen (other key_back_tab) taken left h h0 = h0
on_enter-IsScreen (other key_up) taken left h h0 = h0
on_enter-IsScreen (other key_down) taken left h h0 = h0
on_enter-IsScreen (other key_esc) taken left h h0 = h0
on_enter-IsScreen (other key_unread) taken left h h0 = h0
on_enter-IsScreen (char c) taken left h h0 = h0
on_enter-IsScreen key_backspace taken left h h0 = h0
on_enter-IsScreen key_delete taken left h h0 = h0
on_enter-IsScreen key_left taken left h h0 = h0
on_enter-IsScreen key_right taken left h h0 = h0
on_enter-IsScreen key_home taken left h h0 = h0
on_enter-IsScreen key_end taken left h h0 = h0

unless_esc-IsScreen :
    (code : KeyCode) (screen : FormScreen) → IsScreen screen → IsScreen (unless_esc code screen)
unless_esc-IsScreen (other key_esc) screen h = tt
unless_esc-IsScreen (other key_enter) screen h = h
unless_esc-IsScreen (other key_tab) screen h = h
unless_esc-IsScreen (other key_back_tab) screen h = h
unless_esc-IsScreen (other key_up) screen h = h
unless_esc-IsScreen (other key_down) screen h = h
unless_esc-IsScreen (other key_unread) screen h = h
unless_esc-IsScreen (char c) screen h = h
unless_esc-IsScreen key_backspace screen h = h
unless_esc-IsScreen key_delete screen h = h
unless_esc-IsScreen key_left screen h = h
unless_esc-IsScreen key_right screen h = h
unless_esc-IsScreen key_home screen h = h
unless_esc-IsScreen key_end screen h = h

started-IsScreen :
    (state : LockFileFormState) (built : Message ⊎ LockRequest)
    → IsForm state
    → IsScreen (started state built)
started-IsScreen state (inl message) h = h
started-IsScreen state (inr request) (i, o, d, p, c, n) =
    (i, o, d, cleared-IsValid state.password, cleared-IsValid state.password_confirmation, n)

with_output-IsForm :
    (state : LockFileFormState) (typed : TextField × Bool)
    → IsForm state
    → IsValid typed.0
    → IsForm (with_output state typed)
with_output-IsForm state (field, true) (i, o, d, p, c, n) v = (i, v, d, p, c, n)
with_output-IsForm state (field, false) (i, o, d, p, c, n) v = (i, v, d, p, c, n)

module _ (std : StringOperations) (lock_modulus_bits : ℕ) (calibration : Result ℕ) where
  with_input-IsForm :
      (state : LockFileFormState) (typed : TextField × Bool)
      → IsForm state
      → IsValid typed.0
      → IsForm (with_input std state typed)
  with_input-IsForm state (field, taken) (i, o, d, p, c, n) v =
      elim (Bool-cases (taken && not state.output_touched)) [
        | inl follows ↦
            rw follows (v, new_field-IsValid (derive_default_output std field.value), d, p, c, n)
        | inr stays ↦ rw stays (v, o, d, p, c, n)
      ]

  press-IsScreen :
      (focus : LockFileFocus) (state : LockFileFormState) (key : KeyEvent)
      → IsForm state
      → IsScreen (press std lock_modulus_bits calibration focus state key)
  unfolding start_lock_file
  press-IsScreen on_input_path state key (i, o, d, p, c, n) =
      with_input-IsForm state (apply_key state.input_path key) (i, o, d, p, c, n)
        (apply_key-IsValid state.input_path key i)
  press-IsScreen on_output_path state key (i, o, d, p, c, n) =
      with_output-IsForm state (apply_key state.output_path key) (i, o, d, p, c, n)
        (apply_key-IsValid state.output_path key o)
  press-IsScreen on_target_delay state key (i, o, d, p, c, n) =
      (i, o, apply_key-IsValid state.target_delay key d, p, c, n)
  press-IsScreen on_password state key (i, o, d, p, c, n) =
      (i, o, d, secret-IsValid state.password key p, c, n)
  press-IsScreen on_confirm_password state key (i, o, d, p, c, n) =
      (i, o, d, p, secret-IsValid state.password_confirmation key c, n)
  press-IsScreen on_hardware_profile state key h = turn_profile-IsForm key.code state h
  press-IsScreen on_browse_input state key h = on_enter-IsScreen key.code _ (form state) h h
  press-IsScreen on_lock state key h =
      on_enter-IsScreen key.code (start_lock_file std lock_modulus_bits calibration state)
        (form state)
        (started-IsScreen state (build_lock_file_request std lock_modulus_bits calibration state) h)
        h
  press-IsScreen on_cancel state key h = on_enter-IsScreen key.code main_menu (form state) tt h

  move_or_press-IsScreen :
      (state : LockFileFormState) (key : KeyEvent) (moved : Option LockFileFocus)
      → IsForm state
      → IsScreen (move_or_press std lock_modulus_bits calibration state key moved)
  unfolding arm_focus_field_for_replace
  move_or_press-IsScreen state key (some focus) h =
      arm_field-IsForm focus (record state { focus = focus }) h
  move_or_press-IsScreen state key none h = press-IsScreen state.focus state key h

  -- Every key keeps the form well-formed: from a form whose cursors stand in their texts and whose
  -- index is that of a profile or of this machine, it leads to such a form, alone or behind a
  -- browser, an error or the progress of a lock, or to the main menu.
  pub handle_key-IsScreen :
      (state : LockFileFormState) (key : KeyEvent)
      → IsForm state
      → IsScreen (handle_key std lock_modulus_bits calibration state key)
  unfolding handle_key
  handle_key-IsScreen state key h =
      unless_esc-IsScreen key.code
        (move_or_press std lock_modulus_bits calibration state key
          (cycled_focus next prev state.focus key.code vertical))
        (move_or_press-IsScreen state key (cycled_focus next prev state.focus key.code vertical) h)

-- The form that opens is well-formed.
pub default_form-IsForm : IsForm default_form
unfolding default_form arm_focus_field_for_replace arm_clear_on_next_edit new_field new_secret
    profile_option_count default_profile_index bytes_eq
default_form-IsForm = (omega arith, omega arith, omega arith, omega arith, omega arith, omega arith)

-- Next and previous undo each other.
next-prev : (focus : LockFileFocus) → (next (prev focus) ≡ focus) × (prev (next focus) ≡ focus)
unfolding next prev
next-prev on_input_path = (refl, refl)
next-prev on_browse_input = (refl, refl)
next-prev on_output_path = (refl, refl)
next-prev on_target_delay = (refl, refl)
next-prev on_password = (refl, refl)
next-prev on_confirm_password = (refl, refl)
next-prev on_hardware_profile = (refl, refl)
next-prev on_lock = (refl, refl)
next-prev on_cancel = (refl, refl)
