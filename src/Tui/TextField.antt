-- ===== src/Tui/TextField.antt =====
-- userinterfaces/tui/state/text_field.rs and secret_text_field.rs. A `char` is its code point, a
-- `String` is the list of its chars, and zeroizing a string empties it.
use timelocked.Common.{
  ℕ, ◌+◌, ◌-◌, min, Bool, true, false, not, ◌||◌, List, [], ◌∷◌, ◌++◌, ltb, ◌==◌, if◌then◌else◌,
  is_empty, length, take, drop,
}

pub record TextField : Type 0 where
  pub value : List ℕ
  pub cursor : ℕ
  pub clear_on_next_edit : Bool

-- The keys of crossterm that a field leaves alone and a form reads, and any other key.
pub data OtherKey : Type 0 where
  key_tab key_back_tab key_up key_down key_enter key_esc key_unread : OtherKey

-- crossterm's events. The modifiers are bits, and SHIFT is the lowest.
pub data KeyCode : Type 0 where
  char : ℕ → KeyCode
  key_backspace key_delete key_left key_right key_home key_end : KeyCode
  other : OtherKey → KeyCode

pub record KeyEvent : Type 0 where
  pub code : KeyCode
  pub modifiers : ℕ

unfoldable pub new_field : List ℕ → TextField
new_field value = record { value = value; cursor = length value; clear_on_next_edit = false }

unfoldable pub arm_clear_on_next_edit : TextField → TextField
arm_clear_on_next_edit field =
    if not (is_empty field.value) then record field { clear_on_next_edit = true } else field

unfoldable pub clear : TextField → TextField
clear field = record { value = []; cursor = 0; clear_on_next_edit = false }

unfoldable pub consume_clear_on_next_edit : TextField → TextField
consume_clear_on_next_edit field = if field.clear_on_next_edit then clear field else field

unfoldable pub replace_value : List ℕ → ℕ → TextField → TextField
replace_value value cursor field = record field { value = value; cursor = cursor }

-- `Vec::insert` and `Vec::remove` at an index in range
abbrev pub insert_at : ℕ → ℕ → List ℕ → List ℕ
insert_at idx c chars = take idx chars ++ (c ∷ drop idx chars)

abbrev pub remove_at : ℕ → List ℕ → List ℕ
remove_at idx chars = take idx chars ++ drop (idx + 1) chars

unfoldable pub insert : ℕ → TextField → TextField
insert c field =
    let idx = min field.cursor (length field.value) in
    replace_value (insert_at idx c field.value) (idx + 1) field

unfoldable pub backspace : TextField → TextField
backspace field =
    let idx = field.cursor - 1 in
    if field.cursor == 0
    then field
    else if ltb idx (length field.value)
    then replace_value (remove_at idx field.value) idx field
    else field

unfoldable pub delete : TextField → TextField
delete field =
    if ltb field.cursor (length field.value)
    then replace_value (remove_at field.cursor field.value) field.cursor field
    else field

unfoldable pub move_left : TextField → TextField
move_left field = if ltb 0 field.cursor then record field { cursor = field.cursor - 1 } else field

unfoldable pub move_right : TextField → TextField
move_right field =
    if ltb field.cursor (length field.value)
    then record field { cursor = field.cursor + 1 }
    else field

abbrev pub disarmed : TextField → TextField
disarmed field = record field { clear_on_next_edit = false }

abbrev pub apply_code : KeyCode → ℕ → TextField → TextField × Bool
apply_code (char c) modifiers field =
    if modifiers == 0 || modifiers == 1
    then (insert c (consume_clear_on_next_edit field), true)
    else (field, false)
apply_code key_backspace modifiers field = (backspace (consume_clear_on_next_edit field), true)
apply_code key_delete modifiers field = (delete (consume_clear_on_next_edit field), true)
apply_code key_left modifiers field = (move_left (disarmed field), true)
apply_code key_right modifiers field = (move_right (disarmed field), true)
apply_code key_home modifiers field = (record (disarmed field) { cursor = 0 }, true)
apply_code key_end modifiers field = (record (disarmed field) { cursor = length field.value }, true)
apply_code (other key) modifiers field = (field, false)

-- The field, and whether the key was taken.
unfoldable pub apply_key : TextField → KeyEvent → TextField × Bool
apply_key field key = apply_code key.code key.modifiers field

-- `SecretTextField` wraps a field.
pub record SecretTextField : Type 0 where
  pub field : TextField

unfoldable pub new_secret : List ℕ → SecretTextField
new_secret value = record { field = new_field value }

unfoldable pub apply_secret_key : SecretTextField → KeyEvent → SecretTextField × Bool
apply_secret_key secret key =
    let (field, taken) = apply_key secret.field key in (record { field = field }, taken)

unfoldable pub secret_char_count : SecretTextField → ℕ
secret_char_count secret = length secret.field.value

unfoldable pub clear_secret : SecretTextField → SecretTextField
clear_secret secret = record { field = clear secret.field }
