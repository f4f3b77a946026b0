-- ===== src/Tui/Cursor.antt =====
-- The cursor of a text field stays in its text.
use timelocked.Common.{
  ℕ, ◌+◌, ◌-◌, ◌≤◌, ◌<◌, ◌≡◌, min, ◌||◌, Bool-cases, inl, inr, List, [], ◌∷◌, arith, ◌==◌, length,
  take, drop, length-append, length-take, length-drop,
}
use timelocked.Tui.TextField.{
  TextField, KeyCode, char, key_backspace, key_delete, key_left, key_right, key_home, key_end,
  other, KeyEvent, clear, consume_clear_on_next_edit, replace_value, insert, remove_at, backspace,
  delete, move_left, move_right, disarmed, apply_code, apply_key,
}
use timelocked.Tui.Editing.{after_keys}

-- The cursor stands in the text or at its end.
abbrev pub IsValid : TextField → Type 0
IsValid field = field.cursor ≤ length field.value

insert-IsValid : (c : ℕ) (field : TextField) → IsValid field → IsValid (insert c field)
unfolding insert replace_value
insert-IsValid c field h = omega (
  arith,
  length-append (take (min field.cursor (length field.value)) field.value)
      (c ∷ drop (min field.cursor (length field.value)) field.value),
  length-take (min field.cursor (length field.value)) field.value,
  length-drop (min field.cursor (length field.value)) field.value,
)

length-remove_at :
    (idx : ℕ) (chars : List ℕ)
    → idx < length chars
    → length (remove_at idx chars) + 1 ≡ length chars
length-remove_at idx chars h = omega (
  arith,
  length-append (take idx chars) (drop (idx + 1) chars),
  length-take idx chars,
  length-drop (idx + 1) chars,
)

backspace-IsValid : (field : TextField) → IsValid field → IsValid (backspace field)
unfolding backspace replace_value
backspace-IsValid field h = ground (arith, length-remove_at (field.cursor - 1) field.value)

delete-IsValid : (field : TextField) → IsValid field → IsValid (delete field)
unfolding delete replace_value
delete-IsValid field h = ground (arith, length-remove_at field.cursor field.value)

move_left-IsValid : (field : TextField) → IsValid field → IsValid (move_left field)
unfolding move_left
move_left-IsValid field h = ground arith

move_right-IsValid : (field : TextField) → IsValid field → IsValid (move_right field)
unfolding move_right
move_right-IsValid field h = ground arith

consume-IsValid : (field : TextField) → IsValid field → IsValid (consume_clear_on_next_edit field)
unfolding consume_clear_on_next_edit clear
consume-IsValid field h = ground arith

apply_code-IsValid :
    (code : KeyCode) (modifiers : ℕ) (field : TextField)
    → IsValid field
    → IsValid (apply_code code modifiers field).0
apply_code-IsValid (char c) modifiers field h =
    let typed = insert-IsValid c (consume_clear_on_next_edit field) (consume-IsValid field h) in
    elim (Bool-cases (modifiers == 0 || modifiers == 1)) [
      | inl plain ↦ rw plain typed
      | inr command ↦ rw command h
    ]
apply_code-IsValid key_backspace modifiers field h =
    backspace-IsValid (consume_clear_on_next_edit field) (consume-IsValid field h)
apply_code-IsValid key_delete modifiers field h =
    delete-IsValid (consume_clear_on_next_edit field) (consume-IsValid field h)
apply_code-IsValid key_left modifiers field h = move_left-IsValid (disarmed field) h
apply_code-IsValid key_right modifiers field h = move_right-IsValid (disarmed field) h
apply_code-IsValid key_home modifiers field h = omega arith
apply_code-IsValid key_end modifiers field h = omega arith
apply_code-IsValid (other key) modifiers field h = h

pub apply_key-IsValid :
    (field : TextField) (key : KeyEvent) → IsValid field → IsValid (apply_key field key).0
unfolding apply_key
apply_key-IsValid field key = apply_code-IsValid key.code key.modifiers field

-- Any keys keep the cursor of a text field within its text: from a field whose cursor is at most
-- the number of its characters, they lead to such a field.
after_keys-IsValid :
    (keys : List KeyEvent) (field : TextField) → IsValid field → IsValid (after_keys field keys)
after_keys-IsValid [] field h = h
after_keys-IsValid (key ∷ keys) field h =
    after_keys-IsValid keys (apply_key field key).0 (apply_key-IsValid field key h)
