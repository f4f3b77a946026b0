-- ===== src/Tui/Editing.antt =====
-- A text field is a line editor: what stands left of the cursor, and what stands right of it.
use timelocked.Common.{
  ℕ, suc, ◌+◌, ◌-◌, ◌≡◌, refl, sym, ◌∙◌, ap, min, Bool, true, false, ◌||◌, Bool-cases, inl, inr,
  List, [], ◌∷◌, ◌++◌, append_assoc, arith, ltb, ◌==◌, if◌then◌else◌, length, take, drop,
  take-append, drop-append, length-append,
}
use timelocked.Tui.TextField.{
  TextField, KeyCode, char, key_backspace, key_delete, key_left, key_right, key_home, key_end,
  other, KeyEvent, clear, consume_clear_on_next_edit, replace_value, insert, backspace, delete,
  move_left, move_right, apply_code, apply_key,
}

-- The characters left of the cursor, the nearest first, those right of it, and whether the next
-- edit replaces the text.
pub record Line : Type 0 where
  pub left : List ℕ
  pub right : List ℕ
  pub armed : Bool

abbrev pub reverse_onto : List ℕ → List ℕ → List ℕ
reverse_onto [] ys = ys
reverse_onto (x ∷ xs) ys = reverse_onto xs (x ∷ ys)

-- The field that shows a line.
abbrev pub field_of : Line → TextField
field_of line = record {
  value = reverse_onto line.left line.right;
  cursor = length line.left;
  clear_on_next_edit = line.armed;
}

abbrev pub line_at : List ℕ → List ℕ → Line
line_at left right = record { left = left; right = right; armed = false }

-- What an edit starts from.
abbrev pub begin : Line → Line
begin line = line_at (if line.armed then [] else line.left) (if line.armed then [] else line.right)

abbrev pub erase_left : List ℕ → List ℕ → Line
erase_left [] right = line_at [] right
erase_left (c ∷ left) right = line_at left right

abbrev pub erase_right : List ℕ → List ℕ → Line
erase_right left [] = line_at left []
erase_right left (c ∷ right) = line_at left right

abbrev pub step_left : List ℕ → List ℕ → Line
step_left [] right = line_at [] right
step_left (c ∷ left) right = line_at left (c ∷ right)

abbrev pub step_right : List ℕ → List ℕ → Line
step_right left [] = line_at left []
step_right left (c ∷ right) = line_at (c ∷ left) right

-- The editor: a key on a line.
abbrev pub edit : Line → KeyCode → ℕ → Line
edit line (char c) modifiers =
    let started = begin line in
    if modifiers == 0 || modifiers == 1 then line_at (c ∷ started.left) started.right else line
edit line key_backspace modifiers = erase_left (begin line).left (begin line).right
edit line key_delete modifiers = erase_right (begin line).left (begin line).right
edit line key_left modifiers = step_left line.left line.right
edit line key_right modifiers = step_right line.left line.right
edit line key_home modifiers = line_at [] (reverse_onto line.left line.right)
edit line key_end modifiers = line_at (reverse_onto line.right line.left) []
edit line (other key) modifiers = line

reverse_onto-append : (xs ys : List ℕ) → reverse_onto xs ys ≡ reverse_onto xs [] ++ ys
reverse_onto-append [] ys = refl
reverse_onto-append (x ∷ xs) ys =
    reverse_onto-append xs (x ∷ ys)
    ∙ sym (append_assoc (reverse_onto xs []) (x ∷ []) ys)
    ∙ ap (λ t. t ++ ys) (sym (reverse_onto-append xs (x ∷ [])))

length-reverse_onto : (xs ys : List ℕ) → length (reverse_onto xs ys) ≡ length xs + length ys
length-reverse_onto [] ys = omega arith
length-reverse_onto (x ∷ xs) ys = omega (arith, length-reverse_onto xs (x ∷ ys))

take-reverse_onto : (xs ys : List ℕ) → take (length xs) (reverse_onto xs ys) ≡ reverse_onto xs []
take-reverse_onto xs ys =
    rw (reverse_onto-append xs ys)
      (take-append (length xs) (reverse_onto xs []) ys (length-reverse_onto xs [] ∙ omega arith))

drop-reverse_onto : (xs ys : List ℕ) → drop (length xs) (reverse_onto xs ys) ≡ ys
drop-reverse_onto xs ys =
    rw (reverse_onto-append xs ys)
      (drop-append (length xs) (reverse_onto xs []) ys (length-reverse_onto xs [] ∙ omega arith))

drop_one-reverse_onto :
    (xs ys : List ℕ) (y : ℕ) → drop (length xs + 1) (reverse_onto xs (y ∷ ys)) ≡ ys
drop_one-reverse_onto xs ys y =
    rw (reverse_onto-append xs (y ∷ ys), ← append_assoc (reverse_onto xs []) (y ∷ []) ys)
      (drop-append (length xs + 1) (reverse_onto xs [] ++ (y ∷ [])) ys (
        length-append (reverse_onto xs []) (y ∷ [])
        ∙ (let e = length-reverse_onto xs [] in omega arith)))

-- Fields with the same text and the same cursor.
abbrev shown : List ℕ → ℕ → TextField
shown value cursor = record { value = value; cursor = cursor; clear_on_next_edit = false }

insert-line :
    (c : ℕ) (left right : List ℕ)
    → insert c (field_of (line_at left right)) ≡ field_of (line_at (c ∷ left) right)
unfolding insert replace_value
insert-line c left right =
    let size = length-reverse_onto left right in
    let here : min (length left) (length (reverse_onto left right)) ≡ length left = omega arith in
    rw
      (
        here,
        take-reverse_onto left right,
        drop-reverse_onto left right,
        ← reverse_onto-append left (c ∷ right),
      )
      (ap (λ n. shown (reverse_onto left (c ∷ right)) n) (omega arith))

backspace-line :
    (left right : List ℕ)
    → backspace (field_of (line_at left right)) ≡ field_of (erase_left left right)
unfolding backspace replace_value
backspace-line [] right = refl
backspace-line (c ∷ left) right =
    let size = length-reverse_onto left (c ∷ right) in
    let idx : suc (length left) - 1 ≡ length left = omega arith in
    let some_left : (suc (length left) == 0) ≡ false = ground arith in
    let inside : ltb (length left) (length (reverse_onto left (c ∷ right))) ≡ true = ground arith in
    rw
      (
        some_left,
        idx,
        inside,
        take-reverse_onto left (c ∷ right),
        drop_one-reverse_onto left right c,
        ← reverse_onto-append left right,
      )
      refl

delete-line :
    (left right : List ℕ)
    → delete (field_of (line_at left right)) ≡ field_of (erase_right left right)
unfolding delete replace_value
delete-line left [] =
    let size = length-reverse_onto left [] in
    let outside : ltb (length left) (length (reverse_onto left [])) ≡ false = ground arith in
    rw outside refl
delete-line left (c ∷ right) =
    let size = length-reverse_onto left (c ∷ right) in
    let inside : ltb (length left) (length (reverse_onto left (c ∷ right))) ≡ true = ground arith in
    rw
      (
        inside,
        take-reverse_onto left (c ∷ right),
        drop_one-reverse_onto left right c,
        ← reverse_onto-append left right,
      )
      refl

move_left-line :
    (left right : List ℕ)
    → move_left (field_of (line_at left right)) ≡ field_of (step_left left right)
unfolding move_left
move_left-line [] right = refl
move_left-line (c ∷ left) right =
    let some_left : ltb 0 (suc (length left)) ≡ true = ground arith in
    let back : suc (length left) - 1 ≡ length left = omega arith in rw (some_left, back) refl

move_right-line :
    (left right : List ℕ)
    → move_right (field_of (line_at left right)) ≡ field_of (step_right left right)
unfolding move_right
move_right-line left [] =
    let size = length-reverse_onto left [] in
    let outside : ltb (length left) (length (reverse_onto left [])) ≡ false = ground arith in
    rw outside refl
move_right-line left (c ∷ right) =
    let size = length-reverse_onto left (c ∷ right) in
    let inside : ltb (length left) (length (reverse_onto left (c ∷ right))) ≡ true = ground arith in
    rw inside (ap (λ n. shown (reverse_onto left (c ∷ right)) n) (omega arith))

reverse_onto_twice : (xs ys : List ℕ) → reverse_onto (reverse_onto xs ys) [] ≡ reverse_onto ys xs
reverse_onto_twice [] ys = refl
reverse_onto_twice (x ∷ xs) ys = reverse_onto_twice xs (x ∷ ys)

begin-line : (line : Line) → consume_clear_on_next_edit (field_of line) ≡ field_of (begin line)
unfolding consume_clear_on_next_edit clear
begin-line line = elim (Bool-cases line.armed) [
  | inl armed ↦ rw armed refl
  | inr idle ↦ rw idle refl
]

edit-line :
    (line : Line) (code : KeyCode) (modifiers : ℕ)
    → (apply_code code modifiers (field_of line)).0 ≡ field_of (edit line code modifiers)
edit-line line (char c) modifiers = elim (Bool-cases (modifiers == 0 || modifiers == 1)) [
  | inl plain ↦ rw (plain, begin-line line) (insert-line c (begin line).left (begin line).right)
  | inr command ↦ rw command refl
]
edit-line line key_backspace modifiers =
    rw (begin-line line) (backspace-line (begin line).left (begin line).right)
edit-line line key_delete modifiers =
    rw (begin-line line) (delete-line (begin line).left (begin line).right)
edit-line line key_left modifiers = move_left-line line.left line.right
edit-line line key_right modifiers = move_right-line line.left line.right
edit-line line key_home modifiers = refl
edit-line line key_end modifiers =
    let there = length-reverse_onto line.left line.right in
    let back = length-reverse_onto line.right line.left in
    rw (reverse_onto_twice line.right line.left)
      (ap (λ n. shown (reverse_onto line.left line.right) n) (omega arith))
edit-line line (other key) modifiers = refl

abbrev pub after_keys : TextField → List KeyEvent → TextField
after_keys field [] = field
after_keys field (key ∷ keys) = after_keys (apply_key field key).0 keys

abbrev pub after_edits : Line → List KeyEvent → Line
after_edits line [] = line
after_edits line (key ∷ keys) = after_edits (edit line key.code key.modifiers) keys

-- A text field implements a line editor. From the field that shows a line, any keys lead to the
-- field that shows the line after the same keys: characters go in at the cursor, Backspace and
-- Delete take the neighbour away, the arrows, Home and End move without changing the text, and
-- where the next edit is to replace the text, it starts from an empty line.
pub after_keys-field_of :
    (line : Line) (keys : List KeyEvent)
    → after_keys (field_of line) keys ≡ field_of (after_edits line keys)
unfolding apply_key
after_keys-field_of line [] = refl
after_keys-field_of line (key ∷ keys) =
    rw (edit-line line key.code key.modifiers)
      (after_keys-field_of (edit line key.code key.modifiers) keys)
