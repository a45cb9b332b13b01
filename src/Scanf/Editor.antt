-- ===== src/Scanf/Editor.antt =====
-- The line editor of src/libc/stdio/scanf.c: `getchar` and `read_input` over the events of the keyboard and
-- the text screen. The events are a list; where it ends, the code waits. The
-- tables of the keyboard have no character below 0, so that `read_input` takes no early return. Its result is
-- the length of the buffer.
use os1_meaty_skeleton.Prelude.{
  ℕ, ◌-◌, Bool, true, false, not, ◌&&◌, ltb, ◌==◌, if◌then◌else◌, List, [], ◌∷◌, ◌++◌, length, take,
  none, some,
}
use os1_meaty_skeleton.Keyboard.{EventType, key_press, key_release, KeyEvent, keycode_to_ascii}
use os1_meaty_skeleton.Vga.{Vga, vga_gotoxy, vga_put_char}

-- KEY_ENTER, KEY_BACKSPACE and INPUT_BUFFER_SIZE - 1
abbrev pub key_enter : ℕ
key_enter = 0x1c

abbrev pub key_backspace : ℕ
key_backspace = 0x0e

abbrev pub max_input : ℕ
max_input = 255

-- `input_buffer` up to `input_pos`, and the screen.
pub record Editor : Type 0 where
  pub buffer : List ℕ
  pub screen : Vga

-- The blank at the place before the cursor.
unfoldable pub blank_at : ℕ → ℕ → Vga → Vga
blank_at x y v = vga_gotoxy (vga_put_char (vga_gotoxy v x y) 0x20) x y

unfoldable pub erase_left : Vga → Vga
erase_left v =
    if ltb 0 v.curx
    then blank_at (v.curx - 1) v.cury v
    else (if ltb 0 v.cury then blank_at 79 (v.cury - 1) v else v)

abbrev pub erase : Editor → Editor
erase ed = record { buffer = take (length ed.buffer - 1) ed.buffer; screen = erase_left ed.screen }

abbrev pub echo : ℕ → Editor → Editor
echo c ed = record { buffer = ed.buffer ++ (c ∷ []); screen = vga_put_char ed.screen c }

-- What `getchar` does with the character `c` of a key.
unfoldable pub handle_key : ℕ → ℕ → Editor → Editor
handle_key code c ed =
    if code == key_backspace && ltb 0 (length ed.buffer)
    then erase ed
    else (if not (c == 0) && ltb (length ed.buffer) max_input then echo c ed else ed)

-- One turn of the loop of `getchar`; `undefined` is a read behind the tables of the keyboard.
pub data Key : Type 0 where
  got : ℕ → Editor → Key
  ignored undefined : Key

abbrev pub is_press : EventType → Bool
is_press key_press = true
is_press key_release = false

abbrev pub key_char : ℕ → ℕ → ℕ
key_char code c = if code == key_enter then 0x0a else c

-- A key that is pressed, behind the test of the type of the event.
unfoldable pub press_key : ℕ → ℕ → Editor → Key
press_key code modifiers ed = elim (keycode_to_ascii code modifiers) [
  | none ↦ undefined
  | some c ↦
      if c == 0 && not (code == key_enter) && not (code == key_backspace)
      then ignored
      else got (key_char code c) (handle_key code (key_char code c) ed)
]

unfoldable pub press : KeyEvent → Editor → Key
press e ed = if is_press e.type then press_key e.code e.modifiers ed else ignored

pub data Read : Type 0 where
  entered : Editor → List KeyEvent → Read
  waits : Read
  unknown : Read

-- The loop of `read_input`, and what is left of the events.
unfoldable pub read_loop : List KeyEvent → Editor → Read
read_loop [] ed = if ltb (length ed.buffer) max_input then waits else entered ed []
read_loop (e ∷ es) ed = elim (ltb (length ed.buffer) max_input) [
  | false ↦ entered ed (e ∷ es)
  | true ↦ elim (press e ed) [
    | ignored ↦ read_loop es ed
    | undefined ↦ unknown
    | got c t ↦ elim (c == 0x0a) [ true ↦ entered t es | false ↦ read_loop es t ]
  ]
]

-- `read_input`
unfoldable pub read_input : List KeyEvent → Vga → Read
read_input es v = read_loop es (record { buffer = []; screen = v })
