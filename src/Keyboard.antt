-- ===== src/Keyboard.antt =====
-- The keyboard driver of src/kernel/drivers/keyboard.c: scancodes in, key events out through a
-- circular buffer, and the translation of keycodes to characters. The driver's static variables
-- are the record `Driver`; what the interrupt routine delivers is the argument of `handle_scancode`.
pub mod Tables
pub mod Queue
pub mod Handle
pub mod Ascii
mod Tests
use os1_meaty_skeleton.Prelude.{
  ℕ, ◌+◌, ◌-◌, ◌/◌, ◌%◌, Bool, true, false, not, ◌&&◌, ◌||◌, Option, none, some, get_or, ltb, leb,
  ◌==◌, if◌then◌else◌,
}
use mathlib.Core.Bool.{xor}
use os1_meaty_skeleton.Keyboard.Tables.{
  scancode_table, extended_table, unshifted_table, shifted_table, unshifted_size, shifted_size,
  entry,
}

-- KEYBOARD_BUFFER_SIZE
abbrev pub buffer_size : ℕ
buffer_size = 64

pub data EventType : Type 0 where
  key_press key_release : EventType

-- `struct key_event`
pub record KeyEvent : Type 0 where
  pub code : ℕ
  pub type : EventType
  pub modifiers : ℕ

pub record Driver : Type 0 where
  pub buffer : ℕ → KeyEvent
  pub head : ℕ
  pub tail : ℕ
  pub modifiers : ℕ
  pub extended : Bool

-- A modifier is one bit of a byte: MOD_SHIFT 1, MOD_CTRL 2, MOD_ALT 4, MOD_CAPSLOCK 8 and
-- MOD_NUMLOCK 16. These are `&`, `|=`, `&= ~` and `^=` at such a mask.
abbrev pub has : ℕ → ℕ → Bool
has mods mask = mods / mask % 2 == 1

abbrev pub with_bit : ℕ → ℕ → ℕ
with_bit mods mask = if has mods mask then mods else mods + mask

abbrev pub without_bit : ℕ → ℕ → ℕ
without_bit mods mask = if has mods mask then mods - mask else mods

abbrev pub flip_bit : ℕ → ℕ → ℕ
flip_bit mods mask = if has mods mask then mods - mask else mods + mask

-- The switch under `if (extended)`; KEY_UNKNOWN is 0.
unfoldable pub extended_keycode : ℕ → ℕ
extended_keycode scancode = entry extended_table scancode

-- `scancode_to_keycode` clears the flag `extended`.
unfoldable pub scancode_to_keycode : Bool → ℕ → ℕ × Bool
scancode_to_keycode true scancode = (extended_keycode scancode, false)
scancode_to_keycode false scancode =
    (if ltb scancode 128 then get_or scancode_table scancode 0 else 0, false)

abbrev pub put : (ℕ → KeyEvent) → ℕ → KeyEvent → ℕ → KeyEvent
put buffer i e j = if j == i then e else buffer j

-- `queue_event`: a full buffer drops the event.
unfoldable pub queue_event : Driver → ℕ → EventType → Driver
queue_event d code type =
    let next_head = (d.head + 1) % buffer_size in
    if next_head == d.tail then d else record d {
      buffer = put d.buffer d.head (record { code = code; type = type; modifiers = d.modifiers });
      head = next_head;
    }

abbrev pub held : Bool → ℕ → ℕ → ℕ
held released mods mask = if released then without_bit mods mask else with_bit mods mask

abbrev pub toggled : Bool → ℕ → ℕ → ℕ
toggled released mods mask = if released then mods else flip_bit mods mask

-- The switch of `keyboard_handle_scancode` on the keycode: KEY_LSHIFT and KEY_RSHIFT, KEY_LCTRL,
-- KEY_LALT, KEY_CAPSLOCK, KEY_NUMLOCK, and every other key.
unfoldable pub handle_keycode : Driver → Bool → ℕ → Driver
handle_keycode d released code =
    if code == 0x2a || code == 0x36
    then record d { modifiers = held released d.modifiers 1 }
    else (if code == 0x1d
        then record d { modifiers = held released d.modifiers 2 }
        else (if code == 0x38
            then record d { modifiers = held released d.modifiers 4 }
            else (if code == 0x3a
                then record d { modifiers = toggled released d.modifiers 8 }
                else (if code == 0x45
                    then record d { modifiers = toggled released d.modifiers 16 }
                    else queue_event d code (if released then key_release else key_press)))))

-- `keyboard_handle_scancode`, at a byte.
unfoldable pub handle_scancode : Driver → ℕ → Driver
handle_scancode d scancode =
    if scancode == 0xe0
    then record d { extended = true }
    else (let released = leb 0x80 scancode in
        let (code, extended) = scancode_to_keycode d.extended (scancode % 0x80) in
        let d' = record d { extended = extended } in
        if code == 0 then d' else handle_keycode d' released code)

-- `keyboard_init`; registering the handler is outside this model, and the buffer is not cleared.
unfoldable pub init : Driver → Driver
init d = record d { head = 0; tail = 0; modifiers = 0; extended = false }

-- `keyboard_get_event`: the event, if there is one, and the driver afterwards.
unfoldable pub get_event : Driver → Option KeyEvent × Driver
get_event d =
    if d.head == d.tail
    then (none, d)
    else (some (d.buffer d.tail), record d { tail = (d.tail + 1) % buffer_size })

-- `keyboard_get_modifiers`
abbrev pub get_modifiers : Driver → ℕ
get_modifiers d = d.modifiers

-- `keyboard_clear_buffer`
unfoldable pub clear_buffer : Driver → Driver
clear_buffer d = record d { head = 0; tail = 0 }

-- KEY_NUMPAD0 to KEY_NUMPAD9
abbrev pub is_numpad_number : ℕ → Bool
is_numpad_number code =
    code == 0x52
    || (leb 0x4f code && leb code 0x51)
    || (leb 0x4b code && leb code 0x4d)
    || (leb 0x47 code && leb code 0x49)

-- The part of `keyboard_keycode_to_ascii` behind its first test. `none` is a read behind the end of
-- `keycode_to_ascii_shifted`.
unfoldable pub shifted_ascii : ℕ → ℕ → ℕ → Option ℕ
shifted_ascii code mods base =
    if is_numpad_number code && not (has mods 16)
    then some 0
    else (if leb b'a' base && leb base b'z'
        then some (if xor (has mods 1) (has mods 8) then base - 32 else base)
        else (if has mods 1
            then (if ltb code shifted_size
                then some (let c = entry shifted_table code in if c == 0 then base else c)
                else none)
            else some base))

-- `keyboard_keycode_to_ascii`; 0 stands for a key with no character. `none` is a read behind the
-- end of a table, which C leaves undefined.
unfoldable pub keycode_to_ascii : ℕ → ℕ → Option ℕ
keycode_to_ascii code mods =
    if ltb code unshifted_size
    then (let base = entry unshifted_table code in
        if base == 0 then some 0 else shifted_ascii code mods base)
    else none
