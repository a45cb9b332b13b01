-- ===== src/Scanf/Tests.antt =====
-- Runs of `kscanf`, and the theorems at concrete inputs.
use os1_meaty_skeleton.Prelude.{ℕ, ◌++◌, ◌≡◌, ◌≢◌, refl, List, [], ◌∷◌, map, some, none, arith}
use os1_meaty_skeleton.Prelude.Int.{ℤ, pos, negsuc}
use os1_meaty_skeleton.Scanf.{
  string, number, skip_space, number_loop, after_prefix, choose_base, read_number, read_sign,
  read_plus, strtol, strtoul, store_number, read_width, read_length, read_string, convert_text,
  convert_string, convert, conversion, scan, kscanf,
}
use os1_meaty_skeleton.Scanf.Integers.{line, format, stored, kscanf-line}
use os1_meaty_skeleton.Scanf.Ends.{kscanf-ne-none}
use os1_meaty_skeleton.Keyboard.{KeyEvent, key_press, key_release, keycode_to_ascii, shifted_ascii}
use os1_meaty_skeleton.Keyboard.Tables.{entry}
use os1_meaty_skeleton.Scanf.Editor.{echo, entered, handle_key, read_input}
use os1_meaty_skeleton.Scanf.Typing.{
  Writes, Commands, Word, nothing, released, written, taken_back, read_input-Word,
}
use os1_meaty_skeleton.Vga.{Vga, Entry, vga_textinfo}

abbrev numbers : List ℤ
numbers = pos 12 ∷ negsuc 6 ∷ []

kscanf-line_example : kscanf (format numbers) (line numbers) ≡ some (pos 2, map stored numbers)
kscanf-line_example = kscanf-line numbers (omega arith)

kscanf-ne-none_example : kscanf (0x25 ∷ 0x78 ∷ []) (0x66 ∷ 0x66 ∷ []) ≢ none
kscanf-ne-none_example = kscanf-ne-none (0x25 ∷ 0x78 ∷ []) (0x66 ∷ 0x66 ∷ [])

-- "%2s%hx" of " abc ff"
kscanf_test :
    kscanf
      (0x25 ∷ 0x32 ∷ 0x73 ∷ 0x25 ∷ 0x68 ∷ 0x78 ∷ [])
      (0x20 ∷ 0x61 ∷ 0x62 ∷ 0x63 ∷ 0x20 ∷ 0x66 ∷ [])
    ≡ some (pos 2, string (0x61 ∷ 0x62 ∷ []) ∷ number 2 0xc ∷ [])
unfolding kscanf scan conversion read_width read_length convert convert_string read_string
    convert_text strtoul read_plus read_number choose_base after_prefix number_loop skip_space
    store_number
kscanf_test = refl

-- Nothing is the end of the input.
eof_test : kscanf (0x25 ∷ 0x64 ∷ []) [] ≡ some (negsuc 0, [])
unfolding kscanf
eof_test = refl

-- A minus sign alone counts as a number.
sign_test : kscanf (0x25 ∷ 0x64 ∷ []) (0x2d ∷ 0x78 ∷ []) ≡ some (pos 1, number 4 0 ∷ [])
unfolding kscanf scan conversion read_width read_length convert convert_text strtol read_sign
    read_number choose_base after_prefix number_loop skip_space store_number
sign_test = refl

abbrev dark : Entry
dark = record { character = 0; attribute = 7 }

abbrev screen : Vga
screen = vga_textinfo (λ j. dark)

abbrev key : ℕ → KeyEvent
key code = record { code = code; type = key_press; modifiers = 0 }

abbrev key_up : KeyEvent
key_up = record { code = 0x1e; type = key_release; modifiers = 0 }

one-Writes : Writes (key 0x02) 0x31
unfolding keycode_to_ascii shifted_ascii entry
one-Writes = record {
  pressed = refl;
  char = refl;
  some_char = refl;
  same_line = refl;
  no_enter = refl;
  no_backspace = refl;
}

enter-Commands : Commands (key 0x1c) 0x1c 0x0a
unfolding keycode_to_ascii shifted_ascii entry
enter-Commands = record { pressed = refl; key = refl; char = refl }

backspace-Commands : Commands (key 0x0e) 0x0e 0x08
unfolding keycode_to_ascii shifted_ascii entry
backspace-Commands = record { pressed = refl; key = refl; char = refl }

-- A `1`, its release, and a second `1` that is taken back.
abbrev typed : List KeyEvent
typed = key 0x02 ∷ key_up ∷ key 0x02 ∷ key 0x0e ∷ []

typed-Word : Word typed (0x31 ∷ [])
typed-Word = written (key 0x02) 0x31 _ [] one-Writes (
    released key_up _ [] refl (
      taken_back (key 0x02) (key 0x0e) 0x31 [] [] [] one-Writes nothing backspace-Commands nothing))

read_input-Word_example :
    (s : Vga) × (read_input (typed ++ (key 0x1c ∷ [])) screen
      ≡ entered (record { buffer = 0x31 ∷ 0x0a ∷ []; screen = s }) [])
read_input-Word_example =
    read_input-Word typed (0x31 ∷ []) (key 0x1c) [] screen typed-Word enter-Commands (omega arith)

-- Backspace on an empty line is a character.
backspace_test :
    handle_key 0x0e 0x08 (record { buffer = []; screen = screen })
    ≡ echo 0x08 (record { buffer = []; screen = screen })
unfolding handle_key
backspace_test = refl
