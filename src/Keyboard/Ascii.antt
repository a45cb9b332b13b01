-- ===== src/Keyboard/Ascii.antt =====
-- `keyboard_keycode_to_ascii` of src/kernel/drivers/keyboard.c.
use os1_meaty_skeleton.Prelude.{
  ℕ, ◌-◌, ◌≤◌, ◌<◌, ◌≡◌, refl, true, false, none, some, arith, ltb, leb, ◌==◌, if◌then◌else◌,
  Option, List, [], ◌∷◌, Bool-cases, inl, inr,
}
use mathlib.Core.Bool.{xor}
use os1_meaty_skeleton.Keyboard.{has, is_numpad_number, shifted_ascii, keycode_to_ascii}
use os1_meaty_skeleton.Keyboard.Tables.{unshifted_table, unshifted_size, entry}

-- A key whose character is a letter, and that is no numpad number, gives the upper-case letter
-- exactly when one of Shift and Caps Lock is active, and the lower-case letter otherwise.
letter_case :
    (code mods : ℕ)
    → code < unshifted_size
    → b'a' ≤ entry unshifted_table code
    → entry unshifted_table code ≤ b'z'
    → is_numpad_number code ≡ false
    → keycode_to_ascii code mods
      ≡ some (
          if xor (has mods 1) (has mods 8)
          then entry unshifted_table code - 32
          else entry unshifted_table code)
unfolding keycode_to_ascii shifted_ascii
letter_case code mods inside lo hi key =
    let printable : (entry unshifted_table code == 0) ≡ false = ground arith in
    let range : ltb code unshifted_size ≡ true = ground arith in
    let low : leb b'a' (entry unshifted_table code) ≡ true = ground arith in
    let high : leb (entry unshifted_table code) b'z' ≡ true = ground arith in
    rw (range, printable, key, low, high) refl

-- The space bar and the keys *, +, -, ., / and Enter of the numpad, and the numbers of the numpad.
abbrev pub marks : List ℕ
marks = 0x39 ∷ 0x37 ∷ 0x4e ∷ 0x4a ∷ 0x53 ∷ 0xe035 ∷ 0xe01c ∷ []

abbrev pub numbers : List ℕ
numbers = 0x52 ∷ 0x4f ∷ 0x50 ∷ 0x51 ∷ 0x4b ∷ 0x4c ∷ 0x4d ∷ 0x47 ∷ 0x48 ∷ 0x49 ∷ []

abbrev pub AnswersAll : Option ℕ → ℕ → List ℕ → Type 0
AnswersAll r mods [] = Unit
AnswersAll r mods (code ∷ codes) = (keycode_to_ascii code mods ≡ r) × AnswersAll r mods codes

-- While Shift is held, the code reads behind the end of `keycode_to_ascii_shifted` at the space bar and the keys
-- *, +, -, ., / and Enter of the numpad, whatever other modifiers are active, and at the numbers of the numpad
-- exactly when Num Lock is on; they have no character otherwise.
pub shift_reads_past_end :
    (mods : ℕ)
    → has mods 1 ≡ true
    → AnswersAll none mods marks × AnswersAll (if has mods 16 then none else some 0) mods numbers
unfolding keycode_to_ascii shifted_ascii entry
shift_reads_past_end mods shift = (
  rw shift (refl, (refl, (refl, (refl, (refl, (refl, (refl, tt))))))),
  elim (Bool-cases (has mods 16)) [
    | inl on ↦
        rw (shift, on)
          (refl, (refl, (refl, (refl, (refl, (refl, (refl, (refl, (refl, (refl, tt))))))))))
    | inr off ↦
        rw (shift, off)
          (refl, (refl, (refl, (refl, (refl, (refl, (refl, (refl, (refl, (refl, tt))))))))))
  ],
)
