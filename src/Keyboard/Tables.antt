-- ===== src/Keyboard/Tables.antt =====
-- The lookup tables of src/kernel/drivers/keyboard.c, by the values that
-- src/kernel/include/kernel/drivers/keyboard.h gives the keycodes.
use os1_meaty_skeleton.Prelude.{ℕ, ◌==◌, List, [], ◌∷◌, if◌then◌else◌}

-- `scancode_table[128]`; an entry that the source does not name is 0, KEY_UNKNOWN.
abbrev pub scancode_table : List ℕ
scancode_table =
    0x00 ∷ 0x01 ∷ 0x02 ∷ 0x03 ∷ 0x04 ∷ 0x05 ∷ 0x06 ∷ 0x07 ∷ 0x08 ∷ 0x09 ∷ 0x0a ∷ 0x0b ∷ 0x0c ∷ 0x0d
    ∷ 0x0e ∷ 0x0f ∷ 0x10 ∷ 0x11 ∷ 0x12 ∷ 0x13 ∷ 0x14 ∷ 0x15 ∷ 0x16 ∷ 0x17 ∷ 0x18 ∷ 0x19 ∷ 0x1a
    ∷ 0x1b ∷ 0x1c ∷ 0x1d ∷ 0x1e ∷ 0x1f ∷ 0x20 ∷ 0x21 ∷ 0x22 ∷ 0x23 ∷ 0x24 ∷ 0x25 ∷ 0x26 ∷ 0x27
    ∷ 0x28 ∷ 0x29 ∷ 0x2a ∷ 0x2b ∷ 0x2c ∷ 0x2d ∷ 0x2e ∷ 0x2f ∷ 0x30 ∷ 0x31 ∷ 0x32 ∷ 0x33 ∷ 0x34
    ∷ 0x35 ∷ 0x36 ∷ 0x37 ∷ 0x38 ∷ 0x39 ∷ 0x3a ∷ 0x3b ∷ 0x3c ∷ 0x3d ∷ 0x3e ∷ 0x3f ∷ 0x40 ∷ 0x41
    ∷ 0x42 ∷ 0x43 ∷ 0x44 ∷ 0x45 ∷ 0x46 ∷ 0x47 ∷ 0x48 ∷ 0x49 ∷ 0x4a ∷ 0x4b ∷ 0x4c ∷ 0x4d ∷ 0x4e
    ∷ 0x4f ∷ 0x50 ∷ 0x51 ∷ 0x52 ∷ 0x53 ∷ 0x00 ∷ 0x00 ∷ 0x00 ∷ 0x57 ∷ 0x58 ∷ 0x00 ∷ 0x00 ∷ 0x00
    ∷ 0x00 ∷ 0x00 ∷ 0x00 ∷ 0x00 ∷ 0x00 ∷ 0x00 ∷ 0x00 ∷ 0x00 ∷ 0x00 ∷ 0x00 ∷ 0x00 ∷ 0x00 ∷ 0x00
    ∷ 0x00 ∷ 0x00 ∷ 0x00 ∷ 0x00 ∷ 0x00 ∷ 0x00 ∷ 0x00 ∷ 0x00 ∷ 0x00 ∷ 0x00 ∷ 0x00 ∷ 0x00 ∷ 0x00
    ∷ 0x00 ∷ 0x00 ∷ 0x00 ∷ 0x00 ∷ 0x00 ∷ 0x00 ∷ 0x00 ∷ 0x00 ∷ 0x00 ∷ 0x00 ∷ []

-- The cases of the switch on an extended scancode.
abbrev pub extended_table : List (ℕ × ℕ)
extended_table =
    (0x1c, 0xe01c)
    ∷ (0x35, 0xe035)
    ∷ (0x37, 0xe037)
    ∷ (0x45, 0xe045)
    ∷ (0x47, 0xe047)
    ∷ (0x48, 0xe048)
    ∷ (0x49, 0xe049)
    ∷ (0x4b, 0xe04b)
    ∷ (0x4d, 0xe04d)
    ∷ (0x4f, 0xe04f)
    ∷ (0x50, 0xe050)
    ∷ (0x51, 0xe051)
    ∷ (0x52, 0xe052)
    ∷ (0x53, 0xe053)
    ∷ (0x20, 0xe020)
    ∷ (0x2e, 0xe02e)
    ∷ (0x30, 0xe030)
    ∷ (0x6d, 0xe06d)
    ∷ (0x6f, 0xe06f)
    ∷ []

-- `keycode_to_ascii_unshifted`: keycode and character.
abbrev pub unshifted_table : List (ℕ × ℕ)
unshifted_table =
    (0x1e, 97)
    ∷ (0x30, 98)
    ∷ (0x2e, 99)
    ∷ (0x20, 100)
    ∷ (0x12, 101)
    ∷ (0x21, 102)
    ∷ (0x22, 103)
    ∷ (0x23, 104)
    ∷ (0x17, 105)
    ∷ (0x24, 106)
    ∷ (0x25, 107)
    ∷ (0x26, 108)
    ∷ (0x32, 109)
    ∷ (0x31, 110)
    ∷ (0x18, 111)
    ∷ (0x19, 112)
    ∷ (0x10, 113)
    ∷ (0x13, 114)
    ∷ (0x1f, 115)
    ∷ (0x14, 116)
    ∷ (0x16, 117)
    ∷ (0x2f, 118)
    ∷ (0x11, 119)
    ∷ (0x2d, 120)
    ∷ (0x15, 121)
    ∷ (0x2c, 122)
    ∷ (0xb, 48)
    ∷ (0x2, 49)
    ∷ (0x3, 50)
    ∷ (0x4, 51)
    ∷ (0x5, 52)
    ∷ (0x6, 53)
    ∷ (0x7, 54)
    ∷ (0x8, 55)
    ∷ (0x9, 56)
    ∷ (0xa, 57)
    ∷ (0x39, 32)
    ∷ (0x1c, 10)
    ∷ (0xe, 8)
    ∷ (0xf, 9)
    ∷ (0xc, 45)
    ∷ (0xd, 61)
    ∷ (0x1a, 91)
    ∷ (0x1b, 93)
    ∷ (0x27, 59)
    ∷ (0x28, 39)
    ∷ (0x29, 96)
    ∷ (0x33, 44)
    ∷ (0x34, 46)
    ∷ (0x35, 47)
    ∷ (0x2b, 92)
    ∷ (0x52, 48)
    ∷ (0x4f, 49)
    ∷ (0x50, 50)
    ∷ (0x51, 51)
    ∷ (0x4b, 52)
    ∷ (0x4c, 53)
    ∷ (0x4d, 54)
    ∷ (0x47, 55)
    ∷ (0x48, 56)
    ∷ (0x49, 57)
    ∷ (0x37, 42)
    ∷ (0x4e, 43)
    ∷ (0x4a, 45)
    ∷ (0x53, 46)
    ∷ (0xe035, 47)
    ∷ (0xe01c, 10)
    ∷ []

-- `keycode_to_ascii_shifted`.
abbrev pub shifted_table : List (ℕ × ℕ)
shifted_table =
    (0xb, 41)
    ∷ (0x2, 33)
    ∷ (0x3, 64)
    ∷ (0x4, 35)
    ∷ (0x5, 36)
    ∷ (0x6, 37)
    ∷ (0x7, 94)
    ∷ (0x8, 38)
    ∷ (0x9, 42)
    ∷ (0xa, 40)
    ∷ (0xc, 95)
    ∷ (0xd, 43)
    ∷ (0x1a, 123)
    ∷ (0x1b, 125)
    ∷ (0x27, 58)
    ∷ (0x28, 34)
    ∷ (0x29, 126)
    ∷ (0x33, 60)
    ∷ (0x34, 62)
    ∷ (0x35, 63)
    ∷ (0x2b, 124)
    ∷ []

-- The arrays end behind the highest index that they name: KEY_NUMPAD_DIVIDE and KEY_SLASH.
abbrev pub unshifted_size : ℕ
unshifted_size = 0xe036

abbrev pub shifted_size : ℕ
shifted_size = 0x36

-- The entry of a table: 0 where it names none.
unfoldable pub entry : List (ℕ × ℕ) → ℕ → ℕ
entry [] k = 0
entry ((j, v) ∷ t) k = if j == k then v else entry t k

-- The values of `enum keycode`, in the order of the source.
abbrev pub keycodes : List ℕ
keycodes =
    0 ∷ 0x1e ∷ 0x30 ∷ 0x2e ∷ 0x20 ∷ 0x12 ∷ 0x21 ∷ 0x22 ∷ 0x23 ∷ 0x17 ∷ 0x24 ∷ 0x25 ∷ 0x26 ∷ 0x32
    ∷ 0x31 ∷ 0x18 ∷ 0x19 ∷ 0x10 ∷ 0x13 ∷ 0x1f ∷ 0x14 ∷ 0x16 ∷ 0x2f ∷ 0x11 ∷ 0x2d ∷ 0x15 ∷ 0x2c
    ∷ 0x0b ∷ 0x02 ∷ 0x03 ∷ 0x04 ∷ 0x05 ∷ 0x06 ∷ 0x07 ∷ 0x08 ∷ 0x09 ∷ 0x0a ∷ 0x3b ∷ 0x3c ∷ 0x3d
    ∷ 0x3e ∷ 0x3f ∷ 0x40 ∷ 0x41 ∷ 0x42 ∷ 0x43 ∷ 0x44 ∷ 0x57 ∷ 0x58 ∷ 0x2a ∷ 0x36 ∷ 0x1d ∷ 0x38
    ∷ 0x3a ∷ 0x45 ∷ 0xe048 ∷ 0xe050 ∷ 0xe04b ∷ 0xe04d ∷ 0xe047 ∷ 0xe04f ∷ 0xe052 ∷ 0xe053 ∷ 0xe049
    ∷ 0xe051 ∷ 0x1c ∷ 0x39 ∷ 0x0e ∷ 0x0f ∷ 0x01 ∷ 0x0c ∷ 0x0d ∷ 0x1a ∷ 0x1b ∷ 0x27 ∷ 0x28 ∷ 0x29
    ∷ 0x33 ∷ 0x34 ∷ 0x35 ∷ 0x2b ∷ 0x52 ∷ 0x4f ∷ 0x50 ∷ 0x51 ∷ 0x4b ∷ 0x4c ∷ 0x4d ∷ 0x47 ∷ 0x48
    ∷ 0x49 ∷ 0x37 ∷ 0x4e ∷ 0x4a ∷ 0x53 ∷ 0xe035 ∷ 0xe01c ∷ 0xe037 ∷ 0x46 ∷ 0xe045 ∷ 0xe030 ∷ 0xe02e
    ∷ 0xe020 ∷ 0xe06f ∷ 0xe06d ∷ []
