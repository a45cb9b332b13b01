-- ===== src/Vbe/Tests.antt =====
-- Runs of the text on the frame buffer, and the theorems at concrete inputs.
use os1_meaty_skeleton.Prelude.{ℕ, ◌+◌, ◌-◌, ◌≡◌, ◌<◌, refl, List, [], ◌∷◌, length, get_or, arith}
use os1_meaty_skeleton.Prelude.Loops.{for}
use os1_meaty_skeleton.Str.{Bytes}
use os1_meaty_skeleton.Vbe.{Color, Screen, draw_char_at, draw_glyph, draw_row}
use os1_meaty_skeleton.Vbe.Font.{empty_table, read_utf8, utf8_sequence_length, load_table}
use os1_meaty_skeleton.Vbe.Utf8.{HasBytes, utf8, read_utf8-utf8}
use os1_meaty_skeleton.Vbe.Glyphs.{Glyph, AreGlyphs, encode, sequence_bytes, table_bytes}
use os1_meaty_skeleton.Vbe.Lookup.{IsLookup, first_glyph, load_table-IsLookup}
use os1_meaty_skeleton.Vbe.Frame.{IsScreen, SameOutside}
use os1_meaty_skeleton.Vbe.Safe.{put_text, vbe_putchar-IsScreen}

-- The euro sign, U+20AC, at 0x1000.
abbrev at_1000 : List ℕ → Bytes
at_1000 bytes x = get_or bytes (x - 0x1000) 0

abbrev euro : Bytes
euro = at_1000 (0xe2 ∷ 0x82 ∷ 0xac ∷ [])

euro-HasBytes : HasBytes euro 0x1000 (utf8 0x20ac)
unfolding utf8
euro-HasBytes = omega arith

read_utf8-utf8_example :
    (read_utf8 euro 0x1000 ≡ (0x20ac, 0x1000 + length (utf8 0x20ac)))
    × (utf8_sequence_length (euro 0x1000) ≡ length (utf8 0x20ac))
    × (euro 0x1000 < 0xf8)
read_utf8-utf8_example = read_utf8-utf8 euro 0x1000 0x20ac (omega arith) euro-HasBytes

-- Two glyphs for A; the second one is also that of the euro sign, and of E with an accent in two parts.
abbrev glyphs : List Glyph
glyphs =
    record { codes = 0x41 ∷ []; sequences = [] }
    ∷ record { codes = 0x41 ∷ 0x20ac ∷ []; sequences = (0x45 ∷ 0x301 ∷ []) ∷ [] }
    ∷ []

abbrev font : Bytes
font = at_1000 (0x41 ∷ 0xff ∷ 0x41 ∷ 0xe2 ∷ 0x82 ∷ 0xac ∷ 0xfe ∷ 0x45 ∷ 0xcc ∷ 0x81 ∷ 0xff ∷ [])

font-HasBytes : HasBytes font 0x1000 (table_bytes glyphs)
unfolding table_bytes encode sequence_bytes utf8
font-HasBytes = omega arith

font_size : length (table_bytes glyphs) < 20
unfolding table_bytes encode sequence_bytes utf8
font_size = omega arith

glyphs-AreGlyphs : AreGlyphs glyphs
glyphs-AreGlyphs = omega arith

load_table-IsLookup_example : IsLookup glyphs (load_table 20 font 1 2 0x1000 empty_table)
load_table-IsLookup_example =
    load_table-IsLookup 20 font 0x1000 1 empty_table glyphs font_size (omega arith) glyphs-AreGlyphs
      font-HasBytes refl

lookup_test :
    (first_glyph 0 glyphs 0x41 ≡ 0)
    × (first_glyph 0 glyphs 0x20ac ≡ 1)
    × (first_glyph 0 glyphs 0x45 ≡ 255)
unfolding first_glyph
lookup_test = (refl, refl, refl)

-- A screen of 8 by 4 pixels for characters of 2 by 2.
abbrev black : Color
black = record { r = 0; g = 0; b = 0 }

abbrev small : Screen
small = record {
  memory = λ x. 7;
  framebuffer = 0x1000;
  pitch = 24;
  width = 8;
  height = 4;
  font_bitmap = 0xd1000000;
  bytes_per_glyph = 2;
  num_chars = 256;
  char_width = 2;
  char_height = 2;
  max_col = 4;
  max_row = 2;
  cursor_col = 3;
  cursor_row = 1;
  fg_color = black;
  bg_color = black;
  unicode_to_glyph = λ code. 0;
  prerendered_chars = λ x. 1;
}

small-IsScreen : IsScreen small
small-IsScreen = record {
  col = omega arith;
  row = omega arith;
  cols = omega arith;
  rows = omega arith;
  line = omega arith;
}

vbe_putchar-IsScreen_example :
    SameOutside small small.memory (put_text (0x41 ∷ 0x0a ∷ []) small).memory
    × IsScreen (put_text (0x41 ∷ 0x0a ∷ []) small)
vbe_putchar-IsScreen_example = vbe_putchar-IsScreen (0x41 ∷ 0x0a ∷ []) small small-IsScreen

-- The first byte of the glyph at the left edge of the second row.
draw_test : (draw_char_at 0x41 0 2 small).memory 0x1030 ≡ 1
unfolding draw_char_at draw_glyph draw_row for
draw_test = refl
