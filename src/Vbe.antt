-- ===== src/Vbe.antt =====
-- Text on the frame buffer of src/kernel/drivers/vbe.c, for modes with 24 bits a pixel, and a font whose
-- characters are no larger than the screen. The memory is a function from addresses to bytes;
-- `prerendered_chars` is one by offsets, 384 bytes for each glyph and 24 for each of its rows.
pub mod Font
pub mod Utf8
pub mod Glyphs
pub mod Lookup
pub mod Frame
pub mod Follows
pub mod Safe
mod Tests
use os1_meaty_skeleton.Prelude.{
  ℕ, zero, suc, ◌+◌, ◌-◌, ◌*◌, ◌/◌, ◌%◌, ◌^◌, Bool, true, false, not, ltb, leb, ◌==◌, if◌then◌else◌,
  Option, none, some, bit_or,
}
use os1_meaty_skeleton.Prelude.Loops.{for}
use os1_meaty_skeleton.Disk.{u32_at}
use os1_meaty_skeleton.Str.{Bytes, store, memcpy, memmove}
use os1_meaty_skeleton.Vbe.Font.{Table, no_glyph, load_table}

-- `color_t`
pub record Color : Type 0 where
  pub r : ℕ
  pub g : ℕ
  pub b : ℕ

abbrev pub color_to_uint32 : Color → ℕ
color_to_uint32 c = bit_or (bit_or (c.r * 2 ^ 16) (c.g * 2 ^ 8)) c.b

-- The static variables, the fields of `mode_info` that text uses, and the memory.
pub record Screen : Type 0 where
  pub memory : Bytes
  pub framebuffer : ℕ
  pub pitch : ℕ
  pub width : ℕ
  pub height : ℕ
  pub font_bitmap : ℕ
  pub bytes_per_glyph : ℕ
  pub num_chars : ℕ
  pub char_width : ℕ
  pub char_height : ℕ
  pub max_col : ℕ
  pub max_row : ℕ
  pub cursor_col : ℕ
  pub cursor_row : ℕ
  pub fg_color : Color
  pub bg_color : Color
  pub unicode_to_glyph : Table
  pub prerendered_chars : Bytes

-- `pixel[0]`, `pixel[1]` and `pixel[2]` of a colour.
unfoldable pub put_pixel : Bytes → ℕ → ℕ → Bytes
put_pixel m p color =
    store (store (store m p (color % 256)) (p + 1) (color / 2 ^ 8 % 256)) (p + 2)
      (color / 2 ^ 16 % 256)

-- `vbe_update_prerendered_chars`
unfoldable pub render_row : Screen → ℕ → ℕ → Bytes → Bytes
render_row s glyph i chars =
    let row = s.memory (s.font_bitmap + glyph * s.bytes_per_glyph + i) in
    for s.char_width 0
      (λ j t. put_pixel t (384 * glyph + 24 * i + 3 * j) (
        if row / 2 ^ (7 - j) % 2 == 1
        then color_to_uint32 s.fg_color
        else color_to_uint32 s.bg_color))
      chars

unfoldable pub vbe_update_prerendered_chars : Screen → Screen
vbe_update_prerendered_chars s = record s {
  prerendered_chars =
      for s.num_chars 0 (λ glyph t. for s.char_height 0 (λ i u. render_row s glyph i u) t)
        s.prerendered_chars;
}

abbrev pub vbe_set_fg_color : Color → Screen → Screen
vbe_set_fg_color c s = vbe_update_prerendered_chars (record s { fg_color = c })

abbrev pub vbe_set_bg_color : Color → Screen → Screen
vbe_set_bg_color c s = vbe_update_prerendered_chars (record s { bg_color = c })

abbrev pub vbe_reset_textcolor : Screen → Screen
vbe_reset_textcolor s = vbe_update_prerendered_chars (record s {
  fg_color = record { r = 255; g = 255; b = 255 };
  bg_color = record { r = 0; g = 0; b = 0 };
})

-- The glyph of a character, and that of '?' where it has none.
abbrev pub glyph_of : Table → ℕ → ℕ
glyph_of tab c = if tab c == no_glyph then tab 0x3f else tab c

-- The address of the place `offset` bytes behind the start of the line `y`.
abbrev pub place : Screen → ℕ → ℕ → ℕ
place s y offset = s.framebuffer + y * s.pitch + offset

-- `memcpy` of row `i` of a glyph to the line `y` of the screen.
unfoldable pub draw_row : Screen → ℕ → ℕ → ℕ → ℕ → Bytes → Bytes
draw_row s glyph i y x m =
    for (s.char_width * 3) 0
      (λ k t. store t (place s y (x * 3) + k) (s.prerendered_chars (384 * glyph + 24 * i + k))) m

unfoldable pub draw_glyph : Screen → ℕ → ℕ → ℕ → Bytes
draw_glyph s glyph x y = for s.char_height 0 (λ i m. draw_row s glyph i (y + i) x m) s.memory

-- `draw_char_at`, also `vbe_putchar_at`
unfoldable pub draw_char_at : ℕ → ℕ → ℕ → Screen → Screen
draw_char_at c x y s =
    let glyph = glyph_of s.unicode_to_glyph (c % 256) in
    if glyph == no_glyph then s else record s { memory = draw_glyph s glyph x y }

-- `scroll_up`: the lines move up, and those at the bottom get the background.
unfoldable pub clear_line : Screen → ℕ → Bytes → Bytes
clear_line s i m =
    for s.width 0 (λ j t. put_pixel t (place s i (j * 3)) (color_to_uint32 s.bg_color)) m

unfoldable pub scroll_up : Screen → Screen
scroll_up s =
    let moved =
      memmove s.memory s.framebuffer (s.framebuffer + s.pitch * s.char_height)
        (s.pitch * (s.height - s.char_height)) in
    record s { memory = for s.char_height (s.height - s.char_height) (clear_line s) moved }

-- The start of the next line.
unfoldable pub next_row : Screen → Screen
next_row s =
    if ltb s.cursor_row (s.max_row - 1)
    then record s { cursor_col = 0; cursor_row = s.cursor_row + 1 }
    else record (scroll_up s) { cursor_col = 0; cursor_row = s.max_row - 1 }

-- A character at the cursor, which moves on.
unfoldable pub put_glyph : ℕ → Screen → Screen
put_glyph c s =
    let t = draw_char_at c (s.cursor_col * s.char_width) (s.cursor_row * s.char_height) s in
    if leb s.max_col (s.cursor_col + 1)
    then next_row t
    else record t { cursor_col = s.cursor_col + 1 }

unfoldable pub vbe_putchar : ℕ → Screen → Screen
vbe_putchar c s =
    if c == 0x0a
    then next_row s
    else (if c == 0x0d then record s { cursor_col = 0 } else put_glyph c s)

-- The magic number of the header of a PSF2 font.
abbrev pub magic : ℕ
magic = 0x864ab572

-- The variables that `vbe_load_font` sets from the header, and the copy of the glyphs.
unfoldable pub use_header : ℕ → Screen → Screen
use_header p s =
    let m = s.memory in
    record s {
      memory =
          memcpy m s.font_bitmap (p + u32_at m (p + 8))
            (u32_at m (p + 16) * u32_at m (p + 20) % 2 ^ 32);
      char_height = u32_at m (p + 24);
      char_width = u32_at m (p + 28);
      num_chars = u32_at m (p + 16);
      bytes_per_glyph = u32_at m (p + 20);
      max_col = s.width / u32_at m (p + 28);
      max_row = s.height / u32_at m (p + 24);
    }

-- `vbe_load_font` of the font at `p`; it reads the header and the table behind the copy again.
unfoldable pub vbe_load_font : ℕ → ℕ → Screen → Option Screen
vbe_load_font fuel p s =
    let t = use_header p s in
    let m = t.memory in
    let behind = p + u32_at m (p + 8) + u32_at m (p + 16) * u32_at m (p + 20) in
    let table =
      load_table fuel m (u32_at m (p + 12)) (u32_at m (p + 16)) behind s.unicode_to_glyph in
    if not (u32_at s.memory p == magic)
    then some s
    else elim table [ none ↦ none | some tab ↦ some (record t { unicode_to_glyph = tab }) ]
