-- ===== src/Vga.antt =====
-- The text screen of src/kernel/drivers/vga.c. The memory of the screen is a function from indices to
-- entries, and the writes to ports are kept in a list, the last one first.
pub mod Scroll
pub mod Page
pub mod Rows
pub mod Feed
mod Tests
use os1_meaty_skeleton.Prelude.{
  ℕ, zero, suc, ◌+◌, ◌-◌, ◌*◌, ◌/◌, ◌%◌, ◌^◌, bit_and, bit_or, Bool, ◌||◌, ◌&&◌, ltb, leb, ◌==◌,
  if◌then◌else◌, List, [], ◌∷◌,
}
use os1_meaty_skeleton.Prelude.Loops.{for}

-- `VGA_MEMORY_ENTRY`
pub record Entry : Type 0 where
  pub character : ℕ
  pub attribute : ℕ

abbrev pub Screen : Type 0
Screen = ℕ → Entry

-- `VGA_TEXTINFO`, with the memory at 0xB8000 and the ports.
pub record Vga : Type 0 where
  pub attribute : ℕ
  pub normattr : ℕ
  pub screenheight : ℕ
  pub screenwidth : ℕ
  pub curx : ℕ
  pub cury : ℕ
  pub tabsize : ℕ
  pub memory : Screen
  pub ports : List (ℕ × ℕ)

-- `vga_textinfo` as it is initialised.
abbrev pub vga_textinfo : Screen → Vga
vga_textinfo memory = record {
  attribute = 7;
  normattr = 7;
  screenheight = 25;
  screenwidth = 80;
  curx = 0;
  cury = 0;
  tabsize = 8;
  memory = memory;
  ports = [];
}

abbrev pub with_memory : Vga → Screen → Vga
with_memory v m = record v { memory = m }

abbrev pub at_cursor : Vga → ℕ → ℕ → Vga
at_cursor v x y = record v { curx = x; cury = y }

abbrev pub with_attribute : Vga → ℕ → Vga
with_attribute v a = record v { attribute = a }

abbrev pub outb : ℕ → ℕ → Vga → Vga
outb port value v = record v { ports = (port, value) ∷ v.ports }

unfoldable pub put_entry : Screen → ℕ → Entry → Screen
put_entry m i e j = if j == i then e else m j

abbrev pub blank : ℕ → Entry
blank a = record { character = 0x20; attribute = a }

-- The index of a place on the screen.
abbrev pub place : Vga → ℕ → ℕ → ℕ
place v x y = y * v.screenwidth + x

-- `vga_get_char_at`
unfoldable pub vga_get_char_at : Vga → ℕ → ℕ → ℕ × ℕ
vga_get_char_at v x y = ((v.memory (place v x y)).character, (v.memory (place v x y)).attribute)

-- `vga_put_char_at`
unfoldable pub vga_put_char_at : Vga → ℕ → ℕ → ℕ → ℕ → Vga
vga_put_char_at v x y ch attrib =
    with_memory v (put_entry v.memory (place v x y) (record { character = ch; attribute = attrib }))

-- `vga_update_cursor`
unfoldable pub vga_update_cursor : Vga → Vga
vga_update_cursor v =
    let pos = (v.cury * v.screenwidth + v.curx) % 0x10000 in
    outb 0x3d5 (bit_and (pos / 2 ^ 8) 0xff)
      (outb 0x3d4 0x0e (outb 0x3d5 (bit_and pos 0xff) (outb 0x3d4 0x0f v)))

-- `vga_hide_cursor` and `vga_show_cursor`
unfoldable pub vga_hide_cursor : Vga → Vga
vga_hide_cursor v = outb 0x3d5 0x20 (outb 0x3d4 0x0a v)

unfoldable pub vga_show_cursor : Vga → Vga
vga_show_cursor v = outb 0x3d5 0x06 (outb 0x3d4 0x0a v)

-- `vga_gotoxy`
unfoldable pub vga_gotoxy : Vga → ℕ → ℕ → Vga
vga_gotoxy v x y = vga_update_cursor (at_cursor v x y)

-- One line of the screen in the loops of `vga_scroll` and `vga_clear`.
unfoldable pub move_line : ℕ → ℕ → ℕ → Screen → Screen
move_line width step y m =
    for width 0 (λ x m. put_entry m ((y - step) * width + x) (m (y * width + x))) m

unfoldable pub clear_line : ℕ → ℕ → ℕ → Screen → Screen
clear_line width a y m = for width 0 (λ x m. put_entry m (y * width + x) (blank a)) m

-- `vga_clear`
unfoldable pub vga_clear : Vga → Vga
vga_clear v =
    let cleared = for v.screenheight 0 (λ y m. clear_line v.screenwidth v.attribute y m) v.memory in
    vga_update_cursor (at_cursor (with_memory v cleared) 0 0)

-- The two loops of `vga_scroll`.
unfoldable pub scroll_lines : ℕ → ℕ → ℕ → ℕ → Screen → Screen
scroll_lines width height a step m =
    let moved = for (height - step) step (λ y m. move_line width step y m) m in
    for step (height - step) (λ y m. clear_line width a y m) moved

-- `vga_scroll`
unfoldable pub vga_scroll : Vga → ℕ → Vga
vga_scroll v step =
    if leb v.screenheight step
    then vga_clear v
    else (let scrolled = scroll_lines v.screenwidth v.screenheight v.attribute step v.memory in
        vga_update_cursor (
          at_cursor (with_memory v scrolled) v.curx (if leb step v.cury then v.cury - step else 0)))

-- A character where the cursor is, which goes on by one.
unfoldable pub put_here : Vga → ℕ → Vga
put_here v c =
    at_cursor
      (with_memory v (
        put_entry v.memory (place v v.curx v.cury)
          (record { character = c; attribute = v.attribute })))
      (v.curx + 1) v.cury

-- The loop over the spaces of a tab.
unfoldable pub put_spaces : ℕ → Vga → Vga
put_spaces zero v = v
put_spaces (suc n) v =
    let rest = put_spaces n (put_here v 0x20) in if ltb v.curx v.screenwidth then rest else v

-- The three cases of `vga_put_char`.
unfoldable pub put_one : Vga → ℕ → Vga
put_one v c =
    if c == 0x0a
    then at_cursor v 0 (v.cury + 1)
    else (if c == 0x09 then put_spaces (v.tabsize - v.curx % v.tabsize) v else put_here v c)

-- The end of `vga_put_char`: the line and the screen may be full.
unfoldable pub wrap_line : Vga → Vga
wrap_line v = if leb v.screenwidth v.curx then at_cursor v 0 (v.cury + 1) else v

unfoldable pub wrap_screen : Vga → Vga
wrap_screen v = if leb v.screenheight v.cury then vga_scroll v 1 else v

-- `vga_put_char`
unfoldable pub vga_put_char : Vga → ℕ → Vga
vga_put_char v c =
    if leb v.screenwidth v.curx || leb v.screenheight v.cury
    then v
    else vga_update_cursor (wrap_screen (wrap_line (put_one v c)))

-- `vga_write_string`, on the characters up to the terminator.
unfoldable pub vga_write_string : Vga → List ℕ → Vga
vga_write_string v [] = v
vga_write_string v (c ∷ cs) = vga_write_string (vga_put_char v c) cs

-- The colours and the size of a tab.
unfoldable pub vga_reset_textcolor : Vga → Vga
vga_reset_textcolor v = with_attribute v v.normattr

unfoldable pub vga_set_textcolor : Vga → ℕ → ℕ → Vga
vga_set_textcolor v fg bg = with_attribute v (bit_or (bg * 2 ^ 4 % 0x100) (bit_and fg 0x0f))

unfoldable pub vga_get_textcolor : Vga → ℕ
vga_get_textcolor v = v.attribute

abbrev pub with_tabsize : Vga → ℕ → Vga
with_tabsize v size = record v { tabsize = size }

-- `vga_set_tabsize` and `vga_get_tabsize`
unfoldable pub vga_set_tabsize : Vga → ℕ → Vga
vga_set_tabsize v size = with_tabsize v size

unfoldable pub vga_get_tabsize : Vga → ℕ
vga_get_tabsize v = v.tabsize

-- `vga_get_cursor`
unfoldable pub vga_get_cursor : Vga → ℕ × ℕ
vga_get_cursor v = (v.curx, v.cury)
