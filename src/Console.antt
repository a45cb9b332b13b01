-- ===== src/Console.antt =====
-- The console of src/kernel/arch/i386/mconio.c: text goes to the screen, and `cprintf` reads colours
-- from escape sequences in it. `buffer` is the list of its bytes, with those behind the terminator.
pub mod Format
pub mod Digits
pub mod Print
pub mod Escapes
pub mod Stops
pub mod Sequence
pub mod Paint
pub mod Styled
pub mod Overrun
mod Tests
use os1_meaty_skeleton.Prelude.{
  ℕ, zero, suc, ◌+◌, ◌-◌, ◌*◌, ◌/◌, ◌%◌, ◌^◌, bit_and, Bool, true, false, ◌||◌, ◌&&◌, ltb, leb,
  ◌==◌, if◌then◌else◌, List, [], ◌∷◌,
}
use os1_meaty_skeleton.Vga.{
  Vga, vga_put_char, vga_write_string, vga_set_textcolor, vga_get_textcolor, vga_clear, vga_gotoxy,
}

-- The variables of the loop over an escape sequence.
pub record Escape : Type 0 where
  pub fg : ℕ
  pub bg : ℕ
  pub num : ℕ
  pub valid : Bool

-- The colours before an escape sequence is read, those of `current_color`.
abbrev pub start_escape : ℕ → Escape
start_escape color = record {
  fg = bit_and color 0x0f;
  bg = bit_and (color / 2 ^ 4) 0x0f;
  num = 0;
  valid = false;
}

abbrev between : ℕ → ℕ → ℕ → Bool
between low high n = leb low n && leb n high

abbrev with_fg : Escape → ℕ → Escape
with_fg e c = record e { fg = c }

abbrev with_bg : Escape → ℕ → Escape
with_bg e c = record e { bg = c }

-- A number that ends, at `;` and at `m`: a colour of the text or of the background, or neither.
unfoldable pub end_number : Escape → Escape
end_number e =
    if between 30 37 e.num
    then with_fg e (e.num - 30)
    else (if between 90 97 e.num
        then with_fg e (e.num - 90 + 8)
        else (if between 40 47 e.num
            then with_bg e (e.num - 40)
            else (if between 100 107 e.num then with_bg e (e.num - 100 + 8) else e)))

-- One turn of the loop over an escape sequence. The number is not bounded, where the `int` of the
-- source would overflow.
unfoldable pub escape_step : ℕ → Escape → Escape
escape_step b e =
    let ended = end_number e in
    if between 0x30 0x39 b
    then record { fg = e.fg; bg = e.bg; num = e.num * 10 + (b - 0x30); valid = true }
    else (if b == 0x3b
        then record { fg = ended.fg; bg = ended.bg; num = 0; valid = e.valid }
        else e)

-- The loop over an escape sequence, up to `m` or the terminator.
unfoldable pub read_escape : List ℕ → Escape → List ℕ × Escape
read_escape [] e = ([], e)
read_escape (b ∷ bs) e =
    let rest = read_escape bs (escape_step b e) in if b == 0x6d || b == 0 then (b ∷ bs, e) else rest

-- What a turn of the loop of `cprintf` leads to: the end, the next byte, or a read behind the buffer.
pub data Step : Type 0 where
  finished : Vga → Step
  next : List ℕ → Vga → Step
  outside : Step

-- `vga_put_char(buffer[i]); i++;`
unfoldable pub put_byte : List ℕ → Vga → Step
put_byte [] v = outside
put_byte (b ∷ bs) v = next bs (vga_put_char v b)

-- The end of an escape sequence: the colours are set, or the byte is skipped and the next printed.
unfoldable pub end_escape : List ℕ → Escape → Vga → Step
end_escape [] e v = outside
end_escape (b ∷ bs) e v =
    if e.valid && b == 0x6d
    then next bs (vga_set_textcolor v (end_number e).fg (end_number e).bg)
    else put_byte bs v

-- What follows the byte ESC.
unfoldable pub escape : ℕ → List ℕ → Vga → Step
escape color [] v = outside
escape color (b ∷ bs) v =
    let read = read_escape bs (start_escape color) in
    if b == 0x5b then end_escape read.0 read.1 v else put_byte (b ∷ bs) v

-- One turn of the loop of `cprintf`.
unfoldable pub cprintf_step : ℕ → List ℕ → Vga → Step
cprintf_step color [] v = outside
cprintf_step color (b ∷ bs) v =
    if b == 0 then finished v else (if b == 0x1b then escape color bs v else put_byte (b ∷ bs) v)

pub data Outcome : Type 0 where
  printed : Vga → Outcome
  overrun : Outcome
  out_of_fuel : Outcome

-- The loop of `cprintf`.
unfoldable pub cprintf_loop : ℕ → ℕ → List ℕ → Vga → Outcome
cprintf_loop zero color bs v = out_of_fuel
cprintf_loop (suc n) color bs v = elim (cprintf_step color bs v) [
  | finished w ↦ printed w
  | next cs w ↦ cprintf_loop n color cs w
  | outside ↦ overrun
]

-- The size of `buffer`.
abbrev pub buffer_size : ℕ
buffer_size = 1024

-- `cprintf`, once the text is in the buffer.
unfoldable pub cprintf_buffer : List ℕ → Vga → Outcome
cprintf_buffer buffer v = cprintf_loop (buffer_size + 1) (vga_get_textcolor v) buffer v

-- `clrscr`, `putchar`, `gotoxy` and the colours.
unfoldable pub clrscr : Vga → Vga
clrscr v = vga_clear v

unfoldable pub putchar : Vga → ℕ → Vga
putchar v c = vga_put_char v c

unfoldable pub gotoxy : Vga → ℕ → ℕ → Vga
gotoxy v x y = vga_gotoxy v x y

unfoldable pub set_textcolor : Vga → ℕ → ℕ → Vga
set_textcolor v fg bg = vga_set_textcolor v fg bg

unfoldable pub get_textcolor : Vga → ℕ
get_textcolor v = vga_get_textcolor v

unfoldable pub get_text_fg_color : Vga → ℕ
get_text_fg_color v = bit_and (vga_get_textcolor v) 0x0f

unfoldable pub get_text_bg_color : Vga → ℕ
get_text_bg_color v = bit_and (vga_get_textcolor v / 2 ^ 4) 0x0f

unfoldable pub set_text_fg_color : Vga → ℕ → Vga
set_text_fg_color v fg = vga_set_textcolor v fg (bit_and (vga_get_textcolor v / 2 ^ 4) 0x0f)

unfoldable pub set_text_bg_color : Vga → ℕ → Vga
set_text_bg_color v bg = vga_set_textcolor v (bit_and (vga_get_textcolor v) 0x0f) bg
