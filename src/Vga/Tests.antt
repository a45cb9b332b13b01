-- ===== src/Vga/Tests.antt =====
-- Runs of the text screen, and the theorem at a concrete input.
use os1_meaty_skeleton.Prelude.{ℕ, refl, arith, List, [], ◌∷◌}
use os1_meaty_skeleton.Vga.{Entry, Vga, vga_textinfo, vga_write_string}
use os1_meaty_skeleton.Vga.Page.{Page, Shows, IsInside, print_all}
use os1_meaty_skeleton.Vga.Feed.{vga_write_string-Shows}

abbrev dark : Entry
dark = record { character = 0; attribute = 7 }

abbrev screen : Vga
screen = vga_textinfo (λ j. dark)

-- The screen at the start shows the first lines of an empty page.
abbrev empty_page : Page
empty_page = record { lines = λ r x. dark; top = 0; row = 0; col = 0; behind = λ j. dark }

empty_page-Shows : Shows 7 empty_page screen
empty_page-Shows = record {
  width = refl;
  height = refl;
  tab = refl;
  attr = refl;
  cells = λ r c rlt clt. refl;
  rest = λ j above. refl;
  row = refl;
  col = refl;
}

-- "A", a tab, "B" and a line feed.
abbrev sample : List ℕ
sample = 0x41 ∷ 0x09 ∷ 0x42 ∷ 0x0a ∷ []

vga_write_string-Shows_example :
    Shows 7 (print_all empty_page 7 sample) (vga_write_string screen sample)
    × IsInside (vga_write_string screen sample)
vga_write_string-Shows_example =
    vga_write_string-Shows 7 empty_page screen sample empty_page-Shows (omega arith, omega arith)
