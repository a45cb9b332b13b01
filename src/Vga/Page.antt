-- ===== src/Vga/Page.antt =====
-- The screen of src/kernel/drivers/vga.c as the last 25 lines of a page without an end.
use os1_meaty_skeleton.Prelude.{
  ℕ, zero, suc, ◌+◌, ◌-◌, ◌*◌, ◌%◌, ◌≤◌, ◌<◌, ◌≡◌, leb, ◌&&◌, ◌==◌, if◌then◌else◌, List, [], ◌∷◌,
}
use os1_meaty_skeleton.Vga.{Entry, Screen, Vga, blank}

-- The lines of the page, the first that the screen shows, where the next character goes, and the
-- memory behind the screen, on which nothing is printed.
pub record Page : Type 0 where
  pub lines : ℕ → ℕ → Entry
  pub top : ℕ
  pub row : ℕ
  pub col : ℕ
  pub behind : Screen

abbrev pub cell : ℕ → ℕ → Entry
cell c a = record { character = c; attribute = a }

-- A character at the end of what was written on the line.
abbrev pub put_cell : Page → ℕ → ℕ → Page
put_cell p a c = record {
  lines = λ r x. if r == p.row && x == p.col then cell c a else p.lines r x;
  top = p.top;
  row = p.row;
  col = p.col + 1;
  behind = p.behind;
}

abbrev pub new_line : Page → Page
new_line p = record { lines = p.lines; top = p.top; row = p.row + 1; col = 0; behind = p.behind }

-- `n` spaces.
unfoldable pub spaces : ℕ → Page → ℕ → Page
spaces zero p a = p
spaces (suc n) p a = spaces n (put_cell p a 0x20) a

-- A line is full with 80 characters.
unfoldable pub wrap : Page → Page
wrap p = if leb 80 p.col then new_line p else p

-- A line that the screen has no room for begins blank, and the screen goes on to it.
unfoldable pub feed : Page → ℕ → Page
feed p a =
    if leb (p.top + 25) p.row
    then record {
      lines = λ r x. if r == p.row then blank a else p.lines r x;
      top = p.top + 1;
      row = p.row;
      col = p.col;
      behind = p.behind;
    }
    else p

-- A character on the page: a line feed begins a new line, a tab goes on to the next multiple of 8.
unfoldable pub print_one : Page → ℕ → ℕ → Page
print_one p a c =
    if c == 0x0a
    then new_line p
    else (if c == 0x09 then spaces (8 - p.col % 8) p a else put_cell p a c)

unfoldable pub print : Page → ℕ → ℕ → Page
print p a c = feed (wrap (print_one p a c)) a

unfoldable pub print_all : Page → ℕ → List ℕ → Page
print_all p a [] = p
print_all p a (c ∷ cs) = print_all (print p a c) a cs

-- The screen shows the page; the cursor may stand behind the last place.
pub record Shows (a : ℕ) (p : Page) (v : Vga) : Type 0 where
  pub width : v.screenwidth ≡ 80
  pub height : v.screenheight ≡ 25
  pub tab : v.tabsize ≡ 8
  pub attr : v.attribute ≡ a
  pub cells : (r c : ℕ) → r < 25 → c < 80 → v.memory (r * 80 + c) ≡ p.lines (p.top + r) c
  pub rest : (j : ℕ) → 2000 ≤ j → v.memory j ≡ p.behind j
  pub row : p.row ≡ p.top + v.cury
  pub col : p.col ≡ v.curx

-- The cursor is on the screen.
abbrev pub IsInside : Vga → Type 0
IsInside v = (v.curx < 80) × (v.cury < 25)
