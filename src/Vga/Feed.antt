-- ===== src/Vga/Feed.antt =====
-- A full line and a full screen in `vga_put_char` of src/kernel/drivers/vga.c, and whole strings.
use os1_meaty_skeleton.Prelude.{
  ℕ, ◌+◌, ◌*◌, ◌≤◌, ◌<◌, ◌≡◌, inl, inr, refl, ap, ◌∙◌, true, false, Bool-cases, leb, ◌||◌, ◌==◌,
  if◌then◌else◌, arith, List, [], ◌∷◌,
}
use os1_meaty_skeleton.Vga.{
  Screen, Vga, blank, wrap_line, wrap_screen, vga_scroll, scroll_lines, vga_put_char,
  vga_write_string, vga_update_cursor,
}
use os1_meaty_skeleton.Vga.Scroll.{scroll_lines-IsPainted}
use os1_meaty_skeleton.Vga.Page.{Page, wrap, feed, print, print_all, Shows, IsInside}
use os1_meaty_skeleton.Vga.Rows.{IsBehind, put_one-Shows}

wrap_line-Shows :
    (a : ℕ) (p : Page) (v : Vga)
    → Shows a p v
    → IsBehind v
    → Shows a (wrap p) (wrap_line v) × ((wrap_line v).curx < 80) × ((wrap_line v).cury ≤ 25)
unfolding wrap wrap_line
wrap_line-Shows a p v s behind = elim (Bool-cases (leb 80 v.curx)) [
  | inl h ↦
      let full : leb v.screenwidth v.curx ≡ true = ground (arith, s.width) in
      let on_page : leb 80 p.col ≡ true = ground (arith, s.col) in
      rw (full, on_page)
        (
          record {
            width = s.width;
            height = s.height;
            tab = s.tab;
            attr = s.attr;
            cells = s.cells;
            rest = s.rest;
            row = omega (arith, s.row);
            col = refl;
          },
          omega arith,
          ground arith,
        )
  | inr h ↦
      let free : leb v.screenwidth v.curx ≡ false = ground (arith, s.width) in
      let on_page : leb 80 p.col ≡ false = ground (arith, s.col) in
      rw (free, on_page) (s, ground arith, omega arith)
]

scrolled_memory :
    (a : ℕ) (p : Page) (v : Vga)
    → Shows a p v
    → scroll_lines v.screenwidth v.screenheight v.attribute 1 v.memory
      ≡ scroll_lines 80 25 a 1 v.memory
scrolled_memory a p v s =
    ap (λ (w : ℕ). scroll_lines w v.screenheight v.attribute 1 v.memory) s.width
    ∙ (ap (λ (h : ℕ). scroll_lines 80 h v.attribute 1 v.memory) s.height
        ∙ ap (λ (b : ℕ). scroll_lines 80 25 b 1 v.memory) s.attr)

scrolled-rest :
    (a : ℕ) (p : Page) (v : Vga) (j : ℕ)
    → Shows a p v
    → 2000 ≤ j
    → scroll_lines v.screenwidth v.screenheight v.attribute 1 v.memory j ≡ p.behind j
scrolled-rest a p v j s above =
    let (moved, cleared, rest) = scroll_lines-IsPainted a 1 v.memory (omega arith) (omega arith) in
    ap (λ (m : Screen). m j) (scrolled_memory a p v s) ∙ (rest j above ∙ s.rest j above)

scrolled-cells :
    (a : ℕ) (p : Page) (v : Vga) (r x : ℕ)
    → Shows a p v
    → v.cury ≡ 25
    → r < 25
    → x < 80
    → scroll_lines v.screenwidth v.screenheight v.attribute 1 v.memory (r * 80 + x)
      ≡ (if p.top + 1 + r == p.row then blank a else p.lines (p.top + 1 + r) x)
scrolled-cells a p v r x s full rlt xlt =
    let (moved, cleared, rest) = scroll_lines-IsPainted a 1 v.memory (omega arith) (omega arith) in
    ap (λ (m : Screen). m (r * 80 + x)) (scrolled_memory a p v s) ∙ elim (Bool-cases (r == 24)) [
      | inl h ↦
          let lowest : (p.top + 1 + r == p.row) ≡ true = ground (arith, s.row) in
          rw lowest (cleared (r * 80 + x) (ground arith) (ground arith))
      | inr h ↦
          let other : (p.top + 1 + r == p.row) ≡ false = ground (arith, s.row) in
          let up : r < 24 = ground arith in
          rw other (
            moved (r * 80 + x) (omega arith)
            ∙ (ap v.memory (omega arith)
                ∙ (s.cells (r + 1) x (omega arith) xlt
                    ∙ ap (λ (i : ℕ). p.lines i x) (omega arith))))
    ]

-- A screen that scrolls by a line goes on to the next line of the page, which begins blank.
scrolled-Shows :
    (a : ℕ) (p : Page) (v : Vga) → Shows a p v → v.cury ≡ 25 → Shows a (feed p a) (vga_scroll v 1)
unfolding feed vga_scroll vga_update_cursor
scrolled-Shows a p v s full =
    let no_clear : leb v.screenheight 1 ≡ false = ground (arith, s.height) in
    let feeds : leb (p.top + 25) p.row ≡ true = ground (arith, s.row) in
    let moves : leb 1 v.cury ≡ true = ground arith in
    rw (no_clear, feeds, moves)
      (record {
        width = s.width;
        height = s.height;
        tab = s.tab;
        attr = s.attr;
        cells = λ r x rlt xlt. scrolled-cells a p v r x s full rlt xlt;
        rest = λ j above. scrolled-rest a p v j s above;
        row = omega (arith, s.row);
        col = s.col;
      })

scrolled-IsInside :
    (a : ℕ) (p : Page) (v : Vga)
    → Shows a p v
    → v.curx < 80
    → v.cury ≡ 25
    → IsInside (vga_scroll v 1)
unfolding vga_scroll vga_update_cursor
scrolled-IsInside a p v s xlt full =
    let no_clear : leb v.screenheight 1 ≡ false = ground (arith, s.height) in
    let moves : leb 1 v.cury ≡ true = ground arith in rw (no_clear, moves) (xlt, omega arith)

-- Nothing is fed while the cursor is on the screen.
unfed-Shows : (a : ℕ) (p : Page) (v : Vga) → Shows a p v → v.cury < 25 → Shows a (feed p a) v
unfolding feed
unfed-Shows a p v s ylt =
    let room : leb (p.top + 25) p.row ≡ false = ground (arith, s.row) in rw room s

-- The ports are not on the screen.
updated-Shows : (a : ℕ) (p : Page) (v : Vga) → Shows a p v → Shows a p (vga_update_cursor v)
unfolding vga_update_cursor
updated-Shows a p v s = record {
  width = s.width;
  height = s.height;
  tab = s.tab;
  attr = s.attr;
  cells = s.cells;
  rest = s.rest;
  row = s.row;
  col = s.col;
}

wrap_screen-Shows :
    (a : ℕ) (p : Page) (v : Vga)
    → Shows a p v
    → v.curx < 80
    → v.cury ≤ 25
    → Shows a (feed p a) (wrap_screen v) × IsInside (wrap_screen v)
unfolding wrap_screen
wrap_screen-Shows a p v s xlt yle = elim (Bool-cases (leb 25 v.cury)) [
  | inl h ↦
      let full : leb v.screenheight v.cury ≡ true = ground (arith, s.height) in
      rw full (scrolled-Shows a p v s (ground arith), scrolled-IsInside a p v s xlt (ground arith))
  | inr h ↦
      let free : leb v.screenheight v.cury ≡ false = ground (arith, s.height) in
      rw free (unfed-Shows a p v s (ground arith), (xlt, ground arith))
]

-- A character on the screen is a character on the page, and leaves the cursor on the screen.
vga_put_char-Shows :
    (a : ℕ) (p : Page) (v : Vga) (c : ℕ)
    → Shows a p v
    → IsInside v
    → Shows a (print p a c) (vga_put_char v c) × IsInside (vga_put_char v c)
unfolding print vga_put_char vga_update_cursor
vga_put_char-Shows a p v c s (xlt, ylt) =
    let on_screen : leb v.screenwidth v.curx || leb v.screenheight v.cury ≡ false =
      ground (arith, s.width, s.height) in
    let (one, behind) = put_one-Shows a p v c s (xlt, ylt) in
    let (line, x, y) = wrap_line-Shows a _ _ one behind in
    let (screen, inside) = wrap_screen-Shows a _ _ line x y in
    rw on_screen (updated-Shows a _ _ screen, inside)

-- Text that is written to a screen whose cursor stands on it appears on the page without an end of
-- which the screen shows the last lines: a line ends after 80 characters or at a line feed, a tab goes
-- on to the next multiple of 8, and the cursor stays on the screen.
pub vga_write_string-Shows :
    (a : ℕ) (p : Page) (v : Vga) (text : List ℕ)
    → Shows a p v
    → IsInside v
    → Shows a (print_all p a text) (vga_write_string v text) × IsInside (vga_write_string v text)
unfolding print_all vga_write_string
vga_write_string-Shows a p v [] s inside = (s, inside)
vga_write_string-Shows a p v (c ∷ cs) s inside =
    let (next, still) = vga_put_char-Shows a p v c s inside in
    vga_write_string-Shows a (print p a c) (vga_put_char v c) cs next still
