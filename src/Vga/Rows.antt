-- ===== src/Vga/Rows.antt =====
-- A single character of `vga_put_char` in src/kernel/drivers/vga.c, on the screen and on the page.
use os1_meaty_skeleton.Prelude.{
  ℕ, zero, suc, ◌+◌, ◌-◌, ◌*◌, ◌%◌, ◌≤◌, ◌<◌, ◌≡◌, ◌≢◌, ◌⊎◌, inl, inr, refl, ap, ◌∙◌, true,
  Bool-cases, ltb, ◌&&◌, ◌==◌, arith,
}
use os1_meaty_skeleton.Vga.{Vga, put_here, put_spaces, put_one}
use os1_meaty_skeleton.Vga.Scroll.{put_same, put_other}
use os1_meaty_skeleton.Vga.Page.{Page, cell, put_cell, spaces, print_one, Shows, IsInside}

put_here-cells :
    (a : ℕ) (p : Page) (v : Vga) (c r x : ℕ)
    → Shows a p v
    → r < 25
    → x < 80
    → v.curx < 80
    → (put_here v c).memory (r * 80 + x) ≡ (put_cell p a c).lines (p.top + r) x
unfolding put_here
put_here-cells a p v c r x s rlt xlt inside =
    let at : v.cury * v.screenwidth + v.curx ≡ v.cury * 80 + v.curx =
      ap (λ (w : ℕ). v.cury * w + v.curx) s.width in
    elim (Bool-cases ((p.top + r == p.row) && (x == p.col))) [
      | inl h ↦
          let here : (r ≡ v.cury) × (x ≡ v.curx) = ground (arith, s.row, s.col) in
          rw h (put_same v.memory _ (cell c v.attribute) _ (omega (arith, at)) ∙ ap (cell c) s.attr)
      | inr h ↦
          let there : (r ≢ v.cury) ⊎ (x ≢ v.curx) = ground (arith, s.row, s.col) in
          rw h
            (put_other v.memory _ (cell c v.attribute) _ (omega (arith, at)) ∙ s.cells r x rlt xlt)
    ]

put_here-Shows :
    (a : ℕ) (p : Page) (v : Vga) (c : ℕ)
    → Shows a p v
    → v.curx < 80
    → v.cury < 25
    → Shows a (put_cell p a c) (put_here v c)
unfolding put_here
put_here-Shows a p v c s inside ylt = record {
  width = s.width;
  height = s.height;
  tab = s.tab;
  attr = s.attr;
  cells = λ r x rlt clt. put_here-cells a p v c r x s rlt clt inside;
  rest = λ j above.
      put_other v.memory _ (cell c v.attribute) j
        (omega (arith, ap (λ (w : ℕ). v.cury * w + v.curx) s.width))
      ∙ s.rest j above;
  row = s.row;
  col = omega (arith, s.col);
}

put_spaces-Shows :
    (a n : ℕ) (p : Page) (v : Vga)
    → Shows a p v
    → v.cury < 25
    → v.curx + n ≤ 80
    → Shows a (spaces n p a) (put_spaces n v)
      × ((put_spaces n v).cury ≡ v.cury)
      × ((put_spaces n v).curx ≡ v.curx + n)
unfolding spaces put_spaces put_here
put_spaces-Shows a zero p v s ylt h = (s, refl, omega arith)
put_spaces-Shows a (suc n) p v s ylt h =
    let inside : ltb v.curx v.screenwidth ≡ true = ground (arith, s.width) in
    let (t, y, x) =
      put_spaces-Shows a n (put_cell p a 0x20) (put_here v 0x20)
        (put_here-Shows a p v 0x20 s (omega arith) ylt) ylt (omega arith) in
    rw inside (t, y, omega (arith, x))

-- Where the cursor can be before a full line or a full screen is dealt with.
abbrev pub IsBehind : Vga → Type 0
IsBehind v = ((v.curx ≤ 80) × (v.cury < 25)) ⊎ ((v.curx ≡ 0) × (v.cury ≤ 25))

pub put_one-Shows :
    (a : ℕ) (p : Page) (v : Vga) (c : ℕ)
    → Shows a p v
    → IsInside v
    → Shows a (print_one p a c) (put_one v c) × IsBehind (put_one v c)
unfolding print_one put_one put_here
put_one-Shows a p v c s (xlt, ylt) = elim (Bool-cases (c == 0x0a)) [
  | inl h ↦ rw h (
    record {
      width = s.width;
      height = s.height;
      tab = s.tab;
      attr = s.attr;
      cells = s.cells;
      rest = s.rest;
      row = omega (arith, s.row);
      col = refl;
    },
    inr (refl, omega arith),
  )
  | inr h ↦ elim (Bool-cases (c == 0x09)) [
    | inl k ↦
        let (t, y, x) = put_spaces-Shows a (8 - v.curx % 8) p v s ylt (omega arith) in
        let count : v.tabsize - v.curx % v.tabsize ≡ 8 - v.curx % 8 =
          ap (λ (n : ℕ). n - v.curx % n) s.tab in
        let on_page : 8 - p.col % 8 ≡ 8 - v.curx % 8 = ap (λ (n : ℕ). 8 - n % 8) s.col in
        rw (h, k, count, on_page) (t, inl (omega (arith, x), omega (arith, y)))
    | inr k ↦ rw (h, k) (put_here-Shows a p v c s xlt ylt, inl (omega arith, ylt))
  ]
]
