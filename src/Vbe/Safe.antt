-- ===== src/Vbe/Safe.antt =====
-- Text on the frame buffer of src/kernel/drivers/vbe.c leaves the rest of the memory alone.
use os1_meaty_skeleton.Prelude.{
  ℕ, ◌+◌, ◌-◌, ◌*◌, ◌%◌, ◌≤◌, ◌≡◌, inl, inr, refl, ltb, leb, ◌==◌, List, [], ◌∷◌, Bool-cases, arith,
}
use os1_meaty_skeleton.Vbe.Font.{no_glyph}
use os1_meaty_skeleton.Vbe.{
  Screen, glyph_of, draw_char_at, scroll_up, next_row, put_glyph, vbe_putchar,
}
use os1_meaty_skeleton.Vbe.Frame.{IsScreen, SameOutside, draw_glyph-SameOutside}
use os1_meaty_skeleton.Vbe.Follows.{
  Follows, same_screen, with_memory, Follows-trans, IsScreen-Follows, char_fits, scroll_up-Follows,
}

Kept : Screen → Screen → Type 0
Kept s t = Follows s t × IsScreen t

next_row-Kept : (s : Screen) → IsScreen s → Kept s (next_row s)
unfolding next_row Kept
next_row-Kept s w = elim (Bool-cases (ltb s.cursor_row (s.max_row - 1))) [
  | inl y ↦
      let f = with_memory s s.memory 0 (s.cursor_row + 1) (λ x o. refl) in
      rw y (f, IsScreen-Follows s _ w f (omega (arith, w.col)) (ground (arith, y)))
  | inr y ↦
      let up = scroll_up s in
      let f =
        Follows-trans s up _ (scroll_up-Follows s w)
          (with_memory up up.memory 0 (s.max_row - 1) (λ x o. refl)) in
      rw y (
        f,
        IsScreen-Follows s _ w f (omega (arith, f.max_col, w.col))
            (omega (arith, f.max_row, w.row)),
      )
]

draw_char_at-Follows :
    (s : Screen) (c x y : ℕ)
    → y + s.char_height ≤ s.height
    → x * 3 + s.char_width * 3 ≤ s.pitch
    → Follows s (draw_char_at c x y s)
unfolding draw_char_at
draw_char_at-Follows s c x y h fits =
    elim (Bool-cases (glyph_of s.unicode_to_glyph (c % 256) == no_glyph)) [
      | inl e ↦ rw e (same_screen s)
      | inr e ↦ rw e (
          with_memory s _ s.cursor_col s.cursor_row
            (draw_glyph-SameOutside s (glyph_of s.unicode_to_glyph (c % 256)) x y h fits))
    ]

draw_char_at-cursor :
    (s : Screen) (c x y : ℕ)
    → ((draw_char_at c x y s).cursor_col ≡ s.cursor_col)
      × ((draw_char_at c x y s).cursor_row ≡ s.cursor_row)
unfolding draw_char_at
draw_char_at-cursor s c x y =
    elim (Bool-cases (glyph_of s.unicode_to_glyph (c % 256) == no_glyph)) [
      | inl e ↦ rw e (refl, refl)
      | inr e ↦ rw e (refl, refl)
    ]

put_glyph-Kept : (s : Screen) (c : ℕ) → IsScreen s → Kept s (put_glyph c s)
unfolding put_glyph Kept
put_glyph-Kept s c w =
    let t = draw_char_at c (s.cursor_col * s.char_width) (s.cursor_row * s.char_height) s in
    let wide = char_fits s.max_col s.cursor_col s.char_width s.width w.col w.cols in
    let tall = char_fits s.max_row s.cursor_row s.char_height s.height w.row w.rows in
    let f =
      draw_char_at-Follows s c (s.cursor_col * s.char_width) (s.cursor_row * s.char_height) tall
        (omega (arith, wide, w.line)) in
    let (col, row) =
      draw_char_at-cursor s c (s.cursor_col * s.char_width) (s.cursor_row * s.char_height) in
    let v =
      IsScreen-Follows s t w f (omega (arith, f.max_col, col, w.col))
        (omega (arith, f.max_row, row, w.row)) in
    elim (Bool-cases (leb s.max_col (s.cursor_col + 1))) [
      | inl y ↦ let (g, u) = next_row-Kept t v in rw y (Follows-trans s t _ f g, u)
      | inr y ↦
          let g =
            Follows-trans s t _ f
              (with_memory t t.memory (s.cursor_col + 1) t.cursor_row (λ x o. refl)) in
          rw y (
            g,
            IsScreen-Follows s _ w g (ground (arith, y, g.max_col))
                (omega (arith, g.max_row, row, w.row)),
          )
    ]

vbe_putchar-Kept : (s : Screen) (c : ℕ) → IsScreen s → Kept s (vbe_putchar c s)
unfolding vbe_putchar Kept
vbe_putchar-Kept s c w = elim (Bool-cases (c == 0x0a)) [
  | inl y ↦ rw y (next_row-Kept s w)
  | inr y ↦ elim (Bool-cases (c == 0x0d)) [
    | inl z ↦
        let f = with_memory s s.memory 0 s.cursor_row (λ x o. refl) in
        rw (y, z) (f, IsScreen-Follows s _ w f (omega (arith, w.col)) w.row)
    | inr z ↦ rw (y, z) (put_glyph-Kept s c w)
  ]
]

-- The characters of a text, one after the other.
unfoldable pub put_text : List ℕ → Screen → Screen
put_text [] s = s
put_text (c ∷ cs) s = put_text cs (vbe_putchar c s)

put_text-Kept : (cs : List ℕ) (s : Screen) → IsScreen s → Kept s (put_text cs s)
unfolding put_text Kept
put_text-Kept [] s w = (same_screen s, w)
put_text-Kept (c ∷ cs) s w =
    let (f, v) = vbe_putchar-Kept s c w in
    let (g, u) = put_text-Kept cs (vbe_putchar c s) v in
    (Follows-trans s (vbe_putchar c s) _ f g, u)

-- Whatever text is printed with `vbe_putchar`: no byte outside the frame buffer changes, and the cursor
-- stays on a screen on which the rows and columns of characters fit.
pub vbe_putchar-IsScreen :
    (cs : List ℕ) (s : Screen)
    → IsScreen s
    → SameOutside s s.memory (put_text cs s).memory × IsScreen (put_text cs s)
unfolding Kept
vbe_putchar-IsScreen cs s w = let (f, v) = put_text-Kept cs s w in (f.outside, v)
