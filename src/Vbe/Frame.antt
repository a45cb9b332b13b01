-- ===== src/Vbe/Frame.antt =====
-- What text on the frame buffer of src/kernel/drivers/vbe.c keeps: the cursor inside the screen, and the memory
-- outside the frame buffer.
use os1_meaty_skeleton.Prelude.{ℕ, suc, ◌+◌, ◌*◌, ◌≤◌, ◌<◌, ◌≡◌, ◌⊎◌, inl, inr, refl, arith}
use os1_meaty_skeleton.Prelude.Loops.{for-invariant_zero}
use os1_meaty_skeleton.Str.{Bytes, store}
use os1_meaty_skeleton.Vbe.{Screen, put_pixel, place, draw_row, draw_glyph, clear_line}
use native.Mathlib.Nat.{mul-le-mul_right}

-- The cursor is on the screen, on which the rows and columns of characters fit.
pub record IsScreen (s : Screen) : Type 0 where
  pub col : s.cursor_col < s.max_col
  pub row : s.cursor_row < s.max_row
  pub cols : s.max_col * s.char_width ≤ s.width
  pub rows : s.max_row * s.char_height ≤ s.height
  pub line : s.width * 3 ≤ s.pitch

-- The bytes of the frame buffer.
abbrev pub IsOutside : Screen → ℕ → Type 0
IsOutside s x = (x < s.framebuffer) ⊎ (s.framebuffer + s.pitch * s.height ≤ x)

abbrev pub SameOutside : Screen → Bytes → Bytes → Type 0
SameOutside s m m' = (x : ℕ) → IsOutside s x → m' x ≡ m x

-- A place in a line of the screen.
in_frame :
    (s : Screen) (y offset : ℕ)
    → y < s.height
    → offset < s.pitch
    → place s y offset < s.framebuffer + s.pitch * s.height
in_frame s y offset h k =
    let lines : suc y * s.pitch ≤ s.height * s.pitch = mul-le-mul_right s.pitch (omega arith) in
    omega (arith, lines)

store-SameOutside :
    (s : Screen) (m t : Bytes) (p v : ℕ)
    → s.framebuffer ≤ p
    → p < s.framebuffer + s.pitch * s.height
    → SameOutside s m t
    → SameOutside s m (store t p v)
store-SameOutside s m t p v lo hi same x (inl h) = ground (arith, same x (inl h))
store-SameOutside s m t p v lo hi same x (inr h) = ground (arith, same x (inr h))

put_pixel-SameOutside :
    (s : Screen) (m t : Bytes) (p color : ℕ)
    → s.framebuffer ≤ p
    → p + 2 < s.framebuffer + s.pitch * s.height
    → SameOutside s m t
    → SameOutside s m (put_pixel t p color)
unfolding put_pixel
put_pixel-SameOutside s m t p color lo hi same =
    store-SameOutside s m _ (p + 2) _ (omega arith) hi (
      store-SameOutside s m _ (p + 1) _ (omega arith) (omega arith)
        (store-SameOutside s m t p _ lo (omega arith) same))

draw_row-SameOutside :
    (s : Screen) (m t : Bytes) (glyph i y x : ℕ)
    → y < s.height
    → x * 3 + s.char_width * 3 ≤ s.pitch
    → SameOutside s m t
    → SameOutside s m (draw_row s glyph i y x t)
unfolding draw_row
draw_row-SameOutside s m t glyph i y x h fits same =
    for-invariant_zero (λ k u. SameOutside s m u) (s.char_width * 3) _ t same
      (λ k u less p.
        let inside = in_frame s y (x * 3 + k) h (omega arith) in
        store-SameOutside s m u (place s y (x * 3) + k) _ (omega arith) (omega (arith, inside)) p)

pub draw_glyph-SameOutside :
    (s : Screen) (glyph x y : ℕ)
    → y + s.char_height ≤ s.height
    → x * 3 + s.char_width * 3 ≤ s.pitch
    → SameOutside s s.memory (draw_glyph s glyph x y)
unfolding draw_glyph
draw_glyph-SameOutside s glyph x y h fits =
    for-invariant_zero (λ i u. SameOutside s s.memory u) s.char_height _ s.memory (λ a o. refl)
      (λ i u less p. draw_row-SameOutside s s.memory u glyph i (y + i) x (omega arith) fits p)

pub clear_line-SameOutside :
    (s : Screen) (m t : Bytes) (i : ℕ)
    → i < s.height
    → s.width * 3 ≤ s.pitch
    → SameOutside s m t
    → SameOutside s m (clear_line s i t)
unfolding clear_line
clear_line-SameOutside s m t i h line same =
    for-invariant_zero (λ j u. SameOutside s m u) s.width _ t same
      (λ j u less p.
        let inside = in_frame s i (j * 3 + 2) h (omega arith) in
        put_pixel-SameOutside s m u (place s i (j * 3)) _ (omega arith) (omega (arith, inside)) p)
