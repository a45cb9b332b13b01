-- ===== src/Vbe/Follows.antt =====
-- What scrolling in src/kernel/drivers/vbe.c leaves as it was.
use os1_meaty_skeleton.Prelude.{
  ℕ, suc, ◌+◌, ◌-◌, ◌*◌, ◌≤◌, ◌<◌, ◌≡◌, inl, inr, refl, ap₂, subst, ◌∙◌, arith,
}
use os1_meaty_skeleton.Prelude.Loops.{for-invariant}
use os1_meaty_skeleton.Str.{Bytes, memmove}
use os1_meaty_skeleton.Str.Move.{memmove-moved}
use os1_meaty_skeleton.Vbe.{Screen, clear_line, scroll_up}
use os1_meaty_skeleton.Vbe.Frame.{IsScreen, IsOutside, SameOutside, clear_line-SameOutside}
use native.Mathlib.Nat.{mul-le-mul_right}

-- A state behind `s`: the frame buffer, the font and the size of the screen are those of `s`, and the memory
-- outside the frame buffer is.
pub record Follows (s t : Screen) : Type 0 where
  pub framebuffer : t.framebuffer ≡ s.framebuffer
  pub pitch : t.pitch ≡ s.pitch
  pub width : t.width ≡ s.width
  pub height : t.height ≡ s.height
  pub char_width : t.char_width ≡ s.char_width
  pub char_height : t.char_height ≡ s.char_height
  pub max_col : t.max_col ≡ s.max_col
  pub max_row : t.max_row ≡ s.max_row
  pub outside : SameOutside s s.memory t.memory

pub same_screen : (s : Screen) → Follows s s
same_screen s = record {
  framebuffer = refl;
  pitch = refl;
  width = refl;
  height = refl;
  char_width = refl;
  char_height = refl;
  max_col = refl;
  max_row = refl;
  outside = λ x o. refl;
}

-- Another memory and another cursor.
pub with_memory :
    (s : Screen) (m : Bytes) (col row : ℕ)
    → SameOutside s s.memory m
    → Follows s (record s { memory = m; cursor_col = col; cursor_row = row })
with_memory s m col row same = record {
  framebuffer = refl;
  pitch = refl;
  width = refl;
  height = refl;
  char_width = refl;
  char_height = refl;
  max_col = refl;
  max_row = refl;
  outside = same;
}

pub IsOutside-Follows : (s t : Screen) (x : ℕ) → Follows s t → IsOutside s x → IsOutside t x
IsOutside-Follows s t x f (inl h) = inl (omega (arith, f.framebuffer))
IsOutside-Follows s t x f (inr h) = inr (
    subst (λ p. p + t.pitch * t.height ≤ x) (omega (arith, f.framebuffer))
      (subst (λ p. s.framebuffer + p * t.height ≤ x) (omega (arith, f.pitch))
        (subst (λ p. s.framebuffer + s.pitch * p ≤ x) (omega (arith, f.height)) h)))

pub Follows-trans : (s t u : Screen) → Follows s t → Follows t u → Follows s u
Follows-trans s t u f g = record {
  framebuffer = g.framebuffer ∙ f.framebuffer;
  pitch = g.pitch ∙ f.pitch;
  width = g.width ∙ f.width;
  height = g.height ∙ f.height;
  char_width = g.char_width ∙ f.char_width;
  char_height = g.char_height ∙ f.char_height;
  max_col = g.max_col ∙ f.max_col;
  max_row = g.max_row ∙ f.max_row;
  outside = λ x o. g.outside x (IsOutside-Follows s t x f o) ∙ f.outside x o;
}

pub IsScreen-Follows :
    (s t : Screen)
    → IsScreen s
    → Follows s t
    → t.cursor_col < t.max_col
    → t.cursor_row < t.max_row
    → IsScreen t
IsScreen-Follows s t w f col row = record {
  col = col;
  row = row;
  cols = omega (arith, ap₂ ◌*◌ f.max_col f.char_width, f.width, w.cols);
  rows = omega (arith, ap₂ ◌*◌ f.max_row f.char_height, f.height, w.rows);
  line = omega (arith, f.width, f.pitch, w.line);
}

-- The characters in a row are no wider than a line, and the rows no higher than the screen.
pub char_fits : (n k size total : ℕ) → k < n → n * size ≤ total → k * size + size ≤ total
char_fits n k size total h fits =
    let next : suc k * size ≤ n * size = mul-le-mul_right size (omega arith) in omega (arith, next)

pub scroll_up-SameOutside :
    (s : Screen)
    → s.char_height ≤ s.height
    → s.width * 3 ≤ s.pitch
    → SameOutside s s.memory (scroll_up s).memory
unfolding scroll_up
scroll_up-SameOutside s h line =
    for-invariant (λ k u. SameOutside s s.memory u) s.char_height (s.height - s.char_height)
      (clear_line s) _ moved
      (λ k u less p.
        clear_line-SameOutside s s.memory u (s.height - s.char_height + k) (omega arith) line p)
  where
    size : ℕ
    size = s.pitch * (s.height - s.char_height)

    lines : (s.height - s.char_height) * s.pitch ≤ s.height * s.pitch
    lines = mul-le-mul_right s.pitch (omega arith)

    moved : SameOutside s s.memory (
        memmove s.memory s.framebuffer
          (s.framebuffer + s.pitch * s.char_height)
          (s.pitch * (s.height - s.char_height)))
    moved x (inl o) =
        memmove-moved s.memory s.framebuffer (s.framebuffer + s.pitch * s.char_height) size x
        ∙ ground arith
    moved x (inr o) =
        memmove-moved s.memory s.framebuffer (s.framebuffer + s.pitch * s.char_height) size x
        ∙ ground (arith, lines)

pub scroll_up-Follows : (s : Screen) → IsScreen s → Follows s (scroll_up s)
unfolding scroll_up
scroll_up-Follows s w =
    let tall = char_fits s.max_row s.cursor_row s.char_height s.height w.row w.rows in
    with_memory s _ s.cursor_col s.cursor_row (scroll_up-SameOutside s (omega (arith, tall)) w.line)
