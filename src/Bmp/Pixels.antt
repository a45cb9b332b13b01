-- ===== src/Bmp/Pixels.antt =====
-- Which pixels `read_bmp` of src/kernel/utils/bmp.c writes.
use os1_meaty_skeleton.Prelude.{
  ℕ, suc, ◌+◌, ◌-◌, ◌*◌, ◌/◌, ◌%◌, ◌^◌, ◌≤◌, ◌<◌, ◌≡◌, ◌⊎◌, refl, ap, ap₂, Bool, true, false, ◌==◌,
  if◌then◌else◌, Bool-cases, inl, inr, arith, ltb, Option, none, some,
}
use os1_meaty_skeleton.Prelude.Loops.{for-invariant_zero}
use os1_meaty_skeleton.Bmp.{
  Bytes, Pixel, Header, is_negative, abs_height, src_y, bytes_per_pixel, padded_row_size,
  pixel_address, pixel_at, read_pixel, set_pixel, copy_pixel, read_row, read_rows,
}
use native.Mathlib.Nat.{mul-le-mul_right}

-- The pixel that the loop reads.
abbrev pub pixel_of : Bytes → Header → ℕ → ℕ → Pixel
pixel_of buffer h y x = pixel_at buffer (bytes_per_pixel h) (pixel_address h y x)

-- The pixel in line `y` and column `x` of a file: lines are filled up to four bytes, and stand in the file
-- from the bottom to the top unless the height is negative.
abbrev pub line_bytes : Header → ℕ
line_bytes h = (h.width * (h.bpp / 8) + 3) / 4 * 4

abbrev pub file_pixel : Bytes → Header → ℕ → ℕ → Pixel
file_pixel buffer h y x =
    let line = if is_negative h.height then y else abs_height h - 1 - y in
    let p = h.data_offset + line * line_bytes h + x * (h.bpp / 8) in
    record {
      blue = buffer p;
      green = buffer (p + 1);
      red = buffer (p + 2);
      alpha = if h.bpp == 32 then buffer (p + 3) else 255;
    }

abbrev pub IsDepth : Header → Type 0
IsDepth h = (h.bpp ≡ 24) ⊎ (h.bpp ≡ 32)

padded_row :
    (r : ℕ)
    → (r + 3) / 4 * 4 < 2 ^ 32
    → (r % 2 ^ 32 + (4 - r % 2 ^ 32 % 4) % 4) % 2 ^ 32 ≡ (r + 3) / 4 * 4
padded_row r h = omega arith

-- The address arithmetic of the source does not wrap.
pixel_address-plain :
    (h : Header) (y x : ℕ)
    → abs_height h * line_bytes h < 2 ^ 32
    → y < abs_height h
    → x < h.width
    → pixel_address h y x ≡ h.data_offset + src_y h y * line_bytes h + x * (h.bpp / 8)
pixel_address-plain h y x small inside_y inside_x =
    let inside : src_y h y < abs_height h = ground arith in
    let all : src_y h y * line_bytes h ≤ abs_height h * line_bytes h =
      mul-le-mul_right (line_bytes h) (omega (arith, inside)) in
    let one : 1 * line_bytes h ≤ abs_height h * line_bytes h =
      mul-le-mul_right (line_bytes h) (omega (arith, inside)) in
    let column : x * (h.bpp / 8) ≤ h.width * (h.bpp / 8) =
      mul-le-mul_right (h.bpp / 8) (omega arith) in
    let padded : padded_row_size h ≡ line_bytes h =
      padded_row (h.width * (h.bpp / 8)) (omega (arith, one)) in
    let line : src_y h y * padded_row_size h ≡ src_y h y * line_bytes h =
      ap (λ (t : ℕ). src_y h y * t) padded in
    omega (arith, line, all, one, column)

-- The whole of a pixel is in the lines of the image.
pixel_address-inside :
    (h : Header) (y x : ℕ)
    → abs_height h * line_bytes h < 2 ^ 32
    → y < abs_height h
    → x < h.width
    → pixel_address h y x + bytes_per_pixel h ≤ h.data_offset + abs_height h * line_bytes h
pixel_address-inside h y x small inside_y inside_x =
    let inside : src_y h y < abs_height h = ground arith in
    let lines : suc (src_y h y) * line_bytes h ≤ abs_height h * line_bytes h =
      mul-le-mul_right (line_bytes h) (omega (arith, inside)) in
    let column : suc x * (h.bpp / 8) ≤ h.width * (h.bpp / 8) =
      mul-le-mul_right (h.bpp / 8) (omega arith) in
    omega (arith, pixel_address-plain h y x small inside_y inside_x, lines, column)

pub pixel_of-file_pixel :
    (buffer : Bytes) (h : Header) (y x : ℕ)
    → IsDepth h
    → abs_height h * line_bytes h < 2 ^ 32
    → y < abs_height h
    → x < h.width
    → pixel_of buffer h y x ≡ file_pixel buffer h y x
pixel_of-file_pixel buffer h y x depth small inside_y inside_x =
    let four : (h.bpp / 8 == 4) ≡ (h.bpp == 32) = ground (arith, depth) in
    ap₂ read (pixel_address-plain h y x small inside_y inside_x) four
  where
    read : ℕ → Bool → Pixel
    read p b = record {
      blue = buffer p;
      green = buffer (p + 1);
      red = buffer (p + 2);
      alpha = if b then buffer (p + 3) else 255;
    }

-- The lines before `n`, and in line `n` the columns before `k`, have their pixels; behind them the output is
-- as it was.
pub record IsDone (buffer : Bytes) (h : Header) (output : ℕ → Pixel) (n k : ℕ) (t : ℕ → Pixel)
    : Type 0 where
  pub above : (y x : ℕ) → y < n → x < h.width → t (y * h.width + x) ≡ pixel_of buffer h y x
  pub line : (x : ℕ) → x < k → t (n * h.width + x) ≡ pixel_of buffer h n x
  pub behind : (i : ℕ) → n * h.width + k ≤ i → t i ≡ output i

-- A place in a line above.
above_place : (w y n x : ℕ) → y < n → x < w → y * w + x < n * w
above_place w y n x h k =
    let lines : suc y * w ≤ n * w = mul-le-mul_right w (omega arith) in omega (arith, lines)

set_pixel-IsDone :
    (buffer : Bytes) (h : Header) (output t : ℕ → Pixel) (n k : ℕ)
    → IsDone buffer h output n k t
    → n * h.width + k < 2 ^ 32
    → IsDone buffer h output n
        (suc k)
        (set_pixel t ((n * h.width + k) % 2 ^ 32) (pixel_of buffer h n k))
set_pixel-IsDone buffer h output t n k d small = record {
  above = λ y x less inside.
      let before = above_place h.width y n x less inside in
      let other : (y * h.width + x == (n * h.width + k) % 2 ^ 32) ≡ false = ground arith in
      rw other (d.above y x less inside);
  line = λ x less. elim (Bool-cases (x == k)) [
    | inl e ↦
        let same : x ≡ k = ground (arith, e) in
        let here : (n * h.width + k == (n * h.width + k) % 2 ^ 32) ≡ true = ground arith in
        rw (same, here) refl
    | inr e ↦
        let other : (n * h.width + x == (n * h.width + k) % 2 ^ 32) ≡ false = ground (arith, e) in
        rw other (d.line x (ground (arith, e)))
  ];
  behind = λ i less.
      let other : (i == (n * h.width + k) % 2 ^ 32) ≡ false = ground arith in
      rw other (d.behind i (omega arith));
}

-- The lines of the file go on behind the buffer.
abbrev pub RunsOver : Header → ℕ → Type 0
RunsOver h buffer_size = buffer_size < h.data_offset + abs_height h * line_bytes h

-- The loops so far: a read has been behind the buffer, or the pixels are there.
abbrev pub SoFar : Bytes → ℕ → Header → (ℕ → Pixel) → ℕ → ℕ → Option (ℕ → Pixel) → Type 0
SoFar buffer size h output n k none = RunsOver h size
SoFar buffer size h output n k (some t) = IsDone buffer h output n k t

copy_pixel-SoFar :
    (buffer : Bytes) (size : ℕ) (h : Header) (output : ℕ → Pixel) (n k : ℕ) (t : Option (ℕ → Pixel))
    → SoFar buffer size h output n k t
    → abs_height h * line_bytes h < 2 ^ 32
    → n < abs_height h
    → k < h.width
    → n * h.width + k < 2 ^ 32
    → SoFar buffer size h output n (suc k) (copy_pixel buffer size h n k t)
unfolding copy_pixel read_pixel
copy_pixel-SoFar buffer size h output n k none d small line column place = d
copy_pixel-SoFar buffer size h output n k (some t) d small line column place =
    let inside = pixel_address-inside h n k small line column in
    elim (Bool-cases (ltb size (pixel_address h n k + bytes_per_pixel h))) [
      | inl y ↦ rw (SoFar, y) (ground (arith, y, inside))
      | inr y ↦ rw (SoFar, y) (set_pixel-IsDone buffer h output t n k d place)
    ]

next_line :
    (buffer : Bytes) (size : ℕ) (h : Header) (output : ℕ → Pixel) (n : ℕ) (t : Option (ℕ → Pixel))
    → SoFar buffer size h output n h.width t
    → SoFar buffer size h output (suc n) 0 t
next_line buffer size h output n none d = d
next_line buffer size h output n (some t) all = record {
  above = λ y x less inside. elim (Bool-cases (y == n)) [
    | inl e ↦ let same : y ≡ n = ground (arith, e) in rw same (all.line x inside)
    | inr e ↦ all.above y x (ground (arith, e)) inside
  ];
  line = λ x less. absurd (omega arith);
  behind = λ i less. all.behind i (omega arith);
}

read_row-SoFar :
    (buffer : Bytes) (size : ℕ) (h : Header) (output : ℕ → Pixel) (n : ℕ) (t : Option (ℕ → Pixel))
    → SoFar buffer size h output n 0 t
    → abs_height h * line_bytes h < 2 ^ 32
    → n < abs_height h
    → suc n * h.width ≤ 2 ^ 32
    → SoFar buffer size h output (suc n) 0 (read_row buffer size h n t)
unfolding read_row
read_row-SoFar buffer size h output n t d lines inside small =
    next_line buffer size h output n (read_row buffer size h n t) (
      for-invariant_zero (λ k u. SoFar buffer size h output n k u) h.width _ t d
        (λ k u less p.
          copy_pixel-SoFar buffer size h output n k u p lines inside less (omega arith)))

pub read_rows-SoFar :
    (buffer : Bytes) (size : ℕ) (h : Header) (output : ℕ → Pixel)
    → abs_height h * line_bytes h < 2 ^ 32
    → abs_height h * h.width ≤ 2 ^ 32
    → SoFar buffer size h output (abs_height h) 0 (read_rows buffer size h output)
unfolding read_rows
read_rows-SoFar buffer size h output lines small =
    for-invariant_zero (λ y u. SoFar buffer size h output y 0 u) (abs_height h) _ (some output)
      (record {
        above = λ y x less inside. absurd (omega arith);
        line = λ x less. absurd (omega arith);
        behind = λ i less. refl;
      })
      (λ y u less p.
        let all : suc y * h.width ≤ abs_height h * h.width =
          mul-le-mul_right h.width (omega arith) in
        read_row-SoFar buffer size h output y u p lines less (omega (arith, all)))
