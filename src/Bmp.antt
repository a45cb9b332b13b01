-- ===== src/Bmp.antt =====
-- The reader of bitmap files of src/kernel/utils/bmp.c. The file in memory is a function from offsets below
-- `buffer_size` to bytes, and the output one from places to pixels. C leaves a read behind the buffer undefined.
pub mod Pixels
pub mod Accept
mod Tests
use os1_meaty_skeleton.Prelude.{
  ℕ, zero, suc, ◌+◌, ◌-◌, ◌*◌, ◌/◌, ◌%◌, ◌^◌, Bool, true, false, not, ◌&&◌, ◌||◌, ltb, leb, ◌==◌,
  Option, none, some, if◌then◌else◌,
}
use os1_meaty_skeleton.Prelude.Loops.{for}
use os1_meaty_skeleton.Disk.{u16_at, u32_at}

abbrev pub Bytes : Type 0
Bytes = ℕ → ℕ

-- `Pixel32`
pub record Pixel : Type 0 where
  pub blue : ℕ
  pub green : ℕ
  pub red : ℕ
  pub alpha : ℕ

-- The fields of the two headers that are used. `width` and `height` are `int32_t` values as words.
pub record Header : Type 0 where
  pub signature : ℕ
  pub data_offset : ℕ
  pub header_size : ℕ
  pub width : ℕ
  pub height : ℕ
  pub bpp : ℕ
  pub compression : ℕ
  pub image_size : ℕ

unfoldable pub read_header : Bytes → Header
read_header buffer = record {
  signature = u16_at buffer 0;
  data_offset = u32_at buffer 10;
  header_size = u32_at buffer 14;
  width = u32_at buffer 18;
  height = u32_at buffer 22;
  bpp = u16_at buffer 28;
  compression = u32_at buffer 30;
  image_size = u32_at buffer 34;
}

pub data Error : Type 0 where
  invalid_signature invalid_header unsupported_bpp buffer_too_small : Error

pub data Result : Type 0 where
  failed : Error → Result
  -- `*width`, `*height` and the output.
  image : ℕ → ℕ → (ℕ → Pixel) → Result
  -- A pixel is read behind the buffer.
  undefined : Result

-- A word below 0 as an `int32_t`.
abbrev pub is_negative : ℕ → Bool
is_negative w = leb 0x80000000 w

abbrev pub abs_height : Header → ℕ
abs_height h = if is_negative h.height then 2 ^ 32 - h.height else h.height

abbrev pub bytes_per_pixel : Header → ℕ
bytes_per_pixel h = h.bpp / 8

abbrev pub row_size : Header → ℕ
row_size h = h.width * bytes_per_pixel h % 2 ^ 32

abbrev pub padded_row_size : Header → ℕ
padded_row_size h = (row_size h + (4 - row_size h % 4) % 4) % 2 ^ 32

-- The line of the file that is line `y` of the image.
abbrev pub src_y : Header → ℕ → ℕ
src_y h y = if is_negative h.height then y else abs_height h - 1 - y

abbrev pub pixel_address : Header → ℕ → ℕ → ℕ
pixel_address h y x =
    h.data_offset + src_y h y * padded_row_size h % 2 ^ 32 + x * bytes_per_pixel h % 2 ^ 32

-- The pixel at `p`, of `bytes` bytes.
abbrev pub pixel_at : Bytes → ℕ → ℕ → Pixel
pixel_at buffer bytes p = record {
  blue = buffer p;
  green = buffer (p + 1);
  red = buffer (p + 2);
  alpha = if bytes == 4 then buffer (p + 3) else 0xff;
}

-- `none` is a read behind the buffer.
unfoldable pub read_pixel : Bytes → ℕ → Header → ℕ → ℕ → Option Pixel
read_pixel buffer buffer_size h y x =
    if ltb buffer_size (pixel_address h y x + bytes_per_pixel h)
    then none
    else some (pixel_at buffer (bytes_per_pixel h) (pixel_address h y x))

abbrev pub set_pixel : (ℕ → Pixel) → ℕ → Pixel → ℕ → Pixel
set_pixel output i v j = if j == i then v else output j

-- The body of the inner loop.
unfoldable pub copy_pixel : Bytes → ℕ → Header → ℕ → ℕ → Option (ℕ → Pixel) → Option (ℕ → Pixel)
copy_pixel buffer buffer_size h y x none = none
copy_pixel buffer buffer_size h y x (some t) = elim (read_pixel buffer buffer_size h y x) [
  | none ↦ none
  | some v ↦ some (set_pixel t ((y * h.width + x) % 2 ^ 32) v)
]

unfoldable pub read_row : Bytes → ℕ → Header → ℕ → Option (ℕ → Pixel) → Option (ℕ → Pixel)
read_row buffer buffer_size h y output =
    for h.width 0 (λ x t. copy_pixel buffer buffer_size h y x t) output

unfoldable pub read_rows : Bytes → ℕ → Header → (ℕ → Pixel) → Option (ℕ → Pixel)
read_rows buffer buffer_size h output =
    for (abs_height h) 0 (λ y t. read_row buffer buffer_size h y t) (some output)

abbrev pub image_of : Header → Option (ℕ → Pixel) → Result
image_of h none = undefined
image_of h (some t) = image h.width (abs_height h) t

-- `read_bmp` behind the test of the smallest size.
unfoldable pub read_image : Bytes → Header → ℕ → (ℕ → Pixel) → Result
read_image buffer h buffer_size output =
    if not (h.signature == 0x4d42)
    then failed invalid_signature
    else if ltb h.header_size 40 || (is_negative h.width || h.width == 0) || h.height == 0
    then failed invalid_header
    else if not (h.bpp == 24) && not (h.bpp == 32)
    then failed unsupported_bpp
    else if not (h.compression == 0)
    then failed invalid_header
    else if ltb buffer_size ((h.data_offset + h.image_size) % 2 ^ 32)
    then failed buffer_too_small
    else image_of h (read_rows buffer buffer_size h output)

unfoldable pub read_bmp : Bytes → ℕ → (ℕ → Pixel) → Result
read_bmp buffer buffer_size output =
    if ltb buffer_size 54
    then failed buffer_too_small
    else read_image buffer (read_header buffer) buffer_size output
