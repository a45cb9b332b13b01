-- ===== src/Bmp/Accept.antt =====
-- Which files `read_bmp` of src/kernel/utils/bmp.c accepts, and what it makes of them.
use os1_meaty_skeleton.Prelude.{
  ℕ, ◌+◌, ◌*◌, ◌%◌, ◌^◌, ◌≤◌, ◌<◌, ◌≡◌, refl, ◌∙◌, not, ◌&&◌, ◌||◌, ltb, ◌==◌, Bool-cases, inl, inr,
  Option, none, some, arith,
}
use os1_meaty_skeleton.Bmp.{
  Bytes, Pixel, Header, read_header, Result, failed, image, undefined, image_of, is_negative,
  abs_height, read_rows, read_image, read_bmp,
}
use os1_meaty_skeleton.Bmp.Pixels.{
  read_rows-SoFar, SoFar, RunsOver, line_bytes, file_pixel, IsDepth, pixel_of-file_pixel,
}
use native.Mathlib.Nat.{mul-le-mul_left}

-- A header that is accepted.
pub record IsAccepted (h : Header) (buffer_size : ℕ) : Type 0 where
  pub room : 54 ≤ buffer_size
  pub bm : h.signature ≡ 0x4d42
  pub info : 40 ≤ h.header_size
  pub some_width : 0 < h.width
  pub positive_width : h.width < 2 ^ 31
  pub some_height : 0 < h.height
  pub depth : IsDepth h
  pub plain : h.compression ≡ 0
  pub inside : h.data_offset + h.image_size ≤ buffer_size

-- The output has the pixels of the file, line by line from the top, and nothing else is written.
abbrev pub HasPixels : Bytes → Header → (ℕ → Pixel) → (ℕ → Pixel) → Type 0
HasPixels buffer h output t =
    ((y x : ℕ) → y < abs_height h → x < h.width → t (y * h.width + x) ≡ file_pixel buffer h y x)
    × ((i : ℕ) → abs_height h * h.width ≤ i → t i ≡ output i)

abbrev pub IsAnswer : Bytes → Header → ℕ → (ℕ → Pixel) → Result → Type 0
IsAnswer buffer h size output (failed e) = ¬ (IsAccepted h size)
IsAnswer buffer h size output (image w n t) =
    IsAccepted h size × (w ≡ h.width) × (n ≡ abs_height h) × HasPixels buffer h output t
IsAnswer buffer h size output undefined = IsAccepted h size × RunsOver h size

read_rows-IsAnswer :
    (buffer : Bytes) (h : Header) (size : ℕ) (output : ℕ → Pixel)
    → IsAccepted h size
    → abs_height h * line_bytes h < 2 ^ 32
    → IsAnswer buffer h size output (image_of h (read_rows buffer size h output))
read_rows-IsAnswer buffer h size output accepted small =
    let line : h.width ≤ line_bytes h = elim accepted.depth [
      | inl e ↦ rw e (omega arith)
      | inr e ↦ rw e (omega arith)
    ] in
    let all : abs_height h * h.width ≤ abs_height h * line_bytes h =
      mul-le-mul_left (abs_height h) line in
    go (read_rows buffer size h output)
      (read_rows-SoFar buffer size h output small (omega (arith, all)))
  where
    go :
        (r : Option (ℕ → Pixel))
        → SoFar buffer size h output (abs_height h) 0 r
        → IsAnswer buffer h size output (image_of h r)
    go none over = (accepted, over)
    go (some t) d = (
      accepted,
      refl,
      refl,
      (
        λ y x iy ix.
            d.above y x iy ix ∙ pixel_of-file_pixel buffer h y x accepted.depth small iy ix,
        λ i b. d.behind i (omega arith),
      ),
    )

read_image-IsAnswer :
    (buffer : Bytes) (h : Header) (size : ℕ) (output : ℕ → Pixel)
    → 54 ≤ size
    → abs_height h * line_bytes h < 2 ^ 32
    → h.data_offset + h.image_size < 2 ^ 32
    → IsAnswer buffer h size output (read_image buffer h size output)
unfolding read_image
read_image-IsAnswer buffer h size output room small fits =
    elim (Bool-cases (h.signature == 0x4d42)) [
      | inr a ↦ rw a (λ w. ground (arith, a, w.bm))
      | inl a ↦
          elim (Bool-cases
            (ltb h.header_size 40 || (is_negative h.width || h.width == 0) || h.height == 0)) [
              | inl b ↦
                  rw (a, b)
                    (λ w. ground (arith, b, w.info, w.some_width, w.positive_width, w.some_height))
              | inr b ↦ elim (Bool-cases (not (h.bpp == 24) && not (h.bpp == 32))) [
                | inl c ↦ rw (a, b, c) (λ w. ground (arith, c, w.depth))
                | inr c ↦ elim (Bool-cases (h.compression == 0)) [
                  | inr d ↦ rw (a, b, c, d) (λ w. ground (arith, d, w.plain))
                  | inl d ↦ elim (Bool-cases (ltb size ((h.data_offset + h.image_size) % 2 ^ 32))) [
                    | inl e ↦ rw (a, b, c, d, e) (λ w. ground (arith, e, w.inside))
                    | inr e ↦
                        let depth : IsDepth h = ground (arith, c) in
                        rw (a, b, c, d, e)
                          (read_rows-IsAnswer buffer h size output
                            (record {
                              room = room;
                              bm = ground (arith, a);
                              info = ground (arith, b);
                              some_width = ground (arith, b);
                              positive_width = ground (arith, b);
                              some_height = ground (arith, b);
                              depth = depth;
                              plain = ground (arith, d);
                              inside = ground (arith, e);
                            })
                            small)
                  ]
                ]
              ]
            ]
    ]

-- Where the lines of the file have fewer than 2 ^ 32 bytes together, and the header puts the end of its data
-- below 2 ^ 32, `read_bmp` refuses exactly the files without a good header, and those whose data, as far as
-- the header tells, end behind the buffer. Of the others it reports the size, and the output gets their pixels,
-- line by line from the top; no other place of the output is written. Or it reads behind the buffer, which
-- happens only if the lines of the image end behind it.
pub read_bmp-IsAnswer :
    (buffer : Bytes) (size : ℕ) (output : ℕ → Pixel)
    → abs_height (read_header buffer) * line_bytes (read_header buffer) < 2 ^ 32
    → (read_header buffer).data_offset + (read_header buffer).image_size < 2 ^ 32
    → IsAnswer buffer (read_header buffer) size output (read_bmp buffer size output)
unfolding read_bmp
read_bmp-IsAnswer buffer size output small fits = elim (Bool-cases (ltb size 54)) [
  | inl a ↦ rw a (λ w. ground (arith, a, w.room))
  | inr a ↦
      rw a
        (read_image-IsAnswer buffer (read_header buffer) size output (ground (arith, a)) small fits)
]
