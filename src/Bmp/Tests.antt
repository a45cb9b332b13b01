-- ===== src/Bmp/Tests.antt =====
-- Runs of the reader of bitmap files, and the theorem at a concrete input.
use os1_meaty_skeleton.Prelude.{ℕ, ◌≡◌, refl, List, [], ◌∷◌, ◌++◌, replicate, get_or, arith}
use os1_meaty_skeleton.Prelude.Loops.{for}
use os1_meaty_skeleton.Bmp.{
  Bytes, Pixel, Result, failed, image, undefined, invalid_signature, read_header, read_image,
  read_bmp, read_rows, read_row, copy_pixel, read_pixel,
}
use os1_meaty_skeleton.Bmp.Accept.{IsAnswer, read_bmp-IsAnswer}

-- A file of 1 by 2 pixels with 24 bits.
abbrev bytes : List ℕ
bytes =
    0x42
    ∷ 0x4d
    ∷ 62
    ∷ (replicate 7 0
        ++ (54
            ∷ 0
            ∷ 0
            ∷ 0
            ∷ 40
            ∷ 0
            ∷ 0
            ∷ 0
            ∷ 1
            ∷ 0
            ∷ 0
            ∷ 0
            ∷ 2
            ∷ 0
            ∷ 0
            ∷ 0
            ∷ 1
            ∷ 0
            ∷ 24
            ∷ 0
            ∷ (replicate 4 0 ++ (8 ∷ (replicate 19 0 ++ (1 ∷ 2 ∷ 3 ∷ 0 ∷ 4 ∷ 5 ∷ 6 ∷ 0 ∷ []))))))

abbrev file : Bytes
file x = get_or bytes x 0

abbrev blank : ℕ → Pixel
blank i = record { blue = 0; green = 0; red = 0; alpha = 0 }

abbrev pixels : Result → List Pixel
pixels (failed e) = []
pixels undefined = []
pixels (image w h t) = t 0 ∷ t 1 ∷ t 2 ∷ []

-- The upper line stands last in the file.
read_bmp_test :
    pixels (read_bmp file 62 blank)
    ≡ record { blue = 4; green = 5; red = 6; alpha = 255 }
      ∷ record { blue = 1; green = 2; red = 3; alpha = 255 }
      ∷ blank 2
      ∷ []
unfolding read_bmp read_image read_header read_rows read_row copy_pixel read_pixel for
read_bmp_test = refl

signature_test : read_bmp (λ x. 0) 62 blank ≡ failed invalid_signature
unfolding read_bmp read_image read_header
signature_test = refl

read_bmp-IsAnswer_example : IsAnswer file (read_header file) 62 blank (read_bmp file 62 blank)
unfolding read_header
read_bmp-IsAnswer_example = read_bmp-IsAnswer file 62 blank (omega arith) (omega arith)
