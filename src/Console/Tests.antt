-- ===== src/Console/Tests.antt =====
-- Runs of the console, and the theorems at concrete inputs.
use os1_meaty_skeleton.Prelude.{
  ℕ, ◌≡◌, refl, arith, List, [], ◌∷◌, length, append-nil, replicate, ap, some,
}
use os1_meaty_skeleton.Vga.{Vga, vga_textinfo}
use os1_meaty_skeleton.Console.{printed, cprintf_loop}
use os1_meaty_skeleton.Console.Stops.{cprintf_loop-stops}
use os1_meaty_skeleton.Console.Styled.{Segment, render, render_all, fg_code, bg_code, number, paint}
use os1_meaty_skeleton.Console.Print.{cprintf, cprintf-paint}
use os1_meaty_skeleton.Console.Format.{
  word, string, itoa, itohex, digits, format_string, format_loop, format_step, conversion, convert,
  put_arg, read_flag, read_number, read_precision,
}

abbrev screen : Vga
screen = vga_textinfo (λ j. record { character = 0; attribute = 7 })

-- "Hi" in bright red on blue, and "!" in black on white.
abbrev greeting : List Segment
greeting =
    record { fg = 9; bg = 1; text = 0x48 ∷ 0x69 ∷ [] }
    ∷ record { fg = 0; bg = 15; text = 0x21 ∷ [] }
    ∷ []

greeting_fits : length (render_all greeting []) ≡ 20
unfolding render_all render number fg_code bg_code
greeting_fits = refl

no_doubles : ℕ → ℕ → ℕ → List ℕ
no_doubles d width precision = []

-- The format "%s", and the greeting as its argument.
greeting_text :
    format_string no_doubles (0x25 ∷ 0x73 ∷ []) (string (render_all greeting []) ∷ [])
    ≡ some (render_all greeting [])
unfolding format_string format_loop format_step conversion convert put_arg read_flag read_number
    read_precision
greeting_text = ap some (append-nil (render_all greeting []))

abbrev clear_buffer : List ℕ
clear_buffer = replicate 1024 0

cprintf-paint_example :
    (b : List ℕ) × (cprintf no_doubles
        (0x25 ∷ 0x73 ∷ [])
        (string (render_all greeting []) ∷ [])
        clear_buffer
        screen
      ≡ some (b, printed (paint screen greeting)))
cprintf-paint_example =
    cprintf-paint no_doubles (0x25 ∷ 0x73 ∷ []) (string (render_all greeting []) ∷ []) clear_buffer
      greeting screen refl
      (
        (omega arith, omega arith),
        (
          ((omega arith, omega arith), ((omega arith, omega arith), tt)),
          ((omega arith, omega arith), (((omega arith, omega arith), tt), tt)),
        ),
      )
      greeting_text (omega (arith, greeting_fits))

-- An escape sequence that the terminator ends.
cprintf_loop-stops_example :
    (w : Vga) × (cprintf_loop 7 7 (0x1b ∷ 0x5b ∷ 0x33 ∷ 0 ∷ 0 ∷ 0 ∷ []) screen ≡ printed w)
cprintf_loop-stops_example = cprintf_loop-stops 7 (0x1b ∷ 0x5b ∷ 0x33 ∷ []) [] screen

-- "%d %#6x"
format_test :
    format_string
      (λ d w p. [])
      (0x25 ∷ 0x64 ∷ 0x20 ∷ 0x25 ∷ 0x23 ∷ 0x36 ∷ 0x78 ∷ [])
      (word 0xfffffffb ∷ word 0xbeef ∷ [])
    ≡ some (0x2d ∷ 0x35 ∷ 0x20 ∷ 0x30 ∷ 0x78 ∷ 0x30 ∷ 0x30 ∷ 0x62 ∷ 0x65 ∷ 0x65 ∷ 0x66 ∷ [])
unfolding format_string format_loop format_step conversion convert put_arg read_flag read_number
    read_precision itoa itohex digits
format_test = refl
