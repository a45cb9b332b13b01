-- ===== src/Console/Sequence.antt =====
-- How `cprintf` of src/kernel/arch/i386/mconio.c reads the escape sequence of a coloured text.
use os1_meaty_skeleton.Prelude.{
  ℕ, ◌+◌, ◌-◌, ◌*◌, ◌/◌, ◌%◌, ◌≤◌, ◌<◌, ◌≡◌, inl, inr, refl, ap, ◌∙◌, true, false, Bool, Bool-cases,
  arith, ltb, leb, ◌||◌, ◌&&◌, ◌==◌, bit_and, ◌^◌, List, ◌∷◌,
}
use os1_meaty_skeleton.Vga.{Vga, vga_set_textcolor}
use os1_meaty_skeleton.Console.{
  Escape, next, end_number, end_escape, escape, escape_step, read_escape, cprintf_step,
}
use os1_meaty_skeleton.Console.Styled.{fg_code, bg_code, number}

-- The escape sequence after some of its bytes.
abbrev pub at_number : ℕ → ℕ → ℕ → Bool → Escape
at_number fg bg num valid = record { fg = fg; bg = bg; num = num; valid = valid }

pub read_digit :
    (d fg bg num : ℕ) (valid : Bool) (bs : List ℕ)
    → d < 10
    → read_escape ((0x30 + d) ∷ bs) (at_number fg bg num valid)
      ≡ read_escape bs (at_number fg bg (num * 10 + d) true)
unfolding read_escape escape_step
read_digit d fg bg num valid bs lt =
    let goes_on : (0x30 + d == 0x6d) || (0x30 + d == 0) ≡ false = ground arith in
    let digit : leb 0x30 (0x30 + d) && leb (0x30 + d) 0x39 ≡ true = ground arith in
    let value : 0x30 + d - 0x30 ≡ d = omega arith in rw (goes_on, digit, value) refl

pub read_number :
    (n fg bg : ℕ) (valid : Bool) (bs : List ℕ)
    → n < 200
    → read_escape (number n bs) (at_number fg bg 0 valid) ≡ read_escape bs (at_number fg bg n true)
unfolding number
read_number n fg bg valid bs lt = elim (Bool-cases (ltb n 100)) [
  | inl h ↦
      let whole : (0 * 10 + n / 10) * 10 + n % 10 ≡ n = omega arith in
      rw h (
        read_digit (n / 10) fg bg 0 valid _ (ground arith)
        ∙ (read_digit (n % 10) fg bg _ true bs (omega arith)
            ∙ ap (λ (k : ℕ). read_escape bs (at_number fg bg k true)) whole))
  | inr h ↦
      let large : 100 ≤ n = ground arith in
      let whole : ((0 * 10 + 1) * 10 + (n - 100) / 10) * 10 + n % 10 ≡ n = omega arith in
      rw h (
        read_digit 1 fg bg 0 valid _ (omega arith)
        ∙ (read_digit ((n - 100) / 10) fg bg _ true _ (omega arith)
            ∙ (read_digit (n % 10) fg bg _ true bs (omega arith)
                ∙ ap (λ (k : ℕ). read_escape bs (at_number fg bg k true)) whole)))
]

pub end_fg :
    (x bg c : ℕ) (valid : Bool)
    → c < 16
    → end_number (at_number x bg (fg_code c) valid) ≡ at_number c bg (fg_code c) valid
unfolding end_number fg_code
end_fg x bg c valid lt = elim (Bool-cases (ltb c 8)) [
  | inl h ↦
      let dark : leb 30 (30 + c) && leb (30 + c) 37 ≡ true = ground arith in
      let value : 30 + c - 30 ≡ c = omega arith in rw (h, dark, value) refl
  | inr h ↦
      let bright : 8 ≤ c = ground arith in
      let not_dark : leb 30 (82 + c) && leb (82 + c) 37 ≡ false = ground arith in
      let light : leb 90 (82 + c) && leb (82 + c) 97 ≡ true = ground arith in
      let value : 82 + c - 90 + 8 ≡ c = omega arith in rw (h, not_dark, light, value) refl
]

pub end_bg :
    (fg y c : ℕ) (valid : Bool)
    → c < 16
    → end_number (at_number fg y (bg_code c) valid) ≡ at_number fg c (bg_code c) valid
unfolding end_number bg_code
end_bg fg y c valid lt = elim (Bool-cases (ltb c 8)) [
  | inl h ↦
      let dim : c < 8 = ground arith in
      let not_fg : leb 30 (40 + c) && leb (40 + c) 37 ≡ false = ground arith in
      let not_light : leb 90 (40 + c) && leb (40 + c) 97 ≡ false = ground arith in
      let dark : leb 40 (40 + c) && leb (40 + c) 47 ≡ true = ground arith in
      let value : 40 + c - 40 ≡ c = omega arith in rw (h, not_fg, not_light, dark, value) refl
  | inr h ↦
      let bright : 8 ≤ c = ground arith in
      let not_fg : leb 30 (92 + c) && leb (92 + c) 37 ≡ false = ground arith in
      let not_light : leb 90 (92 + c) && leb (92 + c) 97 ≡ false = ground arith in
      let not_dark : leb 40 (92 + c) && leb (92 + c) 47 ≡ false = ground arith in
      let light : leb 100 (92 + c) && leb (92 + c) 107 ≡ true = ground arith in
      let value : 92 + c - 100 + 8 ≡ c = omega arith in
      rw (h, not_fg, not_light, not_dark, light, value) refl
]

pub code_below : (c : ℕ) → c < 16 → (fg_code c < 200) × (bg_code c < 200)
unfolding fg_code bg_code
code_below c lt = ground arith

pub read_semicolon :
    (fg bg num : ℕ) (bs : List ℕ)
    → let e = end_number (at_number fg bg num true) in
      read_escape (0x3b ∷ bs) (at_number fg bg num true)
      ≡ read_escape bs (at_number e.fg e.bg 0 true)
unfolding read_escape escape_step
read_semicolon fg bg num bs = refl

pub read_m :
    (fg bg num : ℕ) (bs : List ℕ)
    → read_escape (0x6d ∷ bs) (at_number fg bg num true) ≡ (0x6d ∷ bs, at_number fg bg num true)
unfolding read_escape
read_m fg bg num bs = refl

-- The whole sequence of a segment.
pub read_style :
    (x y fg bg : ℕ) (bs : List ℕ)
    → fg < 16
    → bg < 16
    → read_escape
        (number (fg_code fg) (0x3b ∷ number (bg_code bg) (0x6d ∷ bs)))
        (at_number x y 0 false)
      ≡ (0x6d ∷ bs, at_number fg y (bg_code bg) true)
read_style x y fg bg bs flt blt =
    read_number (fg_code fg) x y false _ (code_below fg flt).0
    ∙ (read_semicolon x y (fg_code fg) _
        ∙ (ap
              (λ (e : Escape).
                read_escape (number (bg_code bg) (0x6d ∷ bs)) (at_number e.fg e.bg 0 true))
              (end_fg x y fg true flt)
            ∙ (read_number (bg_code bg) fg y true _ (code_below bg blt).1
                ∙ read_m fg y (bg_code bg) bs)))

pub style_turn :
    (color fg bg : ℕ) (bs : List ℕ) (v : Vga)
    → fg < 16
    → bg < 16
    → cprintf_step color
        (0x1b ∷ 0x5b ∷ number (fg_code fg) (0x3b ∷ number (bg_code bg) (0x6d ∷ bs)))
        v
      ≡ next bs (vga_set_textcolor v fg bg)
unfolding cprintf_step escape end_escape
style_turn color fg bg bs v flt blt =
    let y = bit_and (color / 2 ^ 4) 0x0f in
    ap (λ (r : List ℕ × Escape). end_escape r.0 r.1 v)
      (read_style (bit_and color 0x0f) y fg bg bs flt blt)
    ∙ ap (λ (e : Escape). next bs (vga_set_textcolor v e.fg e.bg)) (end_bg fg y bg true blt)
