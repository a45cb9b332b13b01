-- ===== src/Console/Styled.antt =====
-- Coloured text, written with the escape sequences that `cprintf` of src/kernel/arch/i386/mconio.c
-- reads.
use os1_meaty_skeleton.Prelude.{
  ℕ, suc, ◌+◌, ◌-◌, ◌/◌, ◌%◌, ◌<◌, ◌≡◌, ◌≢◌, refl, ap, ◌∙◌, false, arith, ltb, ◌==◌, if◌then◌else◌,
  List, [], ◌∷◌, ◌++◌, length,
}
use os1_meaty_skeleton.Vga.{Vga, vga_put_char, vga_write_string, vga_set_textcolor}
use os1_meaty_skeleton.Console.{next, put_byte, cprintf_step, cprintf_loop}

-- Text in one style. The colours are below 16, and no byte is a terminator or ESC.
pub record Segment : Type 0 where
  pub fg : ℕ
  pub bg : ℕ
  pub text : List ℕ

abbrev pub IsPlain : List ℕ → Type 0
IsPlain [] = Unit
IsPlain (b ∷ bs) = ((b ≢ 0) × (b ≢ 0x1b)) × IsPlain bs

abbrev pub IsStyled : List Segment → Type 0
IsStyled [] = Unit
IsStyled (s ∷ ss) = ((s.fg < 16) × (s.bg < 16)) × (IsPlain s.text × IsStyled ss)

-- The numbers of the colours, and a number below 200 in decimal.
unfoldable pub fg_code : ℕ → ℕ
fg_code c = if ltb c 8 then 30 + c else 82 + c

unfoldable pub bg_code : ℕ → ℕ
bg_code c = if ltb c 8 then 40 + c else 92 + c

unfoldable pub number : ℕ → List ℕ → List ℕ
number n rest =
    if ltb n 100
    then (0x30 + n / 10) ∷ (0x30 + n % 10) ∷ rest
    else 0x31 ∷ (0x30 + (n - 100) / 10) ∷ (0x30 + n % 10) ∷ rest

-- The bytes of a segment, before the bytes `rest`.
unfoldable pub render : Segment → List ℕ → List ℕ
render s rest =
    0x1b ∷ 0x5b ∷ number (fg_code s.fg) (0x3b ∷ number (bg_code s.bg) (0x6d ∷ (s.text ++ rest)))

unfoldable pub render_all : List Segment → List ℕ → List ℕ
render_all [] rest = rest
render_all (s ∷ ss) rest = render s (render_all ss rest)

-- What the segments mean for the screen.
unfoldable pub paint : Vga → List Segment → Vga
paint v [] = v
paint v (s ∷ ss) = paint (vga_write_string (vga_set_textcolor v s.fg s.bg) s.text) ss

-- One turn of the loop that goes on.
pub loop_turn :
    (n color : ℕ) (bs cs : List ℕ) (v w : Vga)
    → cprintf_step color bs v ≡ next cs w
    → cprintf_loop (suc n) color bs v ≡ cprintf_loop n color cs w
unfolding cprintf_loop
loop_turn n color bs cs v w e = rw (cprintf_loop, e) refl

-- Bytes that are neither a terminator nor ESC are printed.
pub plain_turns :
    (n color : ℕ) (text rest : List ℕ) (v : Vga)
    → IsPlain text
    → cprintf_loop (length text + n) color (text ++ rest) v
      ≡ cprintf_loop n color rest (vga_write_string v text)
unfolding vga_write_string cprintf_step put_byte
plain_turns n color [] rest v h = ap (λ (k : ℕ). cprintf_loop k color rest v) (omega arith)
plain_turns n color (b ∷ bs) rest v ((not_end, not_escape), h) =
    let t : (b == 0) ≡ false = ground arith in
    let u : (b == 0x1b) ≡ false = ground arith in
    let turn : cprintf_step color (b ∷ (bs ++ rest)) v ≡ next (bs ++ rest) (vga_put_char v b) =
      rw (cprintf_step, t, u) refl in
    ap (λ (k : ℕ). cprintf_loop k color (b ∷ (bs ++ rest)) v) (omega arith)
    ∙ (loop_turn (length bs + n) color _ _ v _ turn
        ∙ plain_turns n color bs rest (vga_put_char v b) h)
