-- ===== src/Console/Paint.antt =====
-- The loop of `cprintf` in src/kernel/arch/i386/mconio.c over a buffer of coloured text.
use os1_meaty_skeleton.Prelude.{
  ℕ, suc, ◌+◌, ◌-◌, ◌≤◌, ◌≡◌, inl, inr, refl, ap, ◌∙◌, Bool-cases, arith, ltb, List, [], ◌∷◌, ◌++◌,
  length, length-append,
}
use os1_meaty_skeleton.Vga.{Vga, vga_write_string, vga_set_textcolor, vga_get_textcolor}
use os1_meaty_skeleton.Console.{cprintf_step, printed, cprintf_loop, cprintf_buffer, buffer_size}
use os1_meaty_skeleton.Console.Styled.{
  Segment, IsStyled, fg_code, bg_code, number, render, render_all, paint, loop_turn, plain_turns,
}
use os1_meaty_skeleton.Console.Sequence.{style_turn}

-- The turns that segments take.
abbrev pub turns : List Segment → ℕ
turns [] = 0
turns (s ∷ ss) = length s.text + turns ss + 1

pub last_turn :
    (n color : ℕ) (rest : List ℕ) (v : Vga) → cprintf_loop (suc n) color (0 ∷ rest) v ≡ printed v
unfolding cprintf_loop cprintf_step
last_turn n color rest v = refl

pub segments_turns :
    (n color : ℕ) (ss : List Segment) (rest : List ℕ) (v : Vga)
    → IsStyled ss
    → cprintf_loop (turns ss + suc n) color (render_all ss (0 ∷ rest)) v ≡ printed (paint v ss)
unfolding render_all render paint cprintf_step
segments_turns n color [] rest v h =
    let one : turns [] + suc n ≡ suc n = omega arith in
    ap (λ (k : ℕ). cprintf_loop k color (0 ∷ rest) v) one ∙ last_turn n color rest v
segments_turns n color (s ∷ ss) rest v ((flt, blt), (plain, more)) =
    let w = vga_set_textcolor v s.fg s.bg in
    let tail = render_all ss (0 ∷ rest) in
    let more_turns : turns (s ∷ ss) + suc n ≡ suc (length s.text + (turns ss + suc n)) =
      omega arith in
    ap (λ (k : ℕ). cprintf_loop k color (render s tail) v) more_turns
    ∙ (loop_turn (length s.text + (turns ss + suc n)) color _ _ v w
          (style_turn color s.fg s.bg (s.text ++ tail) v flt blt)
        ∙ (plain_turns (turns ss + suc n) color s.text tail w plain
            ∙ segments_turns n color ss rest (vga_write_string w s.text) more))

pub length-number : (n : ℕ) (rest : List ℕ) → length rest ≤ length (number n rest)
unfolding number
length-number n rest = elim (Bool-cases (ltb n 100)) [
  | inl h ↦ rw h (omega arith)
  | inr h ↦ rw h (omega arith)
]

-- There are no more turns than bytes.
pub turns_bound :
    (ss : List Segment) (rest : List ℕ) → turns ss + length rest ≤ length (render_all ss rest)
unfolding render_all render
turns_bound [] rest = omega arith
turns_bound (s ∷ ss) rest =
    let tail = render_all ss rest in
    omega (
      arith,
      turns_bound ss rest,
      length-append s.text tail,
      length-number (fg_code s.fg) (0x3b ∷ number (bg_code s.bg) (0x6d ∷ (s.text ++ tail))),
      length-number (bg_code s.bg) (0x6d ∷ (s.text ++ tail)),
    )

-- When the buffer holds coloured text, each part after a sequence ESC [ f ; b m with the numbers of its
-- colours, and then a terminator, `cprintf` prints every part in its colours and returns.
pub cprintf_buffer-paint :
    (ss : List Segment) (rest : List ℕ) (v : Vga)
    → IsStyled ss
    → length (render_all ss (0 ∷ rest)) ≤ buffer_size
    → cprintf_buffer (render_all ss (0 ∷ rest)) v ≡ printed (paint v ss)
unfolding cprintf_buffer
cprintf_buffer-paint ss rest v h fits =
    let color = vga_get_textcolor v in
    let text = render_all ss (0 ∷ rest) in
    let fuel : 1025 ≡ turns ss + suc (1024 - turns ss) = omega (arith, turns_bound ss (0 ∷ rest)) in
    ap (λ (k : ℕ). cprintf_loop k color text v) fuel
    ∙ segments_turns (1024 - turns ss) color ss rest v h
