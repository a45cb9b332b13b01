-- ===== src/Console/Print.antt =====
-- `sprintf`, `printf` and `cprintf` of src/kernel/arch/i386/mconio.c as a whole: the text is formatted
-- into the buffer that they share, over what an earlier call has left there.
use os1_meaty_skeleton.Prelude.{
  ℕ, ◌+◌, ◌≤◌, ◌<◌, ◌≡◌, refl, ap, ◌∙◌, Bool-cases, ltb, true, ◌==◌, if◌then◌else◌, List, [], ◌∷◌,
  ◌++◌, append_assoc, length, length-append, length-drop, drop, sym, Option, none, some, arith, inl,
  inr,
}
use os1_meaty_skeleton.Vga.{Vga, vga_write_string}
use os1_meaty_skeleton.Console.{Outcome, printed, buffer_size, cprintf_buffer}
use os1_meaty_skeleton.Console.Format.{Arg, format_string}
use os1_meaty_skeleton.Console.Styled.{
  Segment, IsStyled, number, fg_code, bg_code, render, render_all, paint,
}
use os1_meaty_skeleton.Console.Paint.{cprintf_buffer-paint}

-- The characters up to the terminator.
unfoldable pub c_string : List ℕ → List ℕ
c_string [] = []
c_string (c ∷ cs) = let rest = c ∷ c_string cs in if c == 0 then [] else rest

-- A text and its terminator over the buffer. A longer text would be written behind it.
unfoldable pub fill : List ℕ → List ℕ → Option (List ℕ)
fill text buffer =
    if ltb (length text) buffer_size then some (text ++ 0 ∷ drop (length text + 1) buffer) else none

module _ (dtoaf : ℕ → ℕ → ℕ → List ℕ) where
  -- `sprintf`, into the memory of the caller.
  unfoldable pub sprintf : List ℕ → List Arg → Option (List ℕ)
  sprintf fmt args = elim (format_string dtoaf fmt args) [
    | none ↦ none
    | some text ↦ some (text ++ 0 ∷ [])
  ]

  -- The buffer after the first lines of `printf` and `cprintf`.
  unfoldable pub formatted : List ℕ → List Arg → List ℕ → Option (List ℕ)
  formatted fmt args buffer = elim (format_string dtoaf fmt args) [
    | none ↦ none
    | some text ↦ fill text buffer
  ]

  -- `printf`
  unfoldable pub printf : List ℕ → List Arg → List ℕ → Vga → Option (List ℕ × Vga)
  printf fmt args buffer v = elim (formatted fmt args buffer) [
    | none ↦ none
    | some b ↦ some (b, vga_write_string v (c_string b))
  ]

  -- `cprintf`
  unfoldable pub cprintf : List ℕ → List Arg → List ℕ → Vga → Option (List ℕ × Outcome)
  cprintf fmt args buffer v = elim (formatted fmt args buffer) [
    | none ↦ none
    | some b ↦ some (b, cprintf_buffer b v)
  ]

number-append : (n : ℕ) (a b : List ℕ) → number n (a ++ b) ≡ number n a ++ b
unfolding number
number-append n a b = elim (Bool-cases (ltb n 100)) [ inl h ↦ rw h refl | inr h ↦ rw h refl ]

render-append : (s : Segment) (a b : List ℕ) → render s (a ++ b) ≡ render s a ++ b
unfolding render
render-append s a b =
    let f = fg_code s.fg in
    let g = bg_code s.bg in
    ap (λ (t : List ℕ). 0x1b ∷ 0x5b ∷ number f (0x3b ∷ number g (0x6d ∷ t)))
      (sym (append_assoc s.text a b))
    ∙ (ap (λ (t : List ℕ). 0x1b ∷ 0x5b ∷ number f (0x3b ∷ t))
          (number-append g (0x6d ∷ (s.text ++ a)) b)
        ∙ ap (λ (t : List ℕ). 0x1b ∷ 0x5b ∷ t)
            (number-append f (0x3b ∷ number g (0x6d ∷ (s.text ++ a))) b))

render_all-append : (ss : List Segment) (b : List ℕ) → render_all ss b ≡ render_all ss [] ++ b
unfolding render_all
render_all-append [] b = refl
render_all-append (s ∷ ss) b =
    ap (render s) (render_all-append ss b) ∙ render-append s (render_all ss []) b

-- When the format and its arguments give coloured text that fits the buffer, each part after a sequence
-- ESC [ f ; b m with the numbers of its colours, `cprintf` prints every part in its colours and returns.
pub cprintf-paint :
    (dtoaf : ℕ → ℕ → ℕ → List ℕ) (fmt : List ℕ) (args : List Arg) (buffer : List ℕ)
    (ss : List Segment) (v : Vga)
    → length buffer ≡ buffer_size
    → IsStyled ss
    → format_string dtoaf fmt args ≡ some (render_all ss [])
    → length (render_all ss []) < buffer_size
    → (b : List ℕ) × (cprintf dtoaf fmt args buffer v ≡ some (b, printed (paint v ss)))
unfolding cprintf formatted fill
cprintf-paint dtoaf fmt args buffer ss v size styled text fits =
    let t = render_all ss [] in
    let rest = drop (length t + 1) buffer in
    let room : ltb (length t) buffer_size ≡ true = ground arith in
    let whole = render_all-append ss (0 ∷ rest) in
    let short : length (render_all ss (0 ∷ rest)) ≤ buffer_size = omega (
      arith,
      ap (λ (l : List ℕ). length l) whole,
      length-append t (0 ∷ rest),
      length-drop (length t + 1) buffer,
    ) in
    let shown =
      ap (λ (l : List ℕ). cprintf_buffer l v) (sym whole)
      ∙ cprintf_buffer-paint ss rest v styled short in
    let filled : fill t buffer ≡ some (t ++ 0 ∷ rest) = rw (fill, room) refl in
    let at : formatted dtoaf fmt args buffer ≡ some (t ++ 0 ∷ rest) = rw (formatted, text) filled in
    (t ++ 0 ∷ rest, rw (cprintf, at, shown) refl)
