-- ===== src/Console/Escapes.antt =====
-- The loop of `cprintf` in src/kernel/arch/i386/mconio.c comes to an end: every turn takes a byte of
-- the buffer at least.
use os1_meaty_skeleton.Prelude.{
  ℕ, zero, suc, ◌≤◌, ◌<◌, ◌≡◌, ◌⊎◌, inl, inr, refl, Bool-cases, arith, ◌||◌, ◌&&◌, ◌==◌, List, [],
  ◌∷◌, length,
}
use os1_meaty_skeleton.Vga.{Vga}
use os1_meaty_skeleton.Console.{
  Escape, Step, finished, next, outside, put_byte, end_escape, escape, escape_step, read_escape,
  cprintf_step, Outcome, printed, overrun, cprintf_loop,
}

-- A turn goes on with fewer than `k` bytes, or ends.
abbrev pub Within : ℕ → Step → Type 0
Within k (next bs v) = length bs < k
Within k (finished v) = Unit
Within k outside = Unit

put_byte-Within : (k : ℕ) (bs : List ℕ) (v : Vga) → length bs ≤ k → Within k (put_byte bs v)
unfolding put_byte
put_byte-Within k [] v h = tt
put_byte-Within k (b ∷ bs) v h = omega arith

length-read_escape : (bs : List ℕ) (e : Escape) → length (read_escape bs e).0 ≤ length bs
unfolding read_escape
length-read_escape [] e = omega arith
length-read_escape (b ∷ bs) e = elim (Bool-cases (b == 0x6d || b == 0)) [
  | inl h ↦ rw h (omega arith)
  | inr h ↦ rw h (omega (arith, length-read_escape bs (escape_step b e)))
]

end_escape-Within :
    (k : ℕ) (bs : List ℕ) (e : Escape) (v : Vga) → length bs ≤ k → Within k (end_escape bs e v)
unfolding end_escape
end_escape-Within k [] e v h = tt
end_escape-Within k (b ∷ bs) e v h = elim (Bool-cases (e.valid && b == 0x6d)) [
  | inl t ↦ rw t (omega arith)
  | inr t ↦ rw t (put_byte-Within k bs v (omega arith))
]

escape-Within : (color : ℕ) (bs : List ℕ) (v : Vga) → Within (length bs) (escape color bs v)
unfolding escape
escape-Within color [] v = tt
escape-Within color (b ∷ bs) v = elim (Bool-cases (b == 0x5b)) [
  | inl h ↦
      rw h (end_escape-Within (suc (length bs)) _ _ v (omega (arith, length-read_escape bs _)))
  | inr h ↦ rw h (put_byte-Within (suc (length bs)) (b ∷ bs) v (omega arith))
]

pub cprintf_step-Within :
    (color : ℕ) (bs : List ℕ) (v : Vga) → Within (length bs) (cprintf_step color bs v)
unfolding cprintf_step
cprintf_step-Within color [] v = tt
cprintf_step-Within color (b ∷ bs) v = elim (Bool-cases (b == 0)) [
  | inl h ↦ rw h tt
  | inr h ↦ elim (Bool-cases (b == 0x1b)) [
    | inl k ↦ rw (h, k) (wider (length bs) (escape color bs v) (escape-Within color bs v))
    | inr k ↦ rw (h, k) (put_byte-Within (suc (length bs)) (b ∷ bs) v (omega arith))
  ]
]
  where
    wider : (n : ℕ) (s : Step) → Within n s → Within (suc n) s
    wider n (next cs w) h = omega arith
    wider n (finished w) h = tt
    wider n outside h = tt

-- The loop has ended, at the terminator or behind the buffer.
abbrev pub Ends : Outcome → Type 0
Ends o = (o ≡ overrun) ⊎ ((w : Vga) × (o ≡ printed w))

-- With more fuel than the buffer has bytes the loop of `cprintf` does not run out of it: it stops at a
-- terminator, or reads behind the buffer.
pub cprintf_loop-Ends :
    (n color : ℕ) (bs : List ℕ) (v : Vga) → length bs < n → Ends (cprintf_loop n color bs v)
unfolding cprintf_loop
cprintf_loop-Ends zero color bs v h = absurd (omega arith)
cprintf_loop-Ends (suc n) color bs v h =
    go (cprintf_step color bs v) (cprintf_step-Within color bs v)
      (λ cs w lt. cprintf_loop-Ends n color cs w (omega arith))
  where
    go :
        (s : Step)
        → Within (length bs) s
        → ((cs : List ℕ) (w : Vga) → length cs < length bs → Ends (cprintf_loop n color cs w))
        → Ends (elim s [
          | finished w ↦ printed w
          | next cs w ↦ cprintf_loop n color cs w
          | outside ↦ overrun
        ])
    go (finished w) t ih = inr (w, refl)
    go (next cs w) t ih = ih cs w t
    go outside t ih = inl refl
