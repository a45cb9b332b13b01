-- ===== src/Console/Stops.antt =====
-- The loop of `cprintf` in src/kernel/arch/i386/mconio.c stays in its buffer where zeros stand behind the text.
use os1_meaty_skeleton.Prelude.{
  ℕ, zero, suc, ◌<◌, ◌≡◌, ◌⊎◌, true, false, inl, inr, refl, Bool-cases, arith, ◌||◌, ◌&&◌, ◌==◌,
  List, [], ◌∷◌, ◌++◌, length,
}
use os1_meaty_skeleton.Vga.{Vga}
use os1_meaty_skeleton.Console.{
  Escape, Step, finished, next, outside, put_byte, end_escape, escape, escape_step, read_escape,
  start_escape, cprintf_step, Outcome, printed, overrun, cprintf_loop,
}
use os1_meaty_skeleton.Console.Escapes.{Within, cprintf_step-Within}

-- The bytes begin with `n` zeros.
abbrev Zeros : ℕ → List ℕ → Type 0
Zeros zero bs = Unit
Zeros (suc n) [] = ⊥
Zeros (suc n) (b ∷ bs) = (b ≡ 0) × Zeros n bs

-- Three zeros in a row stand somewhere.
abbrev HasEnd : List ℕ → Type 0
HasEnd [] = ⊥
HasEnd (b ∷ bs) = Zeros 3 (b ∷ bs) ⊎ HasEnd bs

-- Or at least `n` of them are left here.
abbrev Guarded : ℕ → List ℕ → Type 0
Guarded n bs = Zeros n bs ⊎ HasEnd bs

HasEnd-append : (front rest : List ℕ) → HasEnd (front ++ (0 ∷ 0 ∷ 0 ∷ rest))
HasEnd-append [] rest = inl (refl, (refl, (refl, tt)))
HasEnd-append (b ∷ front) rest = inr (HasEnd-append front rest)

behind_one : (b : ℕ) (bs : List ℕ) → HasEnd (b ∷ bs) → Guarded 2 bs
behind_one b bs (inl (z, zs)) = inl zs
behind_one b bs (inr h) = inr h

behind_two : (b : ℕ) (bs : List ℕ) → Guarded 2 (b ∷ bs) → Guarded 1 bs
behind_two b [] (inl (z, zs)) = inl zs
behind_two b (c ∷ bs) (inl (z, zs)) = inl zs
behind_two b bs (inr (inr h)) = inr h
behind_two b [] (inr (inl (z, zs))) = inl zs
behind_two b (c ∷ bs) (inr (inl (z, (y, ys)))) = inl (y, tt)

-- A turn goes on where the buffer still has an end, or ends.
abbrev Stays : Step → Type 0
Stays (finished v) = Unit
Stays (next bs v) = Guarded 1 bs
Stays outside = ⊥

put_byte-Stays : (bs : List ℕ) (v : Vga) → Guarded 2 bs → Stays (put_byte bs v)
unfolding put_byte
put_byte-Stays [] v (inl h) = h
put_byte-Stays [] v (inr h) = h
put_byte-Stays (b ∷ bs) v h = behind_two b bs h

read_escape-HasEnd : (bs : List ℕ) (e : Escape) → HasEnd bs → HasEnd (read_escape bs e).0
unfolding read_escape
read_escape-HasEnd [] e h = h
read_escape-HasEnd (b ∷ bs) e h = elim (Bool-cases (b == 0x6d || b == 0)) [
  | inl y ↦ rw y h
  | inr y ↦ rw y (read_escape-HasEnd bs (escape_step b e) (later h y))
]
  where
    later : HasEnd (b ∷ bs) → (b == 0x6d || b == 0) ≡ false → HasEnd bs
    later (inl (z, zs)) y = absurd (ground (arith, z, y))
    later (inr k) y = k

end_escape-Stays : (bs : List ℕ) (e : Escape) (v : Vga) → HasEnd bs → Stays (end_escape bs e v)
unfolding end_escape
end_escape-Stays [] e v h = h
end_escape-Stays (b ∷ bs) e v h = elim (Bool-cases (e.valid && b == 0x6d)) [
  | inl y ↦ rw y (m_left h y)
  | inr y ↦ rw y (put_byte-Stays bs v (behind_one b bs h))
]
  where
    m_left : HasEnd (b ∷ bs) → (e.valid && b == 0x6d) ≡ true → Guarded 1 bs
    m_left (inl (z, zs)) y = absurd (ground (arith, z, y))
    m_left (inr k) y = inr k

escape-Stays : (color : ℕ) (bs : List ℕ) (v : Vga) → HasEnd bs → Stays (escape color bs v)
unfolding escape
escape-Stays color [] v h = h
escape-Stays color (b ∷ bs) v h = elim (Bool-cases (b == 0x5b)) [
  | inl y ↦ rw y (end_escape-Stays _ _ v (read_escape-HasEnd bs (start_escape color) (bracket h y)))
  | inr y ↦ rw y (put_byte-Stays (b ∷ bs) v (inr h))
]
  where
    bracket : HasEnd (b ∷ bs) → (b == 0x5b) ≡ true → HasEnd bs
    bracket (inl (z, zs)) y = absurd (ground (arith, z, y))
    bracket (inr k) y = k

cprintf_step-Stays :
    (color : ℕ) (bs : List ℕ) (v : Vga) → Guarded 1 bs → Stays (cprintf_step color bs v)
unfolding cprintf_step
cprintf_step-Stays color [] v (inl h) = h
cprintf_step-Stays color [] v (inr h) = h
cprintf_step-Stays color (b ∷ bs) v h = elim (Bool-cases (b == 0)) [
  | inl y ↦ rw y tt
  | inr y ↦ elim (Bool-cases (b == 0x1b)) [
    | inl k ↦ rw (y, k) (escape-Stays color bs v (later h y))
    | inr k ↦ rw (y, k) (put_byte-Stays (b ∷ bs) v (inr (inr (later h y))))
  ]
]
  where
    later : Guarded 1 (b ∷ bs) → (b == 0) ≡ false → HasEnd bs
    later (inl (z, zs)) y = absurd (ground (arith, z, y))
    later (inr (inl (z, zs))) y = absurd (ground (arith, z, y))
    later (inr (inr k)) y = k

loop-Stays :
    (n color : ℕ) (bs : List ℕ) (v : Vga)
    → Guarded 1 bs
    → length bs < n
    → (w : Vga) × (cprintf_loop n color bs v ≡ printed w)
unfolding cprintf_loop
loop-Stays zero color bs v g h = absurd (omega arith)
loop-Stays (suc n) color bs v g h =
    go (cprintf_step color bs v) (cprintf_step-Within color bs v) (cprintf_step-Stays color bs v g)
      (λ cs w k lt. loop-Stays n color cs w k (omega arith))
  where
    go :
        (s : Step)
        → Within (length bs) s
        → Stays s
        → ((cs : List ℕ) (w : Vga)
            → Guarded 1 cs
            → length cs < length bs
            → (u : Vga) × (cprintf_loop n color cs w ≡ printed u))
        → (u : Vga) × (elim s as (λ _. Outcome) [
          | finished w ↦ printed w
          | next cs w ↦ cprintf_loop n color cs w
          | outside ↦ overrun
        ]
            ≡ printed u)
    go (finished w) t k ih = (w, refl)
    go (next cs w) t k ih = ih cs w k t
    go outside t k ih = absurd k

-- Whatever bytes and escape sequences the buffer of `cprintf` holds, if three zeros in a row stand somewhere in
-- it, the loop stops at a terminator and reads nothing behind the buffer: one turn more than the buffer has
-- bytes is enough.
pub cprintf_loop-stops :
    (color : ℕ) (front rest : List ℕ) (v : Vga)
    → (w : Vga) × (cprintf_loop
          (suc (length (front ++ (0 ∷ 0 ∷ 0 ∷ rest))))
          color
          (front ++ (0 ∷ 0 ∷ 0 ∷ rest))
          v
        ≡ printed w)
cprintf_loop-stops color front rest v =
    loop-Stays (suc (length (front ++ (0 ∷ 0 ∷ 0 ∷ rest)))) color (front ++ (0 ∷ 0 ∷ 0 ∷ rest)) v
      (inr (HasEnd-append front rest)) (omega arith)
