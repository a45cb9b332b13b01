-- ===== src/Vga/Scroll.antt =====
-- What the loops of `vga_scroll` in src/kernel/drivers/vga.c leave on a screen of 25 lines with 80
-- places: the lines move up in place, and the lowest ones are cleared.
use os1_meaty_skeleton.Prelude.{
  ℕ, suc, ◌+◌, ◌-◌, ◌*◌, ◌≤◌, ◌<◌, ◌≡◌, ◌≢◌, ◌⊎◌, inl, inr, refl, ap, sym, ◌∙◌, true, false,
  Bool-cases, ltb, ◌==◌, arith,
}
use os1_meaty_skeleton.Prelude.Loops.{for, for-invariant, for-invariant_zero}
use os1_meaty_skeleton.Vga.{Entry, Screen, put_entry, blank, move_line, clear_line, scroll_lines}

pub put_same : (m : Screen) (i : ℕ) (e : Entry) (j : ℕ) → j ≡ i → put_entry m i e j ≡ e
unfolding put_entry
put_same m i e j h = let t : (j == i) ≡ true = ground arith in rw t refl

pub put_other : (m : Screen) (i : ℕ) (e : Entry) (j : ℕ) → j ≢ i → put_entry m i e j ≡ m j
unfolding put_entry
put_other m i e j h = let t : (j == i) ≡ false = ground arith in rw t refl

-- The entries from `a` up to `b` are those of `f`, and the others those of `m`.
pub record IsPainted (a b : ℕ) (f m m' : Screen) : Type 0 where
  pub inside : (j : ℕ) → a ≤ j → j < b → m' j ≡ f j
  pub outside : (j : ℕ) → (j < a) ⊎ (b ≤ j) → m' j ≡ m j

IsPainted-none : (a b : ℕ) (f m : Screen) → b ≤ a → IsPainted a b f m m
IsPainted-none a b f m h = record { inside = λ j l r. absurd (omega arith); outside = λ j o. refl }

IsPainted-put :
    (a b c : ℕ) (f m t : Screen) (i : ℕ) (e : Entry)
    → c ≡ suc b
    → i ≡ b
    → e ≡ f b
    → a ≤ b
    → IsPainted a b f m t
    → IsPainted a c f m (put_entry t i e)
IsPainted-put a b c f m t i e next at value order h = record {
  inside = λ j l r. elim (Bool-cases (j == b)) [
    | inl p ↦
        let last : j ≡ b = ground arith in
        put_same t i e j (omega arith) ∙ (value ∙ ap f (sym last))
    | inr p ↦ put_other t i e j (ground arith) ∙ h.inside j l (ground arith)
  ];
  outside = λ j o. put_other t i e j (omega arith) ∙ h.outside j (omega arith);
}

-- A painted part is painted over with more of the same.
IsPainted-join :
    (a b c d : ℕ) (f m t t' : Screen)
    → a ≤ b
    → b ≤ c
    → d ≡ c
    → IsPainted a b f m t
    → IsPainted b c f t t'
    → IsPainted a d f m t'
IsPainted-join a b c d f m t t' p q e h k = record {
  inside = λ j l r. elim (Bool-cases (ltb j b)) [
    | inl o ↦ k.outside j (ground arith) ∙ h.inside j l (ground arith)
    | inr o ↦ k.inside j (ground arith) (omega (arith, e))
  ];
  outside = λ j o. k.outside j (omega arith) ∙ h.outside j (omega arith);
}

-- The entries of a line `step` lines further down.
abbrev pub below : ℕ → Screen → Screen
below step m j = m (j + step * 80)

move_line-IsPainted :
    (step k : ℕ) (m : Screen)
    → 0 < step
    → IsPainted (k * 80) (k * 80 + 80) (below step m) m (move_line 80 step (step + k) m)
unfolding move_line
move_line-IsPainted step k m h =
    for-invariant_zero (λ x t. IsPainted (k * 80) (k * 80 + x) (below step m) m t) 80 _ m
      (IsPainted-none _ _ _ m (omega arith))
      (λ x t lt p.
        IsPainted-put (k * 80) (k * 80 + x) (k * 80 + suc x) (below step m) m t _ _ (omega arith)
          (omega arith) (p.outside _ (omega arith) ∙ ap m (omega arith)) (omega arith) p)

clear_line-IsPainted :
    (a y : ℕ) (m : Screen) → IsPainted (y * 80) (y * 80 + 80) (λ j. blank a) m (clear_line 80 a y m)
unfolding clear_line
clear_line-IsPainted a y m =
    for-invariant_zero (λ x t. IsPainted (y * 80) (y * 80 + x) (λ j. blank a) m t) 80 _ m
      (IsPainted-none _ _ _ m (omega arith))
      (λ x t lt p.
        IsPainted-put (y * 80) (y * 80 + x) (y * 80 + suc x) (λ j. blank a) m t _ _ (omega arith)
          refl refl (omega arith) p)

-- Lines that are painted with what stands below in a screen that is painted so far.
IsPainted-below :
    (step k : ℕ) (m t t' : Screen)
    → IsPainted 0 (k * 80) (below step m) m t
    → IsPainted (k * 80) (k * 80 + 80) (below step t) t t'
    → IsPainted (k * 80) (k * 80 + 80) (below step m) t t'
IsPainted-below step k m t t' h p = record {
  inside = λ j l r. p.inside j l r ∙ h.outside (j + step * 80) (omega arith);
  outside = p.outside;
}

-- The first loop: the lines from `step` on move up.
lines-IsPainted :
    (step count : ℕ) (m : Screen)
    → 0 < step
    → IsPainted 0 (count * 80) (below step m) m (for count step (λ y m. move_line 80 step y m) m)
lines-IsPainted step count m h =
    for-invariant (λ k t. IsPainted 0 (k * 80) (below step m) m t) count step _ m
      (IsPainted-none 0 _ _ m (omega arith))
      (λ k t lt p.
        let line = IsPainted-below step k m t _ p (move_line-IsPainted step k t h) in
        IsPainted-join 0 (k * 80) (k * 80 + 80) (suc k * 80) (below step m) m t _ (omega arith)
          (omega arith) (omega arith) p line)

-- The second loop, and that of `vga_clear`.
pub cleared-IsPainted :
    (a first count : ℕ) (m : Screen)
    → IsPainted
        (first * 80)
        ((first + count) * 80)
        (λ j. blank a)
        m
        (for count first (λ y m. clear_line 80 a y m) m)
cleared-IsPainted a first count m =
    for-invariant (λ k t. IsPainted (first * 80) ((first + k) * 80) (λ j. blank a) m t) count first
      _ m (IsPainted-none (first * 80) ((first + 0) * 80) (λ j. blank a) m (omega arith))
      (λ k t lt p.
        IsPainted-join (first * 80) ((first + k) * 80) ((first + k) * 80 + 80)
          ((first + suc k) * 80) (λ j. blank a) m t _ (omega arith) (omega arith) (omega arith) p
          (clear_line-IsPainted a (first + k) t))

-- The screen that has been scrolled.
pub scroll_lines-IsPainted :
    (a step : ℕ) (m : Screen)
    → 0 < step
    → step < 25
    → let out = scroll_lines 80 25 a step m in
      ((j : ℕ) → j < (25 - step) * 80 → out j ≡ m (j + step * 80))
      × ((j : ℕ) → (25 - step) * 80 ≤ j → j < 2000 → out j ≡ blank a)
      × ((j : ℕ) → 2000 ≤ j → out j ≡ m j)
unfolding scroll_lines
scroll_lines-IsPainted a step m low high =
    let moved = lines-IsPainted step (25 - step) m low in
    let up = for (25 - step) step (λ y m. move_line 80 step y m) m in
    let cleared = cleared-IsPainted a (25 - step) step up in
    (
      λ j lt. cleared.outside j (omega arith) ∙ moved.inside j (omega arith) lt,
      λ j above lt. cleared.inside j above (omega arith),
      λ j above. cleared.outside j (omega arith) ∙ moved.outside j (omega arith),
    )
