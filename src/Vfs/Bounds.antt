-- ===== src/Vfs/Bounds.antt =====
-- The sums of offsets in src/kernel/fs/vfs.c, which have 32 bits.
use os1_meaty_skeleton.Prelude.{
  ℕ, ◌+◌, ◌%◌, ◌^◌, ◌<◌, ltb, ◌≡◌, true, false, arith, Bool-cases, inl, inr,
}
use os1_meaty_skeleton.Prelude.Int.{ℤ, pos, negsuc, pos_part, ltb_ℤ, to_int, ◌+int◌}
use os1_meaty_skeleton.Vfs.Calls.{is_negative}

-- An `off_t` that is not negative.
abbrev pub IsOffset : ℤ → Type 0
IsOffset o = (is_negative o ≡ false) × (pos_part o < 2 ^ 31)

pub sum-IsOffset :
    (a b : ℤ)
    → IsOffset a
    → ltb_ℤ (pos 0) b ≡ true
    → pos_part a + pos_part b < 2 ^ 31
    → IsOffset (a +int b)
unfolding ◌+int◌
sum-IsOffset (pos m) (pos n) ha hb small =
    let sum : (m % 2 ^ 32 + n % 2 ^ 32) % 2 ^ 32 ≡ m + n = omega arith in
    let low : ltb (m + n) (2 ^ 31) ≡ true = ground arith in rw (sum, low) (ground arith, small)
sum-IsOffset (pos m) (negsuc n) ha hb small = absurd (ground (arith, hb))
sum-IsOffset (negsuc m) b ha hb small = absurd (ground (arith, ha.0))

pub to_int-small : (n : ℕ) → pos_part (to_int n) < 2 ^ 31
to_int-small n = elim (Bool-cases (ltb (n % 2 ^ 32) (2 ^ 31))) [
  | inl y ↦ rw y (ground arith)
  | inr y ↦ rw y (omega arith)
]
