-- ===== src/Paging/Bitmap.antt =====
-- The bitmap of physical pages in src/kernel/arch/i386/paging.c as a set of pages.
use os1_meaty_skeleton.Prelude.{
  ℕ, suc, ◌*◌, ◌/◌, ◌%◌, ◌^◌, ◌<◌, ◌≡◌, inl, inr, refl, ap, ◌∙◌, arith, ◌==◌, true, false, Bool,
  Bool-cases, not, zero, bit_or, if◌then◌else◌, ltb, ◌||◌, subst,
}
use os1_meaty_skeleton.Prelude.Bits.{
  bit_and_digit, bit_or_digit_self, bit_or_digit_other, zero_digit,
}
use native.Mathlib.Nat.{one-le-pow}
use os1_meaty_skeleton.Prelude.Int.{ℤ, pos, negsuc}
use os1_meaty_skeleton.Prelude.Loops.{for, for-invariant_zero}
use os1_meaty_skeleton.Paging.{
  Paging, mark, bitmap_max_size, set_phys_page_mapped, phys_page_already_mapped, to_int,
}
use os1_meaty_skeleton.Paging.Init.{
  Multiboot, mark_pages, reserved_end_page, mark_initial_used_physical_pages, init_paging_stage2,
}

-- The digit of a page, and the set.
abbrev pub digit_of : (ℕ → ℕ) → ℕ → ℕ
digit_of bitmap page = bitmap (page / 32) / 2 ^ (page % 32) % 2

abbrev pub marked : (ℕ → ℕ) → ℕ → Bool
marked bitmap page = digit_of bitmap page == 1

-- A page is marked, and no other page is concerned.
marked-mark :
    (bitmap : ℕ → ℕ) (q page : ℕ)
    → marked (mark bitmap (q / 32) (q % 32)) page ≡ (page == q) || marked bitmap page
unfolding mark
marked-mark bitmap q page =
    let word = bitmap (q / 32) in
    elim (Bool-cases (page / 32 == q / 32)) [
      | inl e ↦ elim (Bool-cases (page % 32 == q % 32)) [
        | inl f ↦
            let same : (page == q) ≡ true = ground arith in
            let digit : bit_or word (2 ^ (q % 32)) / 2 ^ (page % 32) % 2 ≡ 1 =
              subst (λ d. bit_or word (2 ^ (q % 32)) / 2 ^ d % 2 ≡ 1) (ground arith)
                (bit_or_digit_self (q % 32) word) in
            rw (same, e, digit) refl
        | inr f ↦
            let other : (page == q) ≡ false = ground arith in
            let row : q / 32 ≡ page / 32 = ground arith in
            let digit = bit_or_digit_other (q % 32) (page % 32) word (ground arith) in
            rw (other, e, digit, row) refl
      ]
      | inr e ↦ let other : (page == q) ≡ false = ground arith in rw (other, e) refl
    ]

ltb-next : (page k : ℕ) (b : Bool) → (page == k) || (ltb page k || b) ≡ ltb page (suc k) || b
ltb-next page k b = ground arith

marked-mark_pages :
    (n : ℕ) (bitmap : ℕ → ℕ) (page : ℕ)
    → marked (mark_pages n bitmap) page ≡ ltb page n || marked bitmap page
unfolding mark_pages
marked-mark_pages n bitmap =
    for-invariant_zero (λ k t. (page : ℕ) → marked t page ≡ ltb page k || marked bitmap page) n _
      bitmap (λ page. let none_yet : ltb page 0 ≡ false = ground arith in rw none_yet refl)
      (λ k t lt h page.
        marked-mark t k page
        ∙ (ap (λ b. (page == k) || b) (h page) ∙ ltb-next page k (marked bitmap page)))

-- The loop that clears the bitmap.
cleared_word :
    (n : ℕ) (bitmap : ℕ → ℕ) (i : ℕ)
    → i < n
    → for n 0 (λ i b j. if j == i then 0 else b j) bitmap i ≡ 0
cleared_word n bitmap =
    for-invariant_zero (λ k t. (i : ℕ) → i < k → t i ≡ 0) n (λ i b j. if j == i then 0 else b j)
      bitmap (λ i lt. absurd (omega arith))
      (λ k t lt h i below. elim (Bool-cases (i == k)) [
        | inl e ↦ rw e refl
        | inr e ↦ rw e (h i (ground arith))
      ])

unmarked : (b : Bool) → b || false ≡ b
unmarked true = refl
unmarked false = refl

-- After the second stage a page below 4 GB is marked exactly when it lies below the end of the kernel
-- and its modules.
init_paging_stage2-marked :
    (mbi : Multiboot) (kernel_end : ℕ) (s : Paging) (page : ℕ)
    → page < 2 ^ 20
    → let out = init_paging_stage2 mbi kernel_end s in
      (out.1 ≡ pos 0) × (marked out.0.bitmap page ≡ ltb page (reserved_end_page mbi kernel_end))
unfolding init_paging_stage2 mark_initial_used_physical_pages
init_paging_stage2-marked mbi kernel_end s page lt =
    let reserved = reserved_end_page mbi kernel_end in
    let cleared = cleared_word bitmap_max_size s.bitmap (page / 32) (omega arith) in
    (
      refl,
      marked-mark_pages reserved _ page
          ∙ rw (cleared, zero_digit (page % 32)) (unmarked (ltb page reserved)),
    )

-- A result of type `int` as a condition.
abbrev pub truth : ℤ → Bool
truth (pos n) = not (n == 0)
truth (negsuc n) = true

truth-to_int : (w : ℕ) → truth (to_int w) ≡ not (w == 0)
truth-to_int w = elim (Bool-cases (ltb w 0x80000000)) [
  | inl e ↦ rw e refl
  | inr e ↦ let large : (w == 0) ≡ false = ground arith in rw (e, large) refl
]

digit-test : (d k : ℕ) → d < 2 → not (d * 2 ^ k == 0) ≡ (d == 1)
digit-test zero k lt = let none : ((0 * 2 ^ k) == 0) ≡ true = ground arith in rw none refl
digit-test (suc zero) k lt =
    let power : ((1 * 2 ^ k) == 0) ≡ false = ground (arith, one-le-pow k 2 (omega arith)) in
    rw power refl
digit-test (suc (suc d)) k lt = absurd (omega arith)

-- For pages below 4 GB the bitmap is a set: `set_phys_page_mapped` inserts the page and concerns no
-- other, and the result of `phys_page_already_mapped` is not 0 exactly for the pages in the set.
pub set_phys_page_mapped-marked :
    (s : Paging) (q page : ℕ)
    → q < 2 ^ 20
    → page < 2 ^ 20
    → (marked (set_phys_page_mapped s q).bitmap page ≡ (page == q) || marked s.bitmap page)
      × (truth (phys_page_already_mapped s page) ≡ marked s.bitmap page)
unfolding set_phys_page_mapped phys_page_already_mapped
set_phys_page_mapped-marked s q page qlt plt =
    let in_q : ltb bitmap_max_size (q / 32 % 0x10000) ≡ false = ground arith in
    let in_page : ltb bitmap_max_size (page / 32 % 0x10000) ≡ false = ground arith in
    let row_q : q / 32 % 0x10000 ≡ q / 32 = omega arith in
    let row_page : page / 32 % 0x10000 ≡ page / 32 = omega arith in
    (
      rw (in_q, row_q) (marked-mark s.bitmap q page),
      rw (in_page, row_page, bit_and_digit (page % 32) (s.bitmap (page / 32)))
          (truth-to_int _ ∙ digit-test (digit_of s.bitmap page) (page % 32) (omega arith)),
    )
