-- ===== src/Mbr/First.antt =====
-- Which partition `mbr_parse` of src/kernel/fs/mbr.c finds.
use os1_meaty_skeleton.Prelude.{
  ℕ, zero, suc, ◌+◌, ◌≤◌, ◌<◌, ◌≡◌, ◌⊎◌, refl, ap, subst, sym, true, false, ◌||◌, Option, none,
  some, arith, ◌==◌, Bool-cases, inl, inr,
}
use os1_meaty_skeleton.Prelude.Int.{ℤ, pos, negsuc}
use os1_meaty_skeleton.Disk.{Buffer, Device, u16_at}
use os1_meaty_skeleton.Mbr.{type_of, extent_of, scan, mbr_result, mbr_parse}

-- The types 0x0b and 0x0c are those of FAT32.
abbrev pub IsFat : Buffer → ℕ → Type 0
IsFat b i = (type_of b i ≡ 0x0b) ⊎ (type_of b i ≡ 0x0c)

-- From `i` on, `n` partitions: the first FAT32 partition, or that there is none.
abbrev IsFirst : Buffer → ℕ → ℕ → Option (ℕ × ℕ) → Type 0
IsFirst b n i none = (j : ℕ) → i ≤ j → j < i + n → ¬ IsFat b j
IsFirst b n i (some e) =
    (k : ℕ) × (i ≤ k)
    × (k < i + n)
    × IsFat b k
    × (e ≡ extent_of b k)
    × ((j : ℕ) → i ≤ j → j < k → ¬ IsFat b j)

IsFirst-suc :
    (b : Buffer) (n i : ℕ) (r : Option (ℕ × ℕ))
    → ¬ IsFat b i
    → IsFirst b n (i + 1) r
    → IsFirst b (suc n) i r
IsFirst-suc b n i none other h = λ j le lt. elim (Bool-cases (j == i)) [
  | inl y ↦ let e : j ≡ i = ground arith in subst (λ k. ¬ IsFat b k) (sym e) other
  | inr n' ↦ h j (ground arith) (ground arith)
]
IsFirst-suc b n i (some e) other (k, le, lt, fat, at, before) = (
  k,
  omega (arith, le),
  omega (arith, lt),
  fat,
  at,
  λ j le' lt'. elim (Bool-cases (j == i)) [
    | inl y ↦ let e' : j ≡ i = ground arith in subst (λ k'. ¬ IsFat b k') (sym e') other
    | inr n' ↦ before j (ground arith) lt'
  ],
)

scan-found : (n i : ℕ) (b : Buffer) → IsFat b i → scan (suc n) b i ≡ some (extent_of b i)
unfolding scan
scan-found n i b (inl e) =
    let used : (type_of b i == 0x00) ≡ false = ground arith in
    let first : (type_of b i == 0x0b) ≡ true = ground arith in rw (used, first) refl
scan-found n i b (inr e) =
    let used : (type_of b i == 0x00) ≡ false = ground arith in
    let first : (type_of b i == 0x0b) ≡ false = ground arith in
    let second : (type_of b i == 0x0c) ≡ true = ground arith in rw (used, first, second) refl

scan_next :
    (n i : ℕ) (b : Buffer)
    → (type_of b i == 0x0b) ≡ false
    → (type_of b i == 0x0c) ≡ false
    → scan (suc n) b i ≡ scan n b (i + 1)
unfolding scan
scan_next n i b first second = elim (Bool-cases (type_of b i == 0x00)) [
  | inl y ↦ rw y refl
  | inr used ↦ rw (used, first, second) refl
]

scan-IsFirst : (n i : ℕ) (b : Buffer) → IsFirst b n i (scan n b i)
unfolding scan
scan-IsFirst zero i b = λ j le lt. absurd (omega arith)
scan-IsFirst (suc n) i b = elim (Bool-cases (type_of b i == 0x0b || type_of b i == 0x0c)) [
  | inl y ↦
      let fat : IsFat b i = ground arith in
      subst (IsFirst b (suc n) i) (sym (scan-found n i b fat))
        (i, omega arith, omega arith, fat, refl, λ j le lt. absurd (omega arith))
  | inr none_here ↦
      let first : (type_of b i == 0x0b) ≡ false = ground arith in
      let second : (type_of b i == 0x0c) ≡ false = ground arith in
      let other : ¬ IsFat b i = ground arith in
      subst (IsFirst b (suc n) i) (sym (scan_next n i b first second))
        (IsFirst-suc b n i (scan n b (i + 1)) other (scan-IsFirst n (i + 1) b))
]

-- What `mbr_parse` should answer: 0 with the extent of the first FAT32 partition, or -1 when none of
-- the four is one.
abbrev pub Answers : Buffer → ℤ × Option (ℕ × ℕ) → Type 0
Answers b r =
    ((r ≡ (negsuc 0, none)) × ((j : ℕ) → j < 4 → ¬ IsFat b j))
    ⊎ ((k : ℕ) × (k < 4)
        × IsFat b k
        × ((j : ℕ) → j < k → ¬ IsFat b j)
        × (r ≡ (pos 0, some (extent_of b k))))

-- On a block with the signature, `mbr_parse` answers with the first partition of the type 0x0b or
-- 0x0c, in the order of the table, and with -1 exactly when there is none.
pub mbr_parse-Answers :
    (dev : Device) (b : Buffer)
    → dev 0 1 ≡ some b
    → u16_at b 510 ≡ 0xaa55
    → Answers b (mbr_parse dev)
unfolding mbr_parse mbr_result
mbr_parse-Answers dev b read signed =
    let s : (u16_at b 510 == 0xaa55) ≡ true = ground (arith, signed) in
    let parsed : mbr_parse dev ≡ mbr_result (scan 4 b 0) = rw (mbr_parse, read, s) refl in
    subst (Answers b) (sym parsed) (answers (scan 4 b 0) (scan-IsFirst 4 0 b))
  where
    answers : (r : Option (ℕ × ℕ)) → IsFirst b 4 0 r → Answers b (mbr_result r)
    answers none h = inl (refl, λ j lt. h j (omega arith) (omega arith))
    answers (some e) (k, _, lt, fat, at, before) = inr (
      k,
      omega (arith, lt),
      fat,
      (λ j lt'. before j (omega arith) lt'),
      ap (λ x. (pos 0, some x)) at,
    )
