-- ===== src/Unicode/Convert.antt =====
-- What the conversions of src/kernel/fs/unicode.c write, and where.
use os1_meaty_skeleton.Prelude.{
  ℕ, suc, ◌+◌, ◌-◌, ◌≤◌, ◌<◌, ◌≡◌, refl, ap, subst, ◌∙◌, true, false, List, [], ◌∷◌, arith, length,
  length-map, map, ltb, leb, ◌==◌, Bool-cases, inl, inr,
}
use os1_meaty_skeleton.Prelude.Int.{pos}
use os1_meaty_skeleton.Unicode.{
  Chars, put, ascii_loop, ascii_to_unicode, narrow_char, unicode_loop, unicode_to_ascii,
}

-- A target with a string and its terminator from the index `i` on.
abbrev pub with_string : Chars → ℕ → List ℕ → Chars
with_string dest i [] = put dest i 0
with_string dest i (c ∷ cs) = with_string (put dest i c) (i + 1) cs

ascii_loop-with_string :
    (cs : List ℕ) (i size : ℕ) (dest : Chars)
    → i + length cs + 1 < size
    → ascii_loop cs i dest size ≡ (pos 0, with_string dest i cs)
unfolding ascii_loop
ascii_loop-with_string [] i size dest lt =
    let r : leb size (i + 1) ≡ false = ground arith in rw r refl
ascii_loop-with_string (c ∷ cs) i size dest lt =
    let r : leb size (i + 1) ≡ false = ground arith in
    rw r (ascii_loop-with_string cs (i + 1) size (put dest i c) (omega arith))

unicode_loop-with_string :
    (cs : List ℕ) (i size : ℕ) (dest : Chars)
    → i + length cs ≤ size
    → unicode_loop cs i dest size ≡ (pos 0, with_string dest i (map narrow_char cs))
unfolding unicode_loop
unicode_loop-with_string [] i size dest le = let r : ltb size i ≡ false = ground arith in rw r refl
unicode_loop-with_string (c ∷ cs) i size dest le =
    let r : ltb size (i + 1) ≡ false = ground arith in
    rw r (unicode_loop-with_string cs (i + 1) size (put dest i (narrow_char c)) (omega arith))

with_string_end : (cs : List ℕ) (i : ℕ) (dest : Chars) → with_string dest i cs (i + length cs) ≡ 0
with_string_end [] i dest = let y : (i + 0 == i) ≡ true = ground arith in rw y refl
with_string_end (c ∷ cs) i dest =
    let e : i + suc (length cs) ≡ i + 1 + length cs = omega arith in
    ap (with_string (put dest i c) (i + 1) cs) e ∙ with_string_end cs (i + 1) (put dest i c)

ascii_loop_outside :
    (cs : List ℕ) (i size x : ℕ) (dest : Chars)
    → size ≤ x
    → (ascii_loop cs i dest size).1 x ≡ dest x
unfolding ascii_loop
ascii_loop_outside [] i size x dest le = elim (Bool-cases (leb size (i + 1))) [
  | inl y ↦ rw y refl
  | inr n ↦ let other : (x == i) ≡ false = ground arith in rw (n, other) refl
]
ascii_loop_outside (c ∷ cs) i size x dest le = elim (Bool-cases (leb size (i + 1))) [
  | inl y ↦ rw y refl
  | inr n ↦
      let other : (x == i) ≡ false = ground arith in
      rw n (ascii_loop_outside cs (i + 1) size x (put dest i c) le ∙ rw other refl)
]

-- Whatever the string, `ascii_to_unicode` writes nothing behind the `size` characters of its target.
pub ascii_to_unicode_bounded :
    (cs : List ℕ) (size x : ℕ) (dest : Chars)
    → size ≤ x
    → (ascii_to_unicode cs dest size).1 x ≡ dest x
ascii_to_unicode_bounded cs size x dest le = ascii_loop_outside cs 0 size x dest le

-- Where a string leaves a character to spare besides the terminator, `ascii_to_unicode` succeeds and
-- stores both; a target that is smaller by one is enough for `unicode_to_ascii`, which puts a question
-- mark for each character that is not ASCII.
pub convert-with_string :
    (cs : List ℕ) (size : ℕ) (dest : Chars)
    → length cs + 1 < size
    → (ascii_to_unicode cs dest size ≡ (pos 0, with_string dest 0 cs))
      × (unicode_to_ascii cs dest (size - 1) ≡ (pos 0, with_string dest 0 (map narrow_char cs)))
convert-with_string cs size dest lt = (
  ascii_loop-with_string cs 0 size dest (omega arith),
  unicode_loop-with_string cs 0 (size - 1) dest (omega (arith, lt)),
)

-- `unicode_to_ascii` tests its bound too late: a string as long as the target is accepted, and its
-- terminator goes to the index `size`, behind the end.
unicode_to_ascii_overrun :
    (cs : List ℕ) (size : ℕ) (dest : Chars)
    → length cs ≡ size
    → ((unicode_to_ascii cs dest size).0 ≡ pos 0) × ((unicode_to_ascii cs dest size).1 size ≡ 0)
unicode_to_ascii_overrun cs size dest e =
    let done = unicode_loop-with_string cs 0 size dest (omega (arith, e)) in
    let there : 0 + length (map narrow_char cs) ≡ size =
      omega (arith, e, length-map cs narrow_char) in
    let end =
      subst (λ k. with_string dest 0 (map narrow_char cs) k ≡ 0) there
        (with_string_end (map narrow_char cs) 0 dest) in
    (ap (λ r. r.0) done, ap (λ r. r.1 size) done ∙ end)
