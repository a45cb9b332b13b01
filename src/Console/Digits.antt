-- ===== src/Console/Digits.antt =====
-- The numbers that `itoa` and `itohex` of src/kernel/arch/i386/mconio.c write can be read back.
use os1_meaty_skeleton.Prelude.{
  ℕ, zero, suc, ◌+◌, ◌-◌, ◌*◌, ◌/◌, ◌%◌, ◌^◌, ◌≤◌, ◌<◌, ◌≡◌, inl, inr, refl, sym, ap, ◌∙◌, true,
  false, Bool, Bool-cases, arith, ltb, ◌==◌, if◌then◌else◌, List, [], ◌∷◌, ◌++◌, length, replicate,
  length-append, length-replicate, take, drop,
}
use native.Mathlib.Nat.{pow-zero, pow-suc}
use os1_meaty_skeleton.Prelude.Int.{pos, negsuc}
use os1_meaty_skeleton.Console.Format.{digit_char, digits, max_digits, itoa, itohex}

-- The value of a digit, and of a text in base `b` that continues a number.
unfoldable pub digit_value : ℕ → ℕ
digit_value c = if ltb c 0x3a then c - 0x30 else (if ltb c 0x47 then c - 0x37 else c - 0x57)

unfoldable pub value : ℕ → List ℕ → ℕ → ℕ
value b [] n = n
value b (c ∷ cs) n = value b cs (n * b + digit_value c)

digit_value-char : (uppercase : Bool) (d : ℕ) → d < 16 → digit_value (digit_char uppercase d) ≡ d
unfolding digit_value
digit_value-char true d lt = ground arith
digit_value-char false d lt = ground arith

module _ (b : ℕ) (small : b ≤ 16) (digit : (n : ℕ) → n % b < b)
    (whole : (n : ℕ) → n / b * b + n % b ≡ n)
    (smaller : (f n : ℕ) → n < b ^ suc f → n / b < b ^ f) where
  value-digits :
      (f : ℕ) (uppercase : Bool) (n : ℕ) (text : List ℕ)
      → n < b ^ f
      → value b (digits f b uppercase n text) 0 ≡ value b text n
  unfolding digits value
  value-digits zero uppercase n text lt = ap (value b text) (omega (arith, pow-zero b))
  value-digits (suc f) uppercase n text lt = elim (Bool-cases (n == 0)) [
    | inl e ↦ let nothing : n ≡ 0 = ground arith in rw e (ap (value b text) (sym nothing))
    | inr e ↦
        let last = digit_value-char uppercase (n % b) (omega (arith, digit n)) in
        rw e (
          value-digits f uppercase (n / b) _ (smaller f n lt)
          ∙ ap (value b text) (ap (λ (d : ℕ). n / b * b + d) last ∙ whole n))
  ]

value-zeros : (b n k : ℕ) (text : List ℕ) → value b (replicate k 0x30 ++ text) 0 ≡ value b text 0
unfolding value digit_value
value-zeros b n zero text = refl
value-zeros b n (suc k) text =
    ap (value b (replicate k 0x30 ++ text)) (omega arith) ∙ value-zeros b n k text

decimal : (n : ℕ) → n < 2 ^ 32 → value 10 (digits max_digits 10 false n []) 0 ≡ n
unfolding value
decimal n lt =
    value-digits 10 (omega arith) (λ n. omega arith) (λ n. omega arith)
      (λ f n h. omega (arith, pow-suc 10 f)) max_digits false n [] (omega arith)

hexadecimal :
    (n : ℕ) (uppercase : Bool) → n < 2 ^ 32 → value 16 (digits max_digits 16 uppercase n []) 0 ≡ n
unfolding value
hexadecimal n uppercase lt =
    value-digits 16 (omega arith) (λ n. omega arith) (λ n. omega arith)
      (λ f n h. omega (arith, pow-suc 16 f)) max_digits uppercase n [] (omega arith)

padded-value :
    (num width : ℕ) (hex : List ℕ)
    → value 16 hex 0 ≡ num
    → let text = replicate (width - length hex) 0x30 ++ hex in
      (value 16 text 0 ≡ num) × (width ≤ length text)
padded-value num width hex h =
    let zeros : List ℕ = replicate (width - length hex) 0x30 in
    (
      value-zeros 16 num (width - length hex) hex ∙ h,
      omega (arith, length-append zeros hex, length-replicate {A = ℕ} (width - length hex) 0x30),
    )

hex_digits :
    (num : ℕ) (uppercase : Bool)
    → num < 2 ^ 32
    → value 16 (if num == 0 then 0x30 ∷ [] else digits max_digits 16 uppercase num []) 0 ≡ num
unfolding value digit_value
hex_digits num uppercase lt = elim (Bool-cases (num == 0)) [
  | inl e ↦ rw e (ground arith)
  | inr e ↦ rw e (hexadecimal num uppercase lt)
]

decimal_text : (n : ℕ) → n < 2 ^ 31 → value 10 (itoa (pos n)) 0 ≡ n
unfolding itoa value digit_value
decimal_text zero lt = refl
decimal_text (suc n) lt = decimal (suc n) (omega arith)

-- The hexadecimal text of a word without a prefix is at least as long as the width, and has the value of
-- the word.
pub itohex-value :
    (num : ℕ) (uppercase : Bool) (width : ℕ)
    → num < 2 ^ 32
    → let text = itohex num uppercase width false in (value 16 text 0 ≡ num) × (width ≤ length text)
unfolding itohex
itohex-value num uppercase width lt = padded-value num width _ (hex_digits num uppercase lt)

-- The decimal text of an `int` that is not negative has its value. A negative one has a minus sign
-- before the text of its magnitude, but for the lowest, which has the sign alone.
pub itoa-value :
    (n : ℕ)
    → n < 2 ^ 31
    → (value 10 (itoa (pos n)) 0 ≡ n)
      × (value 10 (drop 1 (itoa (negsuc n))) 0 ≡ (if n == 0x7fffffff then 0 else n + 1))
      × (take 1 (itoa (negsuc n)) ≡ 0x2d ∷ [])
unfolding itoa
itoa-value n lt = (decimal_text n lt, decimal _ (ground arith), refl)
