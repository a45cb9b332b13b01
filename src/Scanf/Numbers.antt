-- ===== src/Scanf/Numbers.antt =====
-- `strtol` of src/libc/stdio/scanf.c on the numbers that `itoa` of the console writes.
use os1_meaty_skeleton.Prelude.{
  ℕ, zero, suc, ◌+◌, ◌-◌, ◌*◌, ◌/◌, ◌%◌, ◌^◌, ◌≤◌, ◌<◌, ◌≡◌, ◌≢◌, inl, inr, refl, sym, ap, ◌∙◌,
  true, false, ltb, leb, ◌==◌, ◌||◌, if◌then◌else◌, List, [], ◌∷◌, ◌++◌, Option, none, some, length,
  drop, Bool-cases, arith,
}
use os1_meaty_skeleton.Prelude.Int.{ℤ, pos, negsuc}
use os1_meaty_skeleton.Console.Format.{digits, itoa}
use os1_meaty_skeleton.Console.Digits.{digit_value, value, itoa-value}
use os1_meaty_skeleton.Scanf.{
  isdigit, isspace, skip_space, digit_of, number_loop, after_prefix, starts_zero, choose_base,
  read_number, read_sign, strtol,
}

abbrev pub IsDigits : List ℕ → Type 0
IsDigits [] = Unit
IsDigits (c ∷ cs) = (0x30 ≤ c) × (c ≤ 0x39) × IsDigits cs

-- What follows a number: nothing, or a space.
abbrev pub IsEnd : List ℕ → Type 0
IsEnd [] = Unit
IsEnd (c ∷ cs) = c ≡ 0x20

digits-IsDigits : (f n : ℕ) (text : List ℕ) → IsDigits text → IsDigits (digits f 10 false n text)
unfolding digits
digits-IsDigits zero n text h = h
digits-IsDigits (suc f) n text h = elim (Bool-cases (n == 0)) [
  | inl e ↦ rw e h
  | inr e ↦
      let small : ltb (n % 10) 10 ≡ true = ground arith in
      rw (e, small)
        (digits-IsDigits f (n / 10) ((0x30 + n % 10) ∷ text) (omega arith, omega arith, h))
]

-- A number only grows by its digits.
value-grows : (xs : List ℕ) (n : ℕ) → n ≤ value 10 xs n
unfolding value
value-grows [] n = omega arith
value-grows (c ∷ cs) n = omega (arith, value-grows cs (n * 10 + digit_value c))

number_loop-value :
    (xs rest : List ℕ) (n : ℕ)
    → IsDigits xs
    → IsEnd rest
    → value 10 xs n < 2 ^ 32
    → number_loop 10 (xs ++ rest) n ≡ (value 10 xs n, rest)
unfolding number_loop value digit_value
number_loop-value [] [] n h end small = refl
number_loop-value [] (c ∷ rest) n h end small =
    let stop : digit_of c ≡ none = rw end refl in rw (number_loop, stop) refl
number_loop-value (c ∷ cs) rest n (lo, hi, h) end small =
    let here : isdigit c ≡ true = ground arith in
    let digit : digit_of c ≡ some (c - 0x30) = rw here refl in
    let low : leb 10 (c - 0x30) ≡ false = ground arith in
    let known : digit_value c ≡ c - 0x30 = ground arith in
    let next : (n * 10 + (c - 0x30)) % 2 ^ 32 ≡ n * 10 + digit_value c =
      omega (arith, known, small, value-grows cs (n * 10 + digit_value c)) in
    rw (number_loop, digit, low, next)
      (number_loop-value cs rest (n * 10 + digit_value c) h end small)

choose_base-decimal : (s : List ℕ) → choose_base 10 s ≡ (10, s)
unfolding choose_base
choose_base-decimal s = go (after_prefix s)
  where
    go :
        (o : Option (List ℕ))
        → ◌≡◌ {A = ℕ × List ℕ}
            (elim o [
              | some cs ↦ if 10 == 16 || 10 == 0 then (16, cs) else (10, s)
              | none ↦ if 10 == 0 then (if starts_zero s then 8 else 10, s) else (10, s)
            ])
            (10, s)
    go none = refl
    go (some cs) = refl

read_number-value :
    (xs rest : List ℕ)
    → IsDigits xs
    → IsEnd rest
    → value 10 xs 0 < 2 ^ 32
    → read_number 10 (xs ++ rest) ≡ (value 10 xs 0, rest)
unfolding read_number
read_number-value xs rest h end small =
    rw (choose_base-decimal (xs ++ rest)) (number_loop-value xs rest 0 h end small)

-- The word of 32 bits of an `int`.
abbrev pub to_word : ℤ → ℕ
to_word (pos n) = n
to_word (negsuc n) = 2 ^ 32 - 1 - n

abbrev pub IsInt : ℤ → Type 0
IsInt (pos n) = n < 2 ^ 31
IsInt (negsuc n) = n < 2 ^ 31 - 1

strtol_digits :
    (xs rest : List ℕ)
    → IsDigits xs
    → xs ≢ []
    → IsEnd rest
    → value 10 xs 0 < 2 ^ 32
    → strtol (xs ++ rest) 10 ≡ (value 10 xs 0, rest)
unfolding strtol read_sign skip_space
strtol_digits [] rest h ne end small = absurd (ne refl)
strtol_digits (c ∷ cs) rest (lo, hi, h) ne end small =
    let no_space : isspace c ≡ false = ground arith in
    let no_minus : (c == 0x2d) ≡ false = ground arith in
    let no_plus : (c == 0x2b) ≡ false = ground arith in
    rw (no_space, no_minus, no_plus, read_number-value (c ∷ cs) rest (lo, hi, h) end small) refl

pub itoa-IsDigits : (n : ℕ) → IsDigits (itoa (pos n))
unfolding itoa
itoa-IsDigits zero = (omega arith, omega arith, tt)
itoa-IsDigits (suc n) = digits-IsDigits 10 (suc n) [] tt

pub itoa_some : (n : ℕ) → n < 2 ^ 31 → itoa (pos n) ≢ []
unfolding itoa value
itoa_some zero h e = let size = ap (λ (l : List ℕ). length l) e in absurd (omega (arith, size))
itoa_some (suc n) h e =
    let nothing : 0 ≡ suc n =
      sym (ap (λ (l : List ℕ). value 10 l 0) e) ∙ (itoa-value (suc n) h).0 in
    absurd (omega (arith, nothing))

-- The digits behind a minus sign.
magnitude : ℕ → List ℕ
magnitude n = drop 1 (itoa (negsuc n))

magnitude-IsDigits : (n : ℕ) → (itoa (negsuc n) ≡ 0x2d ∷ magnitude n) × IsDigits (magnitude n)
unfolding itoa magnitude
magnitude-IsDigits n = (refl, digits-IsDigits 10 _ [] tt)

strtol_minus :
    (xs rest : List ℕ) (n : ℕ)
    → IsDigits xs
    → IsEnd rest
    → value 10 xs 0 ≡ suc n
    → n < 2 ^ 31
    → strtol (0x2d ∷ (xs ++ rest)) 10 ≡ (2 ^ 32 - 1 - n, rest)
unfolding strtol read_sign skip_space
strtol_minus xs rest n h end v small =
    let word : (2 ^ 32 - value 10 xs 0) % 2 ^ 32 ≡ 2 ^ 32 - 1 - n = omega (arith, v) in
    rw (read_number-value xs rest h end (omega (arith, v))) (ap (λ (w : ℕ). (w, rest)) word)

-- `strtol` gives back the number that `itoa` has written, whatever follows behind a space.
pub strtol-itoa :
    (d : ℤ) (rest : List ℕ) → IsInt d → IsEnd rest → strtol (itoa d ++ rest) 10 ≡ (to_word d, rest)
unfolding magnitude
strtol-itoa (pos n) rest h end =
    let v = (itoa-value n h).0 in
    strtol_digits (itoa (pos n)) rest (itoa-IsDigits n) (itoa_some n h) end (omega (arith, v))
    ∙ ap (λ (w : ℕ). (w, rest)) v
strtol-itoa (negsuc n) rest h end =
    let (sign, digit) = magnitude-IsDigits n in
    let lowest : (n == 0x7fffffff) ≡ false = ground arith in
    let v : value 10 (magnitude n) 0 ≡ suc n =
      (itoa-value n (omega arith)).1 ∙ rw lowest (omega arith) in
    ap (λ (l : List ℕ). strtol (l ++ rest) 10) sign
    ∙ strtol_minus (magnitude n) rest n digit end v (omega arith)
