-- ===== src/Snprintf/Signs.antt =====
-- What `put_number` of src/libc/string/snprintf.c writes for a number.
use os1_meaty_skeleton.Prelude.{
  ℕ, zero, suc, ◌-◌, ◌/◌, ◌%◌, ◌≤◌, ◌<◌, ◌≡◌, refl, ap, ◌∙◌, Bool, ◌||◌, List, [], ◌∷◌, ◌++◌, arith,
  length, replicate, ◌==◌, if◌then◌else◌, Bool-cases, inl, inr,
}
use os1_meaty_skeleton.Snprintf.{FormatSpec, u64}
use os1_meaty_skeleton.Snprintf.Number.{
  Out, digit_char, digits_loop, base_of, is_negative, number_text, precision_of, put_chars,
  put_number,
}
use os1_meaty_skeleton.Snprintf.Text.{in_field}
use os1_meaty_skeleton.Snprintf.Fields.{put_number-in_field}
use os1_meaty_skeleton.Snprintf.Digits.{value, digits_of, digits_of-value}

-- The digits to a base, in the case that is asked for.
abbrev pub AreDigits : Bool → ℕ → List ℕ → Type 0
AreDigits upper b [] = Unit
AreDigits upper b (c ∷ cs) = ((d : ℕ) × (d < b) × (c ≡ digit_char upper d)) × AreDigits upper b cs

digits_loop-AreDigits :
    (upper : Bool) (b : ℕ)
    → ((v : ℕ) → v % b < b)
    → (k v : ℕ) (p : List ℕ) → AreDigits upper b p
    → AreDigits upper b (digits_loop k upper b v p)
unfolding digits_loop
digits_loop-AreDigits upper b h zero v p are = are
digits_loop-AreDigits upper b h (suc k) v p are =
    let more : AreDigits upper b (digit_char upper (v % b) ∷ p) = ((v % b, h v, refl), are) in
    let ih = digits_loop-AreDigits upper b h k (v / b) (digit_char upper (v % b) ∷ p) more in
    elim (Bool-cases (v / b == 0)) [ inl y ↦ rw y more | inr n ↦ rw n ih ]

length-digits_loop :
    (upper : Bool) (b k v : ℕ) (p : List ℕ) → length p ≤ length (digits_loop k upper b v p)
unfolding digits_loop
length-digits_loop upper b zero v p = omega arith
length-digits_loop upper b (suc k) v p =
    let ih = length-digits_loop upper b k (v / b) (digit_char upper (v % b) ∷ p) in
    elim (Bool-cases (v / b == 0)) [ inl y ↦ rw y (omega arith) | inr n ↦ rw n (omega (arith, ih)) ]

digits_of_some : (spec : FormatSpec) (n : ℕ) → 0 < length (digits_of spec n)
unfolding digits_loop
digits_of_some spec n =
    let upper = spec.specifier == b'X' in
    let b = base_of spec in
    let ih = length-digits_loop upper b 30 (n / b) (digit_char upper (n % b) ∷ []) in
    elim (Bool-cases (n / b == 0)) [
      | inl y ↦ rw y (omega arith)
      | inr no' ↦ rw no' (omega (arith, ih))
    ]

digits_of-AreDigits :
    (spec : FormatSpec) (n : ℕ)
    → AreDigits (spec.specifier == b'X') (base_of spec) (digits_of spec n)
digits_of-AreDigits spec n =
    let upper = spec.specifier == b'X' in
    let hex = spec.specifier == b'x' || spec.specifier == b'X' || spec.specifier == b'p' in
    elim (Bool-cases hex) [
      | inl y ↦ rw y (digits_loop-AreDigits upper 16 (λ v. omega arith) 31 n [] tt)
      | inr no' ↦ rw no' (digits_loop-AreDigits upper 10 (λ v. omega arith) 31 n [] tt)
    ]

-- What stands in front of the digits, and the number that they have.
abbrev pub front : Bool → ℕ → FormatSpec → List ℕ
front is_signed n spec =
    if is_negative is_signed n
    then b'-' ∷ []
    else (if spec.specifier == b'p' then b'0' ∷ b'x' ∷ [] else [])

abbrev pub magnitude : Bool → ℕ → ℕ
magnitude is_signed n = if is_negative is_signed n then u64 - n else n

number_text-front :
    (n : ℕ) (is_signed : Bool) (spec : FormatSpec)
    → number_text n is_signed spec
      ≡ front is_signed n spec ++ digits_of spec (magnitude is_signed n)
unfolding number_text
number_text-front n is_signed spec = elim (Bool-cases (is_negative is_signed n)) [
  | inl y ↦ rw y refl
  | inr no' ↦
      rw no' (elim (Bool-cases (spec.specifier == b'p')) [ inl p ↦ rw p refl | inr p ↦ rw p refl ])
]

-- `put_number` puts a number of 64 bits into its field, filled up with zeros to the precision: a minus sign
-- for a negative one, or `0x` for another one with the specifier `p`, and at least one digit. The digits are
-- those of the base of the specifier, in upper case for `X`, and their value is the number's magnitude.
pub put_number-value :
    (size n : ℕ) (is_signed : Bool) (spec : FormatSpec) (o : Out)
    → n < u64
    → (ds : List ℕ) × (0 < length ds)
      × AreDigits (spec.specifier == b'X') (base_of spec) ds
      × (value (base_of spec) ds ≡ magnitude is_signed n)
      × (put_number size n is_signed spec o
          ≡ put_chars size
              (in_field spec (
                replicate (precision_of spec - length (front is_signed n spec ++ ds)) b'0'
                ++ (front is_signed n spec ++ ds)))
              o)
put_number-value size n is_signed spec o lt =
    let m = magnitude is_signed n in
    let small : m < u64 = ground arith in
    (
      digits_of spec m,
      digits_of_some spec m,
      digits_of-AreDigits spec m,
      digits_of-value spec m small,
      put_number-in_field size n is_signed spec o
          ∙ ap
              (λ text.
                put_chars size
                  (in_field spec (replicate (precision_of spec - length text) b'0' ++ text)) o)
              (number_text-front n is_signed spec),
    )
