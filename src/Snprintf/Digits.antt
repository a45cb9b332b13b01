-- ===== src/Snprintf/Digits.antt =====
-- The digits that `put_number` of src/libc/string/snprintf.c writes, and where it pads them.
use os1_meaty_skeleton.Prelude.{
  ℕ, zero, suc, ◌+◌, ◌-◌, ◌*◌, ◌/◌, ◌%◌, ◌^◌, ◌≤◌, ◌<◌, ◌≡◌, ◌≢◌, refl, ap, ◌∙◌, sym, subst, Bool,
  true, false, ◌||◌, List, [], ◌∷◌, ◌++◌, arith, length, replicate, leb, ◌==◌, if◌then◌else◌,
  Bool-cases, inl, inr,
}
use os1_meaty_skeleton.Snprintf.{FormatSpec, u64, unspecified}
use os1_meaty_skeleton.Snprintf.Number.{
  Out, digit_char, digits_loop, base_of, is_negative, number_text, precision_of, put_chars,
  put_number, pad_char,
}
use os1_meaty_skeleton.Snprintf.Text.{in_field}
use os1_meaty_skeleton.Snprintf.Fields.{put_number-in_field}

-- The value of a digit, in either case.
unfoldable pub digit_value : ℕ → ℕ
digit_value c =
    if leb c b'9' then c - b'0' else (if leb b'a' c then c - (b'a' - 10) else c - (b'A' - 10))

-- The value of digits to a base, and the base's power to their number.
unfoldable pub weight : ℕ → List ℕ → ℕ
weight base [] = 1
weight base (c ∷ cs) = weight base cs * base

unfoldable pub value : ℕ → List ℕ → ℕ
value base [] = 0
value base (c ∷ cs) = digit_value c * weight base cs + value base cs

digit_value-digit_char : (upper : Bool) (d : ℕ) → d < 16 → digit_value (digit_char upper d) ≡ d
unfolding digit_value
digit_value-digit_char true d lt = ground arith
digit_value-digit_char false d lt = ground arith

-- What the loop needs of its base, which is 10 or 16.
abbrev Divides : ℕ → Type 0
Divides b = (v : ℕ) → (v / b * b + v % b ≡ v) × (v % b < 16) × ((q : ℕ) → v < 10 * q → v / b < q)

Divides-ten : Divides 10
Divides-ten v = (omega arith, omega arith, λ q lt. omega arith)

Divides-sixteen : Divides 16
Divides-sixteen v = (omega arith, omega arith, λ q lt. omega arith)

-- 10 to the power of the rounds left.
abbrev bound : ℕ → ℕ
bound zero = 1
bound (suc k) = 10 * bound k

carry : (v q r b w n : ℕ) → q * b + r ≡ v → q * (w * b) + (r * w + n) ≡ v * w + n
carry v q r b w n e = subst (λ k. q * (w * b) + (r * w + n) ≡ k * w + n) e (grind arith)

digits_loop-value :
    (upper : Bool) (b : ℕ)
    → Divides b
    → (k v : ℕ) (p : List ℕ) → v < bound k
    → value b (digits_loop k upper b v p) ≡ v * weight b p + value b p
unfolding digits_loop value weight
digits_loop-value upper b h zero v p lt = let z : v ≡ 0 = omega (arith, lt) in rw z (omega arith)
digits_loop-value upper b h (suc k) v p lt =
    let d = h v in
    let p' = digit_char upper (v % b) ∷ p in
    let ih = digits_loop-value upper b h k (v / b) p' (d.2 (bound k) lt) in
    let digit = digit_value-digit_char upper (v % b) d.1 in
    let front : value b p' ≡ v % b * weight b p + value b p =
      ap (λ c. c * weight b p + value b p) digit in
    elim (Bool-cases (v / b == 0)) [
      | inl y ↦
          let none_left : v / b ≡ 0 = ground arith in
          let whole : 0 * b + v % b ≡ v = subst (λ q. q * b + v % b ≡ v) none_left d.0 in
          let last : v % b ≡ v = omega (arith, whole) in
          rw y (front ∙ ap (λ r. r * weight b p + value b p) last)
      | inr n ↦ rw n (
          ih
          ∙ ap (λ s. v / b * (weight b p * b) + s) front
          ∙ carry v (v / b) (v % b) b (weight b p) (value b p) d.0)
    ]

-- The digits of a number below 2 ^ 64, by the loop's 31 rounds.
abbrev pub digits_of : FormatSpec → ℕ → List ℕ
digits_of spec n = digits_loop 31 (spec.specifier == b'X') (base_of spec) n []

pub digits_of-value :
    (spec : FormatSpec) (n : ℕ) → n < u64 → value (base_of spec) (digits_of spec n) ≡ n
unfolding value weight
digits_of-value spec n lt =
    let upper = spec.specifier == b'X' in
    let hex = spec.specifier == b'x' || spec.specifier == b'X' || spec.specifier == b'p' in
    elim (Bool-cases hex) [
      | inl y ↦
          rw y
            (digits_loop-value upper 16 Divides-sixteen 31 n [] (omega (arith, lt)) ∙ omega arith)
      | inr no' ↦
          rw no' (digits_loop-value upper 10 Divides-ten 31 n [] (omega (arith, lt)) ∙ omega arith)
    ]

number_text-value :
    (n : ℕ) (is_signed : Bool) (spec : FormatSpec)
    → n < u64
    → spec.specifier ≢ b'p'
    → (ds : List ℕ) × (number_text n is_signed spec
        ≡ (if is_negative is_signed n then b'-' ∷ ds else ds))
      × (value (base_of spec) ds ≡ (if is_negative is_signed n then u64 - n else n))
unfolding number_text
number_text-value n is_signed spec lt ne =
    let other : (spec.specifier == b'p') ≡ false = ground arith in
    let ds = digits_of spec n in
    let no_prefix : (if spec.specifier == b'p' then b'0' ∷ b'x' ∷ ds else ds) ≡ ds =
      subst (λ k. (if k then b'0' ∷ b'x' ∷ ds else ds) ≡ ds) (sym other) refl in
    elim (Bool-cases (is_negative is_signed n)) [
      | inl y ↦ rw y (digits_of spec (u64 - n), refl, digits_of-value spec (u64 - n) (ground arith))
      | inr no' ↦ rw no' (digits_of spec n, no_prefix, digits_of-value spec n lt)
    ]

in_field_zeros :
    (spec : FormatSpec) (text : List ℕ)
    → spec.zero_pad ≡ true
    → spec.left_align ≡ false
    → spec.precision ≡ unspecified
    → in_field spec (replicate (precision_of spec - length text) b'0' ++ text)
      ≡ replicate (spec.width - length text) b'0' ++ text
in_field_zeros spec text zeros right plain =
    let p : precision_of spec ≡ 0 = ground (arith, plain) in
    let nothing : precision_of spec - length text ≡ 0 = omega (arith, p) in
    let c : pad_char spec ≡ b'0' = rw (zeros, right) refl in
    subst
      (λ k.
        in_field spec (replicate k b'0' ++ text)
        ≡ replicate (spec.width - length text) b'0' ++ text)
      (sym nothing)
      (subst
        (λ l.
          (if l
            then text ++ replicate (spec.width - length text) b' '
            else replicate (spec.width - length text) (pad_char spec) ++ text)
          ≡ replicate (spec.width - length text) b'0' ++ text)
        (sym right) (ap (λ k. replicate (spec.width - length text) k ++ text) c))

-- A negative number that is padded with zeros has them before its minus sign: `%05d` of -5 prints
-- 000-5.
zeros_before_sign :
    (size n : ℕ) (spec : FormatSpec) (o : Out)
    → n < u64
    → 2 ^ 63 ≤ n
    → spec.specifier ≡ b'd'
    → spec.zero_pad ≡ true
    → spec.left_align ≡ false
    → spec.precision ≡ unspecified
    → (ds : List ℕ) × (value 10 ds ≡ u64 - n)
      × (put_number size n true spec o
          ≡ put_chars size (replicate (spec.width - suc (length ds)) b'0' ++ b'-' ∷ ds) o)
zeros_before_sign size n spec o lt negative d zeros right plain =
    let (ds, text, read) =
      number_text-value n true spec lt (subst (λ k. k ≢ b'p') (sym d) (omega arith)) in
    let sign : is_negative true n ≡ true = ground (arith, negative) in
    let base : ℕ → ℕ = λ k. if k == b'x' || k == b'X' || k == b'p' then 16 else 10 in
    let ten : base_of spec ≡ 10 = ap base d in
    let signed : number_text n true spec ≡ b'-' ∷ ds =
      text ∙ subst (λ k. (if k then b'-' ∷ ds else ds) ≡ b'-' ∷ ds) (sym sign) refl in
    let magnitude : value (base_of spec) ds ≡ u64 - n =
      read ∙ subst (λ k. (if k then u64 - n else n) ≡ u64 - n) (sym sign) refl in
    (
      ds,
      subst (λ k. value k ds ≡ u64 - n) ten magnitude,
      put_number-in_field size n true spec o
          ∙ ap (λ cs. put_chars size cs o)
              (in_field_zeros spec (number_text n true spec) zeros right plain)
          ∙ ap (λ cs. put_chars size (replicate (spec.width - length cs) b'0' ++ cs) o) signed,
    )
