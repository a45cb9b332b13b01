-- ===== src/Prelude/Bits.antt =====
-- The bit operations of the source as arithmetic: masks are remainders, and `|` of words that do
-- not overlap is a sum.
use Prim.Native.Nat.{ℕ, zero, suc, ◌+◌, ◌-◌, ◌*◌, ◌/◌, ◌%◌, ◌^◌, ◌≤◌, ◌<◌, min, max}
use Prim.Native.Nat.{bit_and, bit_or, digits, bitwise, bit_and-bitwise, bit_or-bitwise}
use mathlib.Core.Path.{◌≡◌, refl, sym, ap, ◌∙◌}
use mathlib.Core.Logic.{◌≢◌}
use native.Mathlib.Nat.{le_refl, pow-suc, one-le-pow, div-div-eq-div-mul}
use native.Mathlib.Omega.{arith}

-- The digits of a number do not depend on the fuel, from its own size on.
module _ (z : ℕ → ℕ) (f : ℕ → ℕ → ℕ) where
  fuel_free : (n m a b : ℕ) → a ≤ n → a ≤ m → digits z f n a b ≡ digits z f m a b
  fuel_free zero zero a b p q = refl
  fuel_free zero (suc m) zero b p q = refl
  fuel_free zero (suc m) (suc a) b p q = absurd (omega arith)
  fuel_free (suc n) zero zero b p q = refl
  fuel_free (suc n) zero (suc a) b p q = absurd (omega arith)
  fuel_free (suc n) (suc m) zero b p q = refl
  fuel_free (suc n) (suc m) (suc a) b p q =
      rw (fuel_free n m (suc a / 2) (b / 2) (omega arith) (omega arith))

  last_digit :
      (a b : ℕ)
      → bitwise z f (suc a) b ≡ bitwise z f (suc a / 2) (b / 2) * 2 + f (suc a % 2) (b % 2)
  last_digit a b =
      omega (arith, fuel_free a (suc a / 2) (suc a / 2) (b / 2) (omega arith) (le_refl _))

bit_or_halves : (a b : ℕ) → bit_or a b ≡ bit_or (a / 2) (b / 2) * 2 + max (a % 2) (b % 2)
bit_or_halves zero b = simp bit_or-bitwise (omega arith)
bit_or_halves (suc a) b = simp bit_or-bitwise (last_digit (λ y. y) max a b)

bit_and_halves : (a b : ℕ) → bit_and a b ≡ bit_and (a / 2) (b / 2) * 2 + min (a % 2) (b % 2)
bit_and_halves zero b = simp bit_and-bitwise (omega arith)
bit_and_halves (suc a) b = simp bit_and-bitwise (last_digit (λ y. 0) min a b)

zero-bit_or : (b : ℕ) → bit_or 0 b ≡ b
zero-bit_or b = bit_or-bitwise 0 b

zero-bit_and : (b : ℕ) → bit_and 0 b ≡ 0
zero-bit_and b = bit_and-bitwise 0 b

bit_or_below : (n a : ℕ) → a ≤ n → bit_or a 0 ≡ a
bit_or_below n zero h = zero-bit_or 0
bit_or_below zero (suc a) h = absurd (omega arith)
bit_or_below (suc n) (suc a) h =
    omega (arith, bit_or_halves (suc a) 0, bit_or_below n (suc a / 2) (omega arith))

bit_and_below : (n a : ℕ) → a ≤ n → bit_and a 0 ≡ 0
bit_and_below n zero h = zero-bit_and 0
bit_and_below zero (suc a) h = absurd (omega arith)
bit_and_below (suc n) (suc a) h =
    omega (arith, bit_and_halves (suc a) 0, bit_and_below n (suc a / 2) (omega arith))

pub mul_double : (q k : ℕ) → q * 2 ^ suc k ≡ 2 * (q * 2 ^ k)
mul_double q k = omega (arith, ap (λ (t : ℕ). q * t) (pow-suc 2 k))

-- The upper digits of one word, and the lower digits of two.
pub bit_or_parts :
    (k q a b : ℕ) → a < 2 ^ k → b < 2 ^ k → bit_or (q * 2 ^ k + a) b ≡ q * 2 ^ k + bit_or a b
bit_or_parts zero q a b h l =
    ground (arith, bit_or_below (q * 1 + a) (q * 1 + a) (le_refl _), bit_or_below a a (le_refl a))
bit_or_parts (suc k) q a b h l = ground (
  arith,
  bit_or_halves (q * 2 ^ suc k + a) b,
  bit_or_halves a b,
  mul_double q k,
  bit_or_parts k q (a / 2) (b / 2) (omega arith) (omega arith),
)

-- The upper digits of one word and the lower digits of another.
pub bit_or_sum : (k q r : ℕ) → r < 2 ^ k → bit_or (q * 2 ^ k) r ≡ q * 2 ^ k + r
bit_or_sum k q r h =
    ap (λ (t : ℕ). bit_or t r) (omega arith)
    ∙ (bit_or_parts k q 0 r (one-le-pow k 2 (omega arith)) h
        ∙ ap (λ (t : ℕ). q * 2 ^ k + t) (zero-bit_or r))

halved : (a k : ℕ) → a / 2 ^ suc k ≡ a / 2 / 2 ^ k
halved a k =
    ap (λ (d : ℕ). a / d) (omega (arith, mul_double 1 k)) ∙ sym (div-div-eq-div-mul a 2 (2 ^ k))

-- A mask of the digits from `k` on moves over the shift.
pub bit_and_shift : (k a m : ℕ) → bit_and a (m * 2 ^ k) ≡ bit_and (a / 2 ^ k) m * 2 ^ k
bit_and_shift zero a m = ground arith
bit_and_shift (suc k) a m = ground (
  arith,
  bit_and_halves a (m * 2 ^ suc k),
  mul_double m k,
  mul_double (bit_and (a / 2 ^ suc k) m) k,
  bit_and_shift k (a / 2) m,
  ap (λ (d : ℕ). bit_and d m) (halved a k),
)

-- A mask of the `k` lowest digits of a word in two parts.
bit_and_low : (k q r : ℕ) → r < 2 ^ k → bit_and (q * 2 ^ k + r) (2 ^ k - 1) ≡ r
bit_and_low zero q r h = rw (bit_and_below (q * 1 + r) (q * 1 + r) (le_refl _)) (omega arith)
bit_and_low (suc k) q r h = ground (
  arith,
  bit_and_halves (q * 2 ^ suc k + r) (2 ^ suc k - 1),
  mul_double q k,
  pow-suc 2 k,
  one-le-pow k 2,
  bit_and_low k q (r / 2) (omega arith),
)

-- A mask of the `k` lowest digits is the remainder.
pub bit_and_remainder : (k a : ℕ) → bit_and a (2 ^ k - 1) ≡ a % 2 ^ k
bit_and_remainder k a = ground (arith, one-le-pow k 2, bit_and_low k (a / 2 ^ k) (a % 2 ^ k))

-- A mask of one digit.
pub bit_and_digit : (k a : ℕ) → bit_and a (2 ^ k) ≡ a / 2 ^ k % 2 * 2 ^ k
bit_and_digit k a =
    let one = bit_and_shift k a 1 in
    let last = bit_and_remainder 1 (a / 2 ^ k) in
    let mask : bit_and a (1 * 2 ^ k) ≡ bit_and a (2 ^ k) =
      ap (λ (t : ℕ). bit_and a t) (omega arith) in
    omega (arith, one, mask, ap (λ (t : ℕ). t * 2 ^ k) last)

-- `|` with one digit, one digit further down.
lower_half : (v k : ℕ) → bit_or v (2 ^ suc k) / 2 ≡ bit_or (v / 2) (2 ^ k)
lower_half v k =
    let half : 2 ^ suc k / 2 ≡ 2 ^ k = omega (arith, mul_double 1 k) in
    omega (arith, bit_or_halves v (2 ^ suc k), ap (λ (t : ℕ). bit_or (v / 2) t) half)

digit_suc : (x y j : ℕ) → x / 2 ≡ y → x / 2 ^ suc j % 2 ≡ y / 2 ^ j % 2
digit_suc x y j e = ap (λ (t : ℕ). t % 2) (halved x j) ∙ ap (λ (t : ℕ). t / 2 ^ j % 2) e

-- `|` with one digit sets that digit.
pub bit_or_digit_self : (k w : ℕ) → bit_or w (2 ^ k) / 2 ^ k % 2 ≡ 1
bit_or_digit_self zero w = omega (arith, bit_or_halves w 1)
bit_or_digit_self (suc k) w =
    digit_suc (bit_or w (2 ^ suc k)) _ k (lower_half w k) ∙ bit_or_digit_self k (w / 2)

-- `|` with one digit leaves the others.
pub bit_or_digit_other : (k j w : ℕ) → j ≢ k → bit_or w (2 ^ k) / 2 ^ j % 2 ≡ w / 2 ^ j % 2
bit_or_digit_other zero zero w ne = absurd (ne refl)
bit_or_digit_other zero (suc j) w ne =
    digit_suc (bit_or w 1) (w / 2) j
      (omega (arith, bit_or_halves w 1, bit_or_below (w / 2) (w / 2) (le_refl _)))
    ∙ sym (digit_suc w (w / 2) j refl)
bit_or_digit_other (suc k) zero w ne = omega (arith, bit_or_halves w (2 ^ suc k), mul_double 1 k)
bit_or_digit_other (suc k) (suc j) w ne =
    digit_suc (bit_or w (2 ^ suc k)) _ j (lower_half w k)
    ∙ (bit_or_digit_other k j (w / 2) (λ e. ne (ap suc e)) ∙ sym (digit_suc w (w / 2) j refl))

pub zero_digit : (k : ℕ) → 0 / 2 ^ k % 2 ≡ 0
zero_digit zero = refl
zero_digit (suc k) = digit_suc 0 0 k refl ∙ zero_digit k
