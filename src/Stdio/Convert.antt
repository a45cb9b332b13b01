-- ===== src/Stdio/Convert.antt =====
-- The conversions of `vfprintf` of src/libc/stdio/buffer.c.
use os1_meaty_skeleton.Prelude.{
  ℕ, zero, suc, ◌+◌, ◌≡◌, refl, ap, Bool, true, false, ltb, ◌==◌, if◌then◌else◌, List, [], ◌∷◌,
  false≢true, Bool-cases, inl, inr, arith,
}
use os1_meaty_skeleton.Prelude.Int.{ℤ, pos, negsuc}
use os1_meaty_skeleton.Console.Format.{itoa}
use os1_meaty_skeleton.Stdio.Buffer.{Output}
use os1_meaty_skeleton.Stdio.Flush.{IsOpen}
use os1_meaty_skeleton.Stdio.Print.{
  Arg, string, int, printed, store, decimal, put_int, or_null, to_char, convert_int, convert_arg,
  takes_arg, convert,
}
use os1_meaty_skeleton.Stdio.Put.{as-Holds, Adds, put_digits-Adds, put_string-Adds, decimal-digits}

-- The text of a conversion.
abbrev pub arg_text : ℕ → List Arg → List ℕ
arg_text c [] = []
arg_text c (string text ∷ args) = or_null text
arg_text c (int d ∷ args) = if c == 0x64 then itoa d else to_char d ∷ []

abbrev pub conversion_text : ℕ → List Arg → List ℕ
conversion_text c args = if takes_arg c then arg_text c args else c ∷ []

-- An `int` that can be negated.
abbrev pub in_range : ℤ → Bool
in_range (pos n) = ltb n 0x80000000
in_range (negsuc n) = ltb n 0x7fffffff

abbrev pub fits_arg : ℕ → List Arg → Bool
fits_arg c [] = false
fits_arg c (string text ∷ args) = c == 0x73
fits_arg c (int d ∷ args) = if c == 0x64 then in_range d else c == 0x63

decimal_pos : (n : ℕ) → decimal 10 false n [] ≡ itoa (pos n)
unfolding itoa
decimal_pos zero = unfold decimal in refl
decimal_pos (suc n) = decimal-digits 10 (suc n) [] (omega arith)

decimal_neg :
    (n : ℕ)
    → in_range (negsuc n) ≡ true
    → 0x2d ∷ decimal 10 (n == 0x7fffffff) (n + 1) [] ≡ itoa (negsuc n)
unfolding itoa
decimal_neg n h =
    let small : (n == 0x7fffffff) ≡ false = ground (arith, h) in
    rw small (ap (λ (l : List ℕ). 0x2d ∷ l) (decimal-digits 10 (n + 1) [] (omega arith)))

put_int-Adds :
    (s : Output) (d : ℤ) → IsOpen s → in_range d ≡ true → Adds s [] (itoa d) (put_int s [] d)
unfolding put_int
put_int-Adds s (pos n) w h =
    rw (← decimal_pos n) (put_digits-Adds s [] (decimal 10 false n []) w (omega arith))
put_int-Adds s (negsuc n) w h = rw (← decimal_neg n h) (
    as-Holds _ refl (omega arith)
      (put_digits-Adds s (0x2d ∷ []) (decimal 10 (n == 0x7fffffff) (n + 1) []) w (omega arith)))

-- One character into the empty buffer.
store-Adds : (s : Output) (c : ℕ) → IsOpen s → Adds s [] (c ∷ []) (printed s (store [] c))
store-Adds s c w = (refl, refl, w)

convert_int-Adds :
    (s : Output) (c : ℕ) (d : ℤ) (args : List Arg)
    → IsOpen s
    → takes_arg c ≡ true
    → fits_arg c (int d ∷ args) ≡ true
    → Adds s [] (arg_text c (int d ∷ args)) (convert_int c s [] d)
unfolding convert_int
convert_int-Adds s c d args w takes h = elim (Bool-cases (c == 0x64)) [
  | inl y ↦ rw y (put_int-Adds s d w (rw y at h))
  | inr y ↦ let is_c : (c == 0x63) ≡ true = rw y at h in rw (y, is_c) (store-Adds s (to_char d) w)
]

convert_arg-Adds :
    (s : Output) (c : ℕ) (args : List Arg)
    → IsOpen s
    → takes_arg c ≡ true
    → fits_arg c args ≡ true
    → Adds s [] (arg_text c args) (convert_arg c s [] args)
unfolding convert_arg
convert_arg-Adds s c [] w takes h = absurd (false≢true h)
convert_arg-Adds s c (string text ∷ args) w takes h =
    rw h (put_string-Adds s [] (or_null text) w (omega arith))
convert_arg-Adds s c (int d ∷ args) w takes h = convert_int-Adds s c d args w takes h

pub convert-Adds :
    (s : Output) (c : ℕ) (args : List Arg)
    → IsOpen s
    → (if takes_arg c then fits_arg c args else true) ≡ true
    → Adds s [] (conversion_text c args) (convert c s [] args)
unfolding convert
convert-Adds s c args w h = elim (Bool-cases (takes_arg c)) [
  | inl y ↦ rw y (convert_arg-Adds s c args w y (rw y at h))
  | inr y ↦ rw y (store-Adds s c w)
]
