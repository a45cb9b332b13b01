-- ===== src/Console/Format.antt =====
-- `format_string` of src/kernel/arch/i386/mconio.c. The text that it writes is a list; a format or an
-- argument that the source would misread gives `none`. Doubles are numbers of an unknown form, and
-- `dtoaf` on them is a parameter.
use os1_meaty_skeleton.Prelude.{
  ℕ, zero, suc, ◌+◌, ◌-◌, ◌*◌, ◌/◌, ◌%◌, Bool, true, false, ◌||◌, ◌&&◌, ltb, leb, ◌==◌,
  if◌then◌else◌, List, [], ◌∷◌, ◌++◌, length, replicate, Option, none, some,
}
use os1_meaty_skeleton.Prelude.Int.{ℤ, pos, negsuc}

-- `'0' + d`, and the characters of `digits` in `itohex`.
abbrev pub digit_char : Bool → ℕ → ℕ
digit_char uppercase d = if ltb d 10 then 0x30 + d else (if uppercase then 0x37 + d else 0x57 + d)

-- The loops of `itoa` and `itohex` over the digits, the lowest digit first.
unfoldable pub digits : ℕ → ℕ → Bool → ℕ → List ℕ → List ℕ
digits zero base uppercase num text = text
digits (suc n) base uppercase num text =
    let rest = digits n base uppercase (num / base) (digit_char uppercase (num % base) ∷ text) in
    if num == 0 then text else rest

-- A number of 32 bits has at most ten digits.
abbrev pub max_digits : ℕ
max_digits = 10

-- `-num`, of which the loops see nothing when it stays negative.
abbrev negated : ℕ → ℕ
negated n = if n == 0x7fffffff then 0 else n + 1

-- `itoa`
unfoldable pub itoa : ℤ → List ℕ
itoa (pos zero) = 0x30 ∷ []
itoa (pos (suc n)) = digits max_digits 10 false (suc n) []
itoa (negsuc n) = 0x2d ∷ digits max_digits 10 false (negated n) []

-- `itohex`
unfoldable pub itohex : ℕ → Bool → ℕ → Bool → List ℕ
itohex num uppercase width use_prefix =
    let hex = if num == 0 then 0x30 ∷ [] else digits max_digits 16 uppercase num [] in
    let padded = replicate (width - length hex) 0x30 ++ hex in
    if use_prefix then 0x30 ∷ (if uppercase then 0x58 else 0x78) ∷ padded else padded

-- The variable arguments: words of 32 bits, strings and doubles.
pub data Arg : Type 0 where
  word : ℕ → Arg
  string : List ℕ → Arg
  double : ℕ → Arg

-- A word as an `int`.
abbrev pub to_int : ℕ → ℤ
to_int w = if ltb w 0x80000000 then pos w else negsuc (0xffffffff - w)

abbrev is_digit : ℕ → Bool
is_digit c = leb 0x30 c && leb c 0x39

-- A number in the format.
unfoldable pub read_number : List ℕ → ℕ → ℕ × List ℕ
read_number [] n = (n, [])
read_number (c ∷ cs) n =
    let rest = read_number cs (n * 10 + (c - 0x30)) in if is_digit c then rest else (n, c ∷ cs)

unfoldable pub read_flag : List ℕ → Bool × List ℕ
read_flag [] = (false, [])
read_flag (c ∷ cs) = if c == 0x23 then (true, cs) else (false, c ∷ cs)

unfoldable pub read_precision : List ℕ → ℕ × List ℕ
read_precision [] = (6, [])
read_precision (c ∷ cs) = let read = read_number cs 0 in if c == 0x2e then read else (6, c ∷ cs)

module _ (dtoaf : ℕ → ℕ → ℕ → List ℕ) where
  -- The cases that take an argument.
  unfoldable pub put_arg : ℕ → Bool → ℕ → ℕ → List Arg → Option (List ℕ × List Arg)
  put_arg c prefix width precision [] = none
  put_arg c prefix width precision (string s ∷ args) = if c == 0x73 then some (s, args) else none
  put_arg c prefix width precision (word n ∷ args) =
      if c == 0x64
      then some (itoa (to_int n), args)
      else (if c == 0x78
          then some (itohex n false width prefix, args)
          else (if c == 0x58
              then some (itohex n true width prefix, args)
              else (if c == 0x63 then some (n % 0x100 ∷ [], args) else none)))
  put_arg c prefix width precision (double d ∷ args) =
      if c == 0x66 then some (dtoaf d width precision, args) else none

  abbrev takes_arg : ℕ → Bool
  takes_arg c = c == 0x73 || c == 0x64 || c == 0x63 || c == 0x78 || c == 0x58 || c == 0x66

  -- The switch of `format_string`.
  unfoldable pub convert : ℕ → Bool → ℕ → ℕ → List Arg → Option (List ℕ × List Arg)
  convert c prefix width precision args =
      if c == 0x25
      then some (0x25 ∷ [], args)
      else (if takes_arg c
          then put_arg c prefix width precision args
          else some (0x25 ∷ c ∷ [], args))

  -- A conversion, from behind the `%`: what it writes, the format and the arguments that are left.
  unfoldable pub conversion : List ℕ → List Arg → Option (List ℕ × List ℕ × List Arg)
  conversion fmt args =
      let flag = read_flag fmt in
      let width = read_number flag.1 0 in
      let precision = read_precision width.1 in
      elim precision.1 [
        | [] ↦ none
        | c ∷ cs ↦ elim (convert c flag.0 width.0 precision.0 args) [
          | none ↦ none
          | some out ↦ some (out.0, cs, out.1)
        ]
      ]

  -- One turn of the loop.
  unfoldable pub format_step : List ℕ → List Arg → Option (List ℕ × List ℕ × List Arg)
  format_step [] args = some ([], [], args)
  format_step (c ∷ []) args = some (if c == 0x25 then [] else c ∷ [], [], args)
  format_step (c ∷ d ∷ cs) args =
      if c == 0x25 then conversion (d ∷ cs) args else some (c ∷ [], d ∷ cs, args)

  -- The loop, on a format of fewer than `n` characters.
  unfoldable pub format_loop : ℕ → List ℕ → List Arg → Option (List ℕ)
  format_loop zero fmt args = none
  format_loop (suc n) [] args = some []
  format_loop (suc n) (c ∷ cs) args = elim (format_step (c ∷ cs) args) [
    | none ↦ none
    | some t ↦ elim (format_loop n t.1 t.2) [ none ↦ none | some out ↦ some (t.0 ++ out) ]
  ]

  -- `format_string`
  unfoldable pub format_string : List ℕ → List Arg → Option (List ℕ)
  format_string fmt args = format_loop (length fmt + 1) fmt args
