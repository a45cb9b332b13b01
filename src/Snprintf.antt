-- ===== src/Snprintf.antt =====
-- `vsnprintf` of src/libc/string/snprintf.c. The format is the list of its characters, and `va_list`
-- the list of the arguments. A `size_t` has 32 bits.
pub mod Number
pub mod Print
pub mod Text
pub mod Fields
pub mod Output
pub mod Digits
pub mod Signs
mod Tests
use os1_meaty_skeleton.Prelude.{
  ℕ, zero, suc, ◌+◌, ◌-◌, ◌*◌, ◌%◌, ◌^◌, Bool, true, false, not, ◌&&◌, ◌||◌, Option, none, some,
  List, [], ◌∷◌, ltb, leb, ◌==◌, if◌then◌else◌,
}

abbrev pub u32 : ℕ
u32 = 2 ^ 32

abbrev pub u64 : ℕ
u64 = 2 ^ 64

-- `FormatSpec`; the precision `unspecified` is `(size_t)-1`.
pub record FormatSpec : Type 0 where
  pub left_align : Bool
  pub zero_pad : Bool
  pub width : ℕ
  pub precision : ℕ
  pub length_modifier : ℕ
  pub specifier : ℕ

abbrev pub unspecified : ℕ
unspecified = u32 - 1

-- An argument: 32 bits, 64 bits, or a pointer to a string, `none` for NULL.
pub data Arg : Type 0 where
  word long_word : ℕ → Arg
  string : Option (List ℕ) → Arg

-- `va_arg(args, int)` and its like; another kind of argument is undefined behaviour, `none`.
abbrev pub next_word : List Arg → Option (ℕ × List Arg)
next_word [] = none
next_word (word n ∷ args) = some (n % u32, args)
next_word (long_word n ∷ args) = none
next_word (string s ∷ args) = none

abbrev pub next_long : List Arg → Option (ℕ × List Arg)
next_long [] = none
next_long (word n ∷ args) = none
next_long (long_word n ∷ args) = some (n % u64, args)
next_long (string s ∷ args) = none

abbrev pub next_string : List Arg → Option (Option (List ℕ) × List Arg)
next_string [] = none
next_string (word n ∷ args) = none
next_string (long_word n ∷ args) = none
next_string (string s ∷ args) = some (s, args)

abbrev pub is_digit : ℕ → Bool
is_digit c = leb b'0' c && leb c b'9'

-- "Parse flags"
unfoldable pub parse_flags : List ℕ → FormatSpec → List ℕ × FormatSpec
parse_flags [] spec = ([], spec)
parse_flags (c ∷ fmt) spec =
    let left = parse_flags fmt (record spec { left_align = true }) in
    let zeros = parse_flags fmt (record spec { zero_pad = true }) in
    if c == b'-' then left else (if c == b'0' then zeros else (c ∷ fmt, spec))

-- `while (*fmt >= '0' && *fmt <= '9')`, of the width and of the precision.
unfoldable pub parse_decimal : List ℕ → ℕ → List ℕ × ℕ
parse_decimal [] n = ([], n)
parse_decimal (c ∷ fmt) n =
    let rest = parse_decimal fmt ((n * 10 + (c - b'0')) % u32) in
    if is_digit c then rest else (c ∷ fmt, n)

abbrev pub head_is : ℕ → List ℕ → Bool
head_is c [] = false
head_is c (d ∷ ds) = d == c

abbrev pub tail : List ℕ → List ℕ
tail [] = []
tail (c ∷ cs) = cs

-- A `*` takes an argument, and otherwise the digits count. The width is unsigned, so that the test
-- `spec->width < 0` never holds.
unfoldable pub parse_count : List ℕ → List Arg → Option (List ℕ × ℕ × List Arg)
parse_count fmt args =
    if head_is b'*' fmt
    then elim (next_word args) [ none ↦ none | some (n, args') ↦ some (tail fmt, n, args') ]
    else (let (fmt', n) = parse_decimal fmt 0 in some (fmt', n, args))

-- "Parse precision"
unfoldable pub parse_precision : List ℕ → List Arg → Option (List ℕ × ℕ × List Arg)
parse_precision fmt args =
    if head_is b'.' fmt then parse_count (tail fmt) args else some (fmt, unspecified, args)

-- "Parse length modifier"
unfoldable pub parse_length : List ℕ → List ℕ × ℕ
parse_length fmt =
    if head_is b'l' fmt
    then (if head_is b'l' (tail fmt) then (tail (tail fmt), b'L') else (tail fmt, b'l'))
    else (fmt, 0)

-- "Parse specifier": the terminator is 0.
abbrev pub first_char : List ℕ → ℕ
first_char [] = 0
first_char (c ∷ cs) = c

abbrev pub no_spec : FormatSpec
no_spec = record {
  left_align = false;
  zero_pad = false;
  width = 0;
  precision = unspecified;
  length_modifier = 0;
  specifier = 0;
}

-- The length modifier and the specifier, once the rest is known.
unfoldable pub finish_spec : List ℕ → FormatSpec → List ℕ × FormatSpec
finish_spec fmt spec =
    let (fmt', modifier) = parse_length fmt in
    (tail fmt', record spec { length_modifier = modifier; specifier = first_char fmt' })

-- `parse_format`: the format behind the specifier, the specification and the arguments left.
unfoldable pub parse_format : List ℕ → List Arg → Option (List ℕ × FormatSpec × List Arg)
parse_format fmt args =
    let (fmt', flags) = parse_flags fmt no_spec in
    elim (parse_count fmt' args) [
      | none ↦ none
      | some (fmt'', width, args') ↦ elim (parse_precision fmt'' args') [
        | none ↦ none
        | some (fmt''', precision, args'') ↦
            let (rest, spec) =
              finish_spec fmt''' (record flags { width = width; precision = precision }) in
            some (rest, spec, args'')
      ]
    ]
