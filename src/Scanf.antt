-- ===== src/Scanf.antt =====
-- `kscanf` of src/libc/stdio/scanf.c behind the reading of a line, which is a list here. The values that are
-- stored through the arguments are a list too.
pub mod Numbers
pub mod Integers
pub mod Ends
pub mod Editor
pub mod Typing
mod Tests
use os1_meaty_skeleton.Prelude.{
  ℕ, zero, suc, ◌+◌, ◌-◌, ◌*◌, ◌%◌, ◌^◌, Bool, true, false, not, ◌&&◌, ◌||◌, ltb, leb, ◌==◌,
  if◌then◌else◌, List, [], ◌∷◌, ◌++◌, length, Option, none, some,
}
use os1_meaty_skeleton.Prelude.Int.{ℤ, pos, negsuc}

abbrev pub isdigit : ℕ → Bool
isdigit c = leb 0x30 c && leb c 0x39

abbrev pub isspace : ℕ → Bool
isspace c = c == 0x20 || c == 0x09 || c == 0x0a || c == 0x0d

abbrev pub isxdigit : ℕ → Bool
isxdigit c = isdigit c || (leb 0x61 c && leb c 0x66) || (leb 0x41 c && leb c 0x46)

abbrev pub toupper : ℕ → ℕ
toupper c = if leb 0x61 c && leb c 0x7a then c - 32 else c

unfoldable pub skip_space : List ℕ → List ℕ
skip_space [] = []
skip_space (c ∷ cs) = let rest = skip_space cs in if isspace c then rest else c ∷ cs

-- The value of a digit, in any base.
abbrev pub digit_of : ℕ → Option ℕ
digit_of c =
    if isdigit c
    then some (c - 0x30)
    else (if isxdigit c then some (toupper c - 0x41 + 10) else none)

-- The loop over the digits, with a result of 32 bits, and what is left.
unfoldable pub number_loop : ℕ → List ℕ → ℕ → ℕ × List ℕ
number_loop base [] result = (result, [])
number_loop base (c ∷ cs) result = elim (digit_of c) [
  | none ↦ (result, c ∷ cs)
  | some d ↦
      let rest = number_loop base cs ((result * base + d) % 2 ^ 32) in
      if leb base d then (result, c ∷ cs) else rest
]

-- `0x` in front of a number.
unfoldable pub after_prefix : List ℕ → Option (List ℕ)
after_prefix (z ∷ x ∷ cs) = if z == 0x30 && (x == 0x78 || x == 0x58) then some cs else none
after_prefix _ = none

abbrev pub starts_zero : List ℕ → Bool
starts_zero [] = false
starts_zero (c ∷ cs) = c == 0x30

-- The base that is used, and the number behind its prefix.
unfoldable pub choose_base : ℕ → List ℕ → ℕ × List ℕ
choose_base base s = elim (after_prefix s) [
  | some cs ↦ if base == 16 || base == 0 then (16, cs) else (base, s)
  | none ↦ if base == 0 then (if starts_zero s then 8 else 10, s) else (base, s)
]

unfoldable pub read_number : ℕ → List ℕ → ℕ × List ℕ
read_number base s = let (b, t) = choose_base base s in number_loop b t 0

-- The sign, and what is behind it.
unfoldable pub read_sign : List ℕ → Bool × List ℕ
read_sign [] = (false, [])
read_sign (c ∷ cs) =
    if c == 0x2d then (true, cs) else (if c == 0x2b then (false, cs) else (false, c ∷ cs))

unfoldable pub read_plus : List ℕ → List ℕ
read_plus [] = []
read_plus (c ∷ cs) = if c == 0x2b then cs else c ∷ cs

-- `strtol`: the result as a word of 32 bits, and the place `*endptr`.
unfoldable pub strtol : List ℕ → ℕ → ℕ × List ℕ
strtol s base =
    let (negative, t) = read_sign (skip_space s) in
    let (n, rest) = read_number base t in (if negative then (2 ^ 32 - n) % 2 ^ 32 else n, rest)

-- `strtoul`
unfoldable pub strtoul : List ℕ → ℕ → ℕ × List ℕ
strtoul s base = read_number base (read_plus (skip_space s))

-- What is stored through an argument: a number is stored with its size in bytes.
pub data Stored : Type 0 where
  char : ℕ → Stored
  string : List ℕ → Stored
  number : ℕ → ℕ → Stored

-- The length modifiers: none, h, l and ll.
pub data Length : Type 0 where
  default_length short_length long_length long_long_length : Length

-- `(long long)` of a `long`.
abbrev pub extend : Bool → ℕ → ℕ
extend signed n = if signed && leb 0x80000000 n then n + 2 ^ 64 - 2 ^ 32 else n

unfoldable pub store_number : Length → Bool → ℕ → Stored
store_number default_length signed n = number 4 n
store_number short_length signed n = number 2 (n % 2 ^ 16)
store_number long_length signed n = number 4 n
store_number long_long_length signed n = number 8 (extend signed n)

unfoldable pub read_width : List ℕ → ℕ → ℕ × List ℕ
read_width [] width = (width, [])
read_width (c ∷ cs) width =
    let rest = read_width cs (width * 10 + (c - 0x30)) in
    if isdigit c then rest else (width, c ∷ cs)

unfoldable pub read_length : List ℕ → Length × List ℕ
read_length [] = (default_length, [])
read_length (c ∷ []) =
    if c == 0x68
    then (short_length, [])
    else (if c == 0x6c then (long_length, []) else (default_length, c ∷ []))
read_length (c ∷ d ∷ cs) =
    if c == 0x68
    then (short_length, d ∷ cs)
    else if c == 0x6c
    then (if d == 0x6c then (long_long_length, cs) else (long_length, d ∷ cs))
    else (default_length, c ∷ d ∷ cs)

-- The loop of `%s`: what is copied, with room for `n` more characters or any number, and what is left.
unfoldable pub read_string : Bool → ℕ → List ℕ → List ℕ × List ℕ
read_string bounded n [] = ([], [])
read_string bounded n (c ∷ cs) =
    let rest = read_string bounded (n - 1) cs in
    if isspace c || (bounded && n == 0) then ([], c ∷ cs) else (c ∷ rest.0, rest.1)

-- One conversion: the values stored, how many of them count, and what is left; or the end of the loop.
pub data Converted : Type 0 where
  converted : ℕ → List Stored → List ℕ → Converted
  stopped : Converted

abbrev pub put_number : Length → Bool → List ℕ → ℕ × List ℕ → Converted
put_number len signed input read =
    if length read.1 == length input
    then stopped
    else converted 1 (store_number len signed read.0 ∷ []) read.1

-- The cases that need a character of the input.
unfoldable pub convert_text : ℕ → Length → List ℕ → Converted
convert_text spec len [] = stopped
convert_text spec len (c ∷ cs) =
    if spec == 0x63
    then converted 1 (char c ∷ []) cs
    else if spec == 0x64
    then put_number len true (c ∷ cs) (strtol (c ∷ cs) 10)
    else if spec == 0x69
    then put_number len true (c ∷ cs) (strtol (c ∷ cs) 0)
    else if spec == 0x75
    then put_number len false (c ∷ cs) (strtoul (c ∷ cs) 10)
    else if spec == 0x78
    then put_number len false (c ∷ cs) (strtoul (c ∷ cs) 16)
    else if spec == 0x6f
    then put_number len false (c ∷ cs) (strtoul (c ∷ cs) 8)
    else if spec == 0x70
    then put_number default_length false (c ∷ cs) (strtoul (c ∷ cs) 16)
    else stopped

unfoldable pub convert_string : ℕ → List ℕ → Converted
convert_string width input =
    let (text, rest) = read_string (not (width == 0)) width input in
    converted (if length text == 0 then 0 else 1) (string text ∷ []) rest

-- `%f` only takes its argument.
unfoldable pub convert : ℕ → ℕ → Length → List ℕ → Converted
convert spec width len input =
    if spec == 0x73
    then convert_string width input
    else (if spec == 0x66 then converted 0 [] input else convert_text spec len input)

-- A conversion behind its `%`, and the format behind it.
unfoldable pub conversion : List ℕ → List ℕ → Converted × List ℕ
conversion format input =
    let (width, f) = read_width format 0 in
    let (len, g) = read_length f in
    elim g [ [] ↦ (stopped, []) | spec ∷ rest ↦ (convert spec width len (skip_space input), rest) ]

-- What `kscanf` returns, and what it has stored.
abbrev pub Assigned : Type 0
Assigned = ℕ × List Stored

abbrev pub add : Assigned → ℕ → List Stored → Assigned
add a n vs = (a.0 + n, a.1 ++ vs)

-- The loop; `none` where the fuel runs out.
unfoldable pub scan : ℕ → List ℕ → List ℕ → Assigned → Option Assigned
scan fuel [] input a = some a
scan fuel (c ∷ cs) [] a = some a
scan zero (c ∷ cs) (x ∷ xs) a = none
scan (suc fuel) (c ∷ cs) (x ∷ xs) a = elim (isspace c) [
  | true ↦ scan fuel cs (skip_space (x ∷ xs)) a
  | false ↦ elim (c == 0x25) [
    | false ↦ elim (x == c) [ true ↦ scan fuel cs xs a | false ↦ some a ]
    | true ↦
        let (done, rest) = conversion cs (x ∷ xs) in
        elim done [ stopped ↦ some a | converted n vs left ↦ scan fuel rest left (add a n vs) ]
  ]
]

abbrev pub returned : Option Assigned → Option (ℤ × List Stored)
returned none = none
returned (some (n, vs)) = some (pos n, vs)

-- EOF
abbrev pub eof : ℤ
eof = negsuc 0

-- `kscanf` of what `read_input` has left in the buffer, where nothing is the end of the input. A turn takes a
-- character of the format at least.
unfoldable pub kscanf : List ℕ → List ℕ → Option (ℤ × List Stored)
kscanf format [] = some (eof, [])
kscanf format (c ∷ line) = returned (scan (length format) format (c ∷ line) (0, []))
