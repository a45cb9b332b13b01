-- ===== src/Stdio/Print.antt =====
-- `vfprintf` of src/libc/stdio/buffer.c, and `puts` of src/libc/stdio/puts.c, over buffered output. The
-- characters in the local buffer are a list.
use os1_meaty_skeleton.Prelude.{
  ℕ, zero, suc, ◌+◌, ◌-◌, ◌/◌, ◌%◌, Bool, true, false, ltb, leb, ◌==◌, if◌then◌else◌, List, [], ◌∷◌,
  ◌++◌, length, Option, none, some,
}
use os1_meaty_skeleton.Prelude.Int.{ℤ, pos, negsuc}
use os1_meaty_skeleton.Stdio.Buffer.{Output, write_buffer}

-- The variable arguments; a string may be NULL.
pub data Arg : Type 0 where
  string : Option (List ℕ) → Arg
  int : ℤ → Arg

-- The state of the call: the stream and the characters in `buf`, or the return of -1. `undefined` is an
-- argument that does not fit the format; `stuck` is that a loop of `write_buffer` does not end.
pub data Printed : Type 0 where
  printed : Output → List ℕ → Printed
  failed : Output → Printed
  undefined : Printed
  stuck : Printed

infixl 5 ◌>>=◌
abbrev pub ◌>>=◌ : Printed → (Output → List ℕ → Printed) → Printed
printed s buf >>= f = f s buf
failed s >>= f = failed s
undefined >>= f = undefined
stuck >>= f = stuck

-- The last place of `buf` is never filled.
abbrev pub max_pos : ℕ
max_pos = 1023

abbrev pub store : List ℕ → ℕ → List ℕ
store buf c = if ltb (length buf) max_pos then buf ++ (c ∷ []) else buf

abbrev pub after_write : Option (Option ℕ × Output) → Printed
after_write none = stuck
after_write (some (none, t)) = failed t
after_write (some (some n, t)) = printed t []

-- `write_buffer(stream, buf, buf_pos)`, and `buf_pos = 0`
unfoldable pub send : Output → List ℕ → Printed
send s buf = after_write (write_buffer (length buf) true s buf)

-- The same where `buf_pos > 0`.
unfoldable pub send_some : Output → List ℕ → Printed
send_some s buf = if ltb 0 (length buf) then send s buf else printed s buf

-- One turn of the loops of `%s` and `%d`.
unfoldable pub put_turn : Output → List ℕ → ℕ → Printed
put_turn s buf c = let b = store buf c in if leb max_pos (length b) then send s b else printed s b

-- The loop of `%d` over the digits.
unfoldable pub put_digits : Output → List ℕ → List ℕ → Printed
put_digits s buf [] = printed s buf
put_digits s buf (c ∷ cs) = put_turn s buf c >>= λ t b. put_digits t b cs

-- The loop of `%s`: a character that finds no room is stored in the next turn.
unfoldable pub put_string_turn : Output → List ℕ → ℕ → Printed
put_string_turn s buf c =
    if ltb (length buf) max_pos then put_turn s buf c else (send s buf >>= λ t b. put_turn t b c)

unfoldable pub put_string : Output → List ℕ → List ℕ → Printed
put_string s buf [] = printed s buf
put_string s buf (c ∷ cs) = put_string_turn s buf c >>= λ t b. put_string t b cs

-- The digits of a number of at most `n` digits. `negative` is that it stays below 0, as -2^31 does.
unfoldable pub decimal : ℕ → Bool → ℕ → List ℕ → List ℕ
decimal zero negative d text = text
decimal (suc n) negative d text =
    let digit = if negative then 0x30 - d % 10 else 0x30 + d % 10 in
    let rest = decimal n negative (d / 10) (digit ∷ text) in
    if d / 10 == 0 then digit ∷ text else rest

-- The case 'd'.
unfoldable pub put_int : Output → List ℕ → ℤ → Printed
put_int s buf (pos n) = put_digits s buf (decimal 10 false n [])
put_int s buf (negsuc n) =
    put_digits s (buf ++ (0x2d ∷ [])) (decimal 10 (n == 0x7fffffff) (n + 1) [])

abbrev pub null_text : List ℕ
null_text = 0x28 ∷ 0x6e ∷ 0x75 ∷ 0x6c ∷ 0x6c ∷ 0x29 ∷ []

abbrev pub or_null : Option (List ℕ) → List ℕ
or_null none = null_text
or_null (some text) = text

-- `(char)` of an `int`.
abbrev pub to_char : ℤ → ℕ
to_char (pos n) = n % 256
to_char (negsuc n) = 255 - n % 256

unfoldable pub convert_int : ℕ → Output → List ℕ → ℤ → Printed
convert_int c s buf d =
    if c == 0x64
    then put_int s buf d
    else (if c == 0x63 then printed s (store buf (to_char d)) else undefined)

-- The cases that take an argument.
unfoldable pub convert_arg : ℕ → Output → List ℕ → List Arg → Printed
convert_arg c s buf [] = undefined
convert_arg c s buf (string text ∷ args) =
    if c == 0x73 then put_string s buf (or_null text) else undefined
convert_arg c s buf (int d ∷ args) = convert_int c s buf d

abbrev pub takes_arg : ℕ → Bool
takes_arg c = if c == 0x73 then true else (if c == 0x64 then true else c == 0x63)

unfoldable pub convert : ℕ → Output → List ℕ → List Arg → Printed
convert c s buf args = if takes_arg c then convert_arg c s buf args else printed s (store buf c)

abbrev pub tail : List Arg → List Arg
tail [] = []
tail (a ∷ args) = args

abbrev pub rest_args : ℕ → List Arg → List Arg
rest_args c args = if takes_arg c then tail args else args

-- The loop over the format.
unfoldable pub print_loop : Output → List ℕ → List ℕ → List Arg → Printed
print_loop s buf [] args = printed s buf
print_loop s buf (c ∷ []) args = if c == 0x25 then printed s buf else printed s (store buf c)
print_loop s buf (c ∷ d ∷ cs) args = elim (c == 0x25) [
  | false ↦ print_loop s (store buf c) (d ∷ cs) args
  | true ↦
      send_some s buf >>= λ t b. convert d t b args >>= λ u e. print_loop u e cs (rest_args d args)
]

-- `vfprintf`: it returns 0 when the text is sent.
unfoldable pub vfprintf : Output → List ℕ → List Arg → Printed
vfprintf s format args = print_loop s [] format args >>= send_some

-- `puts` of a string that is not NULL.
unfoldable pub puts : Output → List ℕ → Printed
puts s text = send s text >>= λ t b. send t (0x0a ∷ [])
