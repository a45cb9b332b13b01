-- ===== src/Snprintf/Number.antt =====
-- `put_char`, `put_string` and `put_number` of src/libc/string/snprintf.c.
use os1_meaty_skeleton.Prelude.{
  ℕ, zero, suc, ◌+◌, ◌-◌, ◌/◌, ◌%◌, ◌^◌, Bool, not, ◌&&◌, ◌||◌, List, [], ◌∷◌, length, take, ltb,
  leb, ◌==◌, if◌then◌else◌,
}
use os1_meaty_skeleton.Snprintf.{FormatSpec, u32, u64, unspecified}

-- The caller's buffer, and `pos`.
pub record Out : Type 0 where
  pub str : ℕ → ℕ
  pub pos : ℕ

abbrev pub store : (ℕ → ℕ) → ℕ → ℕ → ℕ → ℕ
store m p v x = if x == p then v else m x

-- `put_char`, for a size that is not 0.
unfoldable pub put_char : ℕ → ℕ → Out → Out
put_char size c o = record {
  str = if ltb o.pos (size - 1) then store o.str o.pos c else o.str;
  pos = (o.pos + 1) % u32;
}

-- `for (i = 0; i < pad; i++) put_char(str, size, pos, c)`
unfoldable pub put_pad : ℕ → ℕ → ℕ → Out → Out
put_pad size zero c o = o
put_pad size (suc n) c o = put_pad size n c (put_char size c o)

-- `while (*p) put_char(str, size, pos, *p++)`
unfoldable pub put_chars : ℕ → List ℕ → Out → Out
put_chars size [] o = o
put_chars size (c ∷ cs) o = put_chars size cs (put_char size c o)

-- The loop over `len` of `put_string`.
unfoldable pub string_len : ℕ → List ℕ → ℕ → ℕ
string_len precision [] len = len
string_len precision (c ∷ s) len =
    let rest = string_len precision s (len + 1) in
    if precision == unspecified || ltb len precision then rest else len

abbrev pub pad_char : FormatSpec → ℕ
pad_char spec = if spec.zero_pad && not spec.left_align then b'0' else b' '

-- `put_string`; its result is not used.
unfoldable pub put_string : ℕ → List ℕ → FormatSpec → Out → Out
put_string size s spec o =
    let len = string_len spec.precision s 0 in
    let pad = spec.width - len in
    let before = if spec.left_align then o else put_pad size pad (pad_char spec) o in
    let text = put_chars size (take len s) before in
    if spec.left_align then put_pad size pad b' ' text else text

-- `digits[d]`
abbrev pub digit_char : Bool → ℕ → ℕ
digit_char upper d =
    if ltb d 10 then b'0' + d else (if upper then b'A' + (d - 10) else b'a' + (d - 10))

-- The do-while loop, which writes the digits from the last one on; `buf` has room for 31.
unfoldable pub digits_loop : ℕ → Bool → ℕ → ℕ → List ℕ → List ℕ
digits_loop zero upper base value p = p
digits_loop (suc k) upper base value p =
    let p' = digit_char upper (value % base) ∷ p in
    let rest = digits_loop k upper base (value / base) p' in if value / base == 0 then p' else rest

abbrev pub base_of : FormatSpec → ℕ
base_of spec =
    if spec.specifier == b'x' || spec.specifier == b'X' || spec.specifier == b'p' then 16 else 10

-- `is_signed && (long long)value < 0`
abbrev pub is_negative : Bool → ℕ → Bool
is_negative is_signed value = is_signed && leb (2 ^ 63) value

-- The text that `put_number` builds in `buf`: the digits, with the sign or the prefix.
unfoldable pub number_text : ℕ → Bool → FormatSpec → List ℕ
number_text value is_signed spec =
    let magnitude = if is_negative is_signed value then u64 - value else value in
    let digits = digits_loop 31 (spec.specifier == b'X') (base_of spec) magnitude [] in
    if is_negative is_signed value
    then b'-' ∷ digits
    else (if spec.specifier == b'p' then b'0' ∷ b'x' ∷ digits else digits)

-- `prec`: the precision, or 0.
abbrev pub precision_of : FormatSpec → ℕ
precision_of spec = if spec.precision == unspecified then 0 else spec.precision

-- The part of `put_number` behind the text.
unfoldable pub put_padded : ℕ → List ℕ → FormatSpec → Out → Out
put_padded size text spec o =
    let zeros = precision_of spec - length text in
    let pad = spec.width - (length text + zeros) in
    let before = if spec.left_align then o else put_pad size pad (pad_char spec) o in
    let number = put_chars size text (put_pad size zeros b'0' before) in
    if spec.left_align then put_pad size pad b' ' number else number

unfoldable pub put_number : ℕ → ℕ → Bool → FormatSpec → Out → Out
put_number size value is_signed spec o = put_padded size (number_text value is_signed spec) spec o
