-- ===== src/Snprintf/Print.antt =====
-- The loop of `vsnprintf` of src/libc/string/snprintf.c.
use os1_meaty_skeleton.Prelude.{
  ℕ, zero, suc, ◌+◌, ◌-◌, ◌%◌, ◌^◌, Bool, false, ◌||◌, Option, none, some, List, [], ◌∷◌, length,
  ltb, leb, ◌==◌, if◌then◌else◌,
}
use os1_meaty_skeleton.Prelude.Int.{ℤ, pos, to_int}
use os1_meaty_skeleton.Snprintf.{
  FormatSpec, Arg, u32, u64, next_word, next_long, next_string, parse_format,
}
use os1_meaty_skeleton.Snprintf.Number.{Out, store, put_char, put_string, put_number}

-- "(null)"
abbrev pub null_text : List ℕ
null_text = b'(' ∷ b'n' ∷ b'u' ∷ b'l' ∷ b'l' ∷ b')' ∷ []

-- `int` to `unsigned long long`: the sign is extended.
abbrev pub extend : ℕ → ℕ
extend n = if leb (2 ^ 31) n then n + (u64 - u32) else n

-- What one specification prints: a string, a character, or a number with its sign.
pub data Item : Type 0 where
  text_item : List ℕ → Item
  char_item : ℕ → Item
  number_item : ℕ → Bool → Item

abbrev pub is_hex : ℕ → Bool
is_hex c = c == b'x' || c == b'X'

-- The switch's reading of its argument. In the cases 'd', 'u', 'x' and 'X' the modifier `ll` asks
-- for 64 bits.
unfoldable pub read_item : FormatSpec → List Arg → Option (Item × List Arg)
read_item spec args =
    if spec.specifier == b's'
    then elim (next_string args) [
      | none ↦ none
      | some (none, args') ↦ some (text_item null_text, args')
      | some (some s, args') ↦ some (text_item s, args')
    ]
    else (if spec.specifier == b'c'
        then elim (next_word args) [
          | none ↦ none
          | some (n, args') ↦ some (char_item (n % 256), args')
        ]
        else (if spec.specifier == b'd' || spec.specifier == b'u' || is_hex spec.specifier
            then (if spec.length_modifier == b'L'
                then elim (next_long args) [
                  | none ↦ none
                  | some (n, args') ↦ some (number_item n (spec.specifier == b'd'), args')
                ]
                else elim (next_word args) [
                  | none ↦ none
                  | some (n, args') ↦ some (
                    number_item (if spec.specifier == b'd' then extend n else n)
                        (spec.specifier == b'd'),
                    args',
                  )
                ])
            else (if spec.specifier == b'p'
                then elim (next_word args) [
                  | none ↦ none
                  | some (n, args') ↦ some (number_item n false, args')
                ]
                else some (char_item spec.specifier, args))))

unfoldable pub put_item : ℕ → FormatSpec → Item → Out → Out
put_item size spec (text_item s) o = put_string size s spec o
put_item size spec (char_item c) o = put_char size c o
put_item size spec (number_item n is_signed) o = put_number size n is_signed spec o

-- `while (*format)`; every round takes a character of the format at least.
unfoldable pub print_loop : ℕ → ℕ → List ℕ → List Arg → Out → Option Out
print_loop zero size format args o = none
print_loop (suc k) size [] args o = some o
print_loop (suc k) size (c ∷ format) args o =
    if c == b'%'
    then elim (parse_format format args) [
      | none ↦ none
      | some (format', spec, args') ↦ elim (read_item spec args') [
        | none ↦ none
        | some (item, args'') ↦ print_loop k size format' args'' (put_item size spec item o)
      ]
    ]
    else print_loop k size format args (put_char size c o)

-- The terminator, behind the text or in the last place.
unfoldable pub terminate : ℕ → Out → Out
terminate size o = record o { str = store o.str (if ltb o.pos size then o.pos else size - 1) 0 }

-- `vsnprintf`: the result, which is an `int`, and the buffer.
unfoldable pub vsnprintf : (ℕ → ℕ) → ℕ → List ℕ → List Arg → Option (ℤ × (ℕ → ℕ))
vsnprintf str size format args =
    if size == 0
    then some (pos 0, str)
    else elim (print_loop (suc (length format)) size format args (record { str = str; pos = 0 })) [
      | none ↦ none
      | some o ↦ some (to_int o.pos, (terminate size o).str)
    ]
