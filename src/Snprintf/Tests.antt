-- ===== src/Snprintf/Tests.antt =====
-- The theorems on `vsnprintf` at concrete formats, and runs of the code.
use os1_meaty_skeleton.Prelude.{
  ℕ, ◌-◌, ◌<◌, ◌≡◌, ◌++◌, length, replicate, refl, true, false, some, List, [], ◌∷◌, arith,
}
use os1_meaty_skeleton.Prelude.Int.{pos}
use os1_meaty_skeleton.Snprintf.{
  FormatSpec, Arg, word, string, no_spec, parse_flags, parse_decimal, parse_count, parse_precision,
  parse_length, finish_spec, parse_format, u64,
}
use os1_meaty_skeleton.Snprintf.Number.{
  Out, number_text, digits_loop, precision_of, put_chars, put_number,
}
use os1_meaty_skeleton.Snprintf.Print.{read_item, vsnprintf}
use os1_meaty_skeleton.Snprintf.Text.{rendered, in_field}
use os1_meaty_skeleton.Snprintf.Output.{printed, vsnprintf-printed}
use os1_meaty_skeleton.Snprintf.Digits.{value}
use os1_meaty_skeleton.Snprintf.Signs.{AreDigits, put_number-value}

-- "%5d|%s"
abbrev format : List ℕ
format = b'%' ∷ b'5' ∷ b'd' ∷ b'|' ∷ b'%' ∷ b's' ∷ []

abbrev args : List Arg
args = word 42 ∷ string (some (b'o' ∷ b'k' ∷ [])) ∷ []

abbrev text : List ℕ
text = b' ' ∷ b' ' ∷ b' ' ∷ b'4' ∷ b'2' ∷ b'|' ∷ b'o' ∷ b'k' ∷ []

abbrev untouched : ℕ → ℕ
untouched _ = 255

-- The text is cut off in a buffer of six bytes.
vsnprintf-printed_example :
    (m : ℕ → ℕ) × (vsnprintf untouched 6 format args ≡ some (pos 8, m))
    × ((x : ℕ) → m x ≡ printed untouched 6 text x)
unfolding rendered parse_flags parse_decimal parse_count parse_precision parse_length finish_spec
    parse_format read_item number_text digits_loop
vsnprintf-printed_example =
    vsnprintf-printed untouched 6 format args text (omega arith) refl (omega arith)

abbrev decimal : FormatSpec
decimal = record no_spec { zero_pad = true; width = 5; specifier = b'd' }

-- -5
abbrev minus_five : ℕ
minus_five = u64 - 5

abbrev start : Out
start = record { str = untouched; pos = 0 }

put_number-value_example :
    (ds : List ℕ) × (0 < length ds)
    × AreDigits false 10 ds
    × (value 10 ds ≡ 5)
    × (put_number 9 minus_five true decimal start
        ≡ put_chars 9
            (in_field decimal
              (replicate (precision_of decimal - length (b'-' ∷ ds)) b'0' ++ (b'-' ∷ ds)))
            start)
put_number-value_example = put_number-value 9 minus_five true decimal start (omega arith)
