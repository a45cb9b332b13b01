-- ===== src/Unicode/Tests.antt =====
-- The theorems on UTF-16 strings at a short string.
use os1_meaty_skeleton.Prelude.{ℕ, ◌≡◌, refl, List, [], ◌∷◌, arith}
use os1_meaty_skeleton.Prelude.Int.{pos}
use os1_meaty_skeleton.Unicode.{Chars, ascii_to_unicode, unicode_to_ascii, unicode_strlen}
use os1_meaty_skeleton.Unicode.Convert.{with_string, convert-with_string}

abbrev abc : List ℕ
abc = b'a' ∷ b'b' ∷ b'c' ∷ []

abbrev zeros : Chars
zeros _ = 0

abbrev ones : Chars
ones _ = 1

convert-with_string_example :
    (ascii_to_unicode abc zeros 5 ≡ (pos 0, with_string zeros 0 abc))
    × (unicode_to_ascii abc zeros 4 ≡ (pos 0, with_string zeros 0 abc))
convert-with_string_example = convert-with_string abc 5 zeros (omega arith)

three : unicode_strlen abc 0 ≡ 3
unfolding unicode_strlen
three = refl
