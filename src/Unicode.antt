-- ===== src/Unicode.antt =====
-- The UTF-16 strings of src/kernel/fs/unicode.c. A source string is the list of its characters
-- before the terminator; a target is an array of characters, written at an index.
pub mod Convert
mod Tests
use os1_meaty_skeleton.Prelude.{ℕ, zero, suc, ◌+◌, List, [], ◌∷◌, ltb, leb, ◌==◌, if◌then◌else◌}
use os1_meaty_skeleton.Prelude.Int.{ℤ, pos, negsuc}

abbrev pub Chars : Type 0
Chars = ℕ → ℕ

abbrev pub put : Chars → ℕ → ℕ → Chars
put d i c x = if x == i then c else d x

-- `unicode_strlen`, from the index reached on.
unfoldable pub unicode_strlen : List ℕ → ℕ → ℕ
unicode_strlen [] len = len
unicode_strlen (c ∷ src) len = unicode_strlen src (len + 1)

-- `unicode_strcpy`, at the index `i` of the target.
unfoldable pub unicode_strcpy : List ℕ → ℕ → Chars → Chars
unicode_strcpy [] i dest = put dest i 0
unicode_strcpy (c ∷ src) i dest = unicode_strcpy src (i + 1) (put dest i c)

-- The loop of `ascii_to_unicode` and what is behind it: the result and the target.
unfoldable pub ascii_loop : List ℕ → ℕ → Chars → ℕ → ℤ × Chars
ascii_loop [] i dest size = if leb size (i + 1) then (negsuc 0, dest) else (pos 0, put dest i 0)
ascii_loop (c ∷ src) i dest size =
    if leb size (i + 1) then (negsuc 0, dest) else ascii_loop src (i + 1) (put dest i c) size

abbrev pub ascii_to_unicode : List ℕ → Chars → ℕ → ℤ × Chars
ascii_to_unicode src dest size = ascii_loop src 0 dest size

-- "ASCII or '?'"
abbrev pub narrow_char : ℕ → ℕ
narrow_char c = if leb c 0x7f then c else b'?'

-- The loop of `unicode_to_ascii`, which compares with `>` where the other one has `>=`.
unfoldable pub unicode_loop : List ℕ → ℕ → Chars → ℕ → ℤ × Chars
unicode_loop [] i dest size = if ltb size i then (negsuc 0, dest) else (pos 0, put dest i 0)
unicode_loop (c ∷ src) i dest size =
    if ltb size (i + 1)
    then (negsuc 0, dest)
    else unicode_loop src (i + 1) (put dest i (narrow_char c)) size

abbrev pub unicode_to_ascii : List ℕ → Chars → ℕ → ℤ × Chars
unicode_to_ascii src dest size = unicode_loop src 0 dest size
