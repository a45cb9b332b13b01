-- ===== src/Scanf/Integers.antt =====
-- `kscanf` of src/libc/stdio/scanf.c on a line of integers.
use os1_meaty_skeleton.Prelude.{
  ℕ, zero, suc, ◌+◌, ◌*◌, ◌≤◌, ◌<◌, ◌≡◌, ◌≢◌, refl, sym, ap, ap₂, ◌∙◌, false, ◌==◌, List, [], ◌∷◌,
  ◌++◌, map, append-nil, append_assoc, length, length-append, Option, some, arith,
}
use os1_meaty_skeleton.Prelude.Int.{ℤ, pos, negsuc}
use os1_meaty_skeleton.Console.Format.{itoa}
use os1_meaty_skeleton.Scanf.{
  isspace, skip_space, strtol, Stored, number, default_length, store_number, read_width,
  read_length, Converted, converted, stopped, convert_text, convert, conversion, Assigned, add,
  scan, returned, kscanf,
}
use os1_meaty_skeleton.Scanf.Numbers.{
  IsDigits, IsInt, to_word, itoa-IsDigits, itoa_some, strtol-itoa,
}

-- A line of numbers, each with a space behind it, with its line feed, and the format.
unfoldable pub line : List ℤ → List ℕ
line [] = 0x0a ∷ []
line (d ∷ ds) = itoa d ++ (0x20 ∷ line ds)

unfoldable pub format : List ℤ → List ℕ
format [] = []
format (d ∷ ds) = 0x25 ∷ 0x64 ∷ 0x20 ∷ format ds

abbrev pub AreInts : List ℤ → Type 0
AreInts [] = Unit
AreInts (d ∷ ds) = IsInt d × AreInts ds

abbrev pub stored : ℤ → Stored
stored d = number 4 (to_word d)

-- A text that starts with a character other than a space.
abbrev IsWord : List ℕ → Type 0
IsWord [] = ⊥
IsWord (c ∷ cs) = isspace c ≡ false

digits-IsWord : (xs : List ℕ) → IsDigits xs → xs ≢ [] → IsWord xs
digits-IsWord [] h ne = ne refl
digits-IsWord (c ∷ cs) (lo, hi, h) ne = ground arith

itoa-IsWord : (d : ℤ) → IsInt d → IsWord (itoa d)
itoa-IsWord (pos n) h = digits-IsWord (itoa (pos n)) (itoa-IsDigits n) (itoa_some n h)
itoa-IsWord (negsuc n) h = unfold itoa in refl

word_size : (xs : List ℕ) → IsWord xs → 0 < length xs
word_size [] w = absurd w
word_size (c ∷ cs) w = omega arith

append-IsWord : (xs ys : List ℕ) → IsWord xs → IsWord (xs ++ ys)
append-IsWord [] ys h = absurd h
append-IsWord (c ∷ cs) ys h = h

skip_space-IsWord : (l : List ℕ) → IsWord l → skip_space l ≡ l
unfolding skip_space
skip_space-IsWord [] w = absurd w
skip_space-IsWord (c ∷ cs) w = rw w refl

-- At the line feed the format has ended.
scan-skip_space :
    (fuel : ℕ) (ds : List ℤ) (a : Assigned)
    → AreInts ds
    → scan fuel (format ds) (skip_space (line ds)) a ≡ scan fuel (format ds) (line ds) a
unfolding line format scan
scan-skip_space zero [] a h = refl
scan-skip_space (suc fuel) [] a h = refl
scan-skip_space fuel (d ∷ ds) a (i, h) =
    ap (λ (l : List ℕ). scan fuel (0x25 ∷ 0x64 ∷ 0x20 ∷ format ds) l a)
      (skip_space-IsWord (itoa d ++ (0x20 ∷ line ds)) (append-IsWord (itoa d) _ (itoa-IsWord d i)))

-- One `%d` on a text from which `strtol` reads a number.
convert_d :
    (n : ℕ) (input rest : List ℕ)
    → IsWord input
    → strtol input 10 ≡ (n, rest)
    → length rest < length input
    → convert 0x64 0 default_length input ≡ converted 1 (number 4 n ∷ []) rest
unfolding convert convert_text store_number
convert_d n [] rest w e shorter = absurd w
convert_d n (c ∷ cs) rest w e shorter =
    let taken : (length rest == length (c ∷ cs)) ≡ false = ground arith in rw (e, taken) refl

conversion_d :
    (n : ℕ) (f input rest : List ℕ)
    → IsWord input
    → strtol input 10 ≡ (n, rest)
    → length rest < length input
    → conversion (0x64 ∷ 0x20 ∷ f) input ≡ (converted 1 (number 4 n ∷ []) rest, 0x20 ∷ f)
unfolding conversion read_width read_length
conversion_d n f input rest w e shorter =
    rw (skip_space-IsWord input w)
      (ap (λ (r : Converted). (r, 0x20 ∷ f)) (convert_d n input rest w e shorter))

percent_d :
    (fuel n : ℕ) (f input rest : List ℕ) (a : Assigned)
    → IsWord input
    → strtol input 10 ≡ (n, rest)
    → length rest < length input
    → scan (suc fuel) (0x25 ∷ 0x64 ∷ 0x20 ∷ f) input a
      ≡ scan fuel (0x20 ∷ f) rest (add a 1 (number 4 n ∷ []))
unfolding scan
percent_d fuel n f [] rest a w e shorter = absurd w
percent_d fuel n f (c ∷ cs) rest a w e shorter =
    ap
      (λ (r : Converted × List ℕ). elim r.0 as (λ p. Option Assigned) [
        | stopped ↦ some a
        | converted k vs left ↦ scan fuel r.1 left (add a k vs)
      ])
      (conversion_d n f (c ∷ cs) rest w e shorter)

-- The space behind it.
space :
    (fuel : ℕ) (f rest : List ℕ) (a : Assigned)
    → scan (suc fuel) (0x20 ∷ f) (0x20 ∷ rest) a ≡ scan fuel f (skip_space rest) a
unfolding scan
space fuel f rest a = unfold skip_space in refl

scan-line :
    (fuel : ℕ) (ds : List ℤ) (a : Assigned)
    → 2 * length ds ≤ fuel
    → AreInts ds
    → scan fuel (format ds) (line ds) a ≡ some (a.0 + length ds, a.1 ++ map stored ds)
unfolding line format
scan-line fuel [] a h ints =
    unfold scan in
    ap₂ (λ (n : ℕ) (l : List Stored). some (n, l)) (omega arith) (sym (append-nil a.1))
scan-line zero (d ∷ ds) a h ints = absurd (omega arith)
scan-line (suc zero) (d ∷ ds) a h ints = absurd (omega arith)
scan-line (suc (suc fuel)) (d ∷ ds) a h (i, ints) =
    percent_d (suc fuel) (to_word d) (format ds) (itoa d ++ (0x20 ∷ line ds)) (0x20 ∷ line ds) a
      (append-IsWord (itoa d) _ (itoa-IsWord d i)) (strtol-itoa d (0x20 ∷ line ds) i refl)
      (omega (arith, length-append (itoa d) (0x20 ∷ line ds), word_size (itoa d) (itoa-IsWord d i)))
    ∙ space fuel (format ds) (line ds) (add a 1 (stored d ∷ []))
    ∙ scan-skip_space fuel ds (add a 1 (stored d ∷ [])) ints
    ∙ scan-line fuel ds (add a 1 (stored d ∷ [])) (omega arith) ints
    ∙ ap₂ (λ (n : ℕ) (l : List Stored). some (n, l)) (omega arith)
        (append_assoc a.1 (stored d ∷ []) (map stored ds))

length-format : (ds : List ℤ) → length (format ds) ≡ 3 * length ds
unfolding format
length-format [] = refl
length-format (d ∷ ds) = omega (arith, length-format ds)

line_some : (ds : List ℤ) → AreInts ds → line ds ≢ []
unfolding line
line_some [] h = λ e. cc
line_some (d ∷ ds) (i, h) = λ e. append_some (itoa d) (itoa-IsWord d i) e
  where
    append_some : (xs : List ℕ) → IsWord xs → xs ++ (0x20 ∷ line ds) ≢ []
    append_some [] w = λ e. absurd w
    append_some (c ∷ cs) w = λ e. cc

kscanf-some : (f l : List ℕ) → l ≢ [] → kscanf f l ≡ returned (scan (length f) f l (0, []))
unfolding kscanf
kscanf-some f [] h = absurd (h refl)
kscanf-some f (c ∷ cs) h = refl

-- On a line of integers of 32 bits other than -2 ^ 31, each with a space behind it, and its line feed,
-- `kscanf` with the same number of `%d ` ends. It stores the words of all of them, in order, and returns how
-- many they are.
pub kscanf-line :
    (ds : List ℤ)
    → AreInts ds
    → kscanf (format ds) (line ds) ≡ some (pos (length ds), map stored ds)
kscanf-line ds ints =
    kscanf-some (format ds) (line ds) (line_some ds ints)
    ∙ ap returned (
        scan-line (length (format ds)) ds (0, []) (omega (arith, length-format ds)) ints
        ∙ ap (λ (n : ℕ). some (n, map stored ds)) (omega arith))
