-- ===== src/Str/Tests.antt =====
-- The theorems on strings at a concrete memory, and runs of the code.
use os1_meaty_skeleton.Prelude.{
  ℕ, zero, suc, ◌+◌, ◌<◌, ◌≡◌, ◌↔◌, refl, some, List, [], ◌∷◌, arith, get_or,
}
use os1_meaty_skeleton.Prelude.Int.{pos, negsuc}
use os1_meaty_skeleton.Str.{
  Bytes, memmove, strcmp, strcmp_loop, stricmp, stricmp_loop, tolower, strncmp, strchr, strchr_loop,
}
use os1_meaty_skeleton.Str.Move.{moved, memmove-moved}
use os1_meaty_skeleton.Str.Compare.{lex, strcmp-lex}

-- "ab" at 1, "aB" at 4, "abc" at 7, and zeros from 10 on.
abbrev memory : Bytes
memory x = get_or (0 ∷ 97 ∷ 98 ∷ 0 ∷ 97 ∷ 66 ∷ 0 ∷ 97 ∷ 98 ∷ 99 ∷ []) x 0

abbrev ab : List ℕ
ab = 97 ∷ 98 ∷ []

abbrev a_upper_b : List ℕ
a_upper_b = 97 ∷ 66 ∷ []

abbrev abc : List ℕ
abc = 97 ∷ 98 ∷ 99 ∷ []

runs :
    (strcmp memory 1 4 ≡ some (pos 32))
    × (stricmp memory 1 4 ≡ some (pos 0))
    × (strncmp memory 1 7 2 ≡ negsuc 98)
    × (strchr memory 7 99 ≡ some 9)
unfolding strcmp strcmp_loop stricmp stricmp_loop tolower strncmp strchr strchr_loop
runs = (refl, refl, refl, refl)

memmove-moved_example : memmove memory 2 1 2 3 ≡ moved memory 2 1 0 2 3
memmove-moved_example = memmove-moved memory 2 1 2 3

strcmp-lex_example :
    (strcmp memory 1 4 ≡ some (lex ab a_upper_b)) × ((lex ab a_upper_b ≡ pos 0) ↔ (ab ≡ a_upper_b))
strcmp-lex_example = strcmp-lex memory 1 4 ab a_upper_b (omega arith) (omega arith) (omega arith)

first_two : (k : ℕ) → k < 2 → memory (1 + k) ≡ memory (7 + k)
first_two zero lt = refl
first_two (suc zero) lt = refl
first_two (suc (suc k)) lt = absurd (omega arith)
