-- ===== src/Str/Search.antt =====
-- strchr and strrchr of src/libc/string.
use os1_meaty_skeleton.Prelude.{
  ℕ, zero, suc, ◌+◌, ◌%◌, ◌<◌, ◌≡◌, refl, Option, none, some, List, [], ◌∷◌, arith, length, ◌==◌,
  if◌then◌else◌,
}
use os1_meaty_skeleton.Str.{Bytes, space, strchr, strchr_loop, strrchr, strrchr_loop}
use os1_meaty_skeleton.Str.Layout.{HasString}

-- The first and the last place of a character.
abbrev pub index : ℕ → List ℕ → Option ℕ
index c [] = none
index c (x ∷ xs) =
    let rest = index c xs in
    if x == c then some 0 else elim rest [ none ↦ none | some i ↦ some (suc i) ]

abbrev pub last_index : ℕ → List ℕ → Option ℕ
last_index c [] = none
last_index c (x ∷ xs) = elim (last_index c xs) [
  | none ↦ if x == c then some 0 else none
  | some i ↦ some (suc i)
]

-- The pointer to a place in the string at `s`, and `other` where there is none.
abbrev pub pointer : ℕ → ℕ → Option ℕ → ℕ
pointer other s none = other
pointer other s (some i) = s + i

strchr_loop-index :
    (k : ℕ) (m : Bytes) (s c : ℕ) (xs : List ℕ)
    → length xs < k
    → c < 256
    → HasString m s xs
    → strchr_loop k m s c ≡ some (if c == 0 then s + length xs else pointer 0 s (index c xs))
unfolding strchr_loop
strchr_loop-index zero m s c xs lt small h = absurd (omega arith)
strchr_loop-index (suc k) m s c [] lt small h = let e : s + 0 ≡ s = omega arith in rw (h, e) refl
strchr_loop-index (suc k) m s c (x ∷ xs) lt small h =
    let ih = strchr_loop-index k m (s + 1) c xs (omega arith) small h.3 in
    let byte : c % 256 ≡ c = omega arith in rw (h.0, byte) (ground (arith, ih))

-- `strchr` ends on every string: it finds the first occurrence of a character and returns NULL if
-- there is none; for the character 0 it returns the terminator.
strchr-index :
    (m : Bytes) (s c : ℕ) (xs : List ℕ)
    → length xs < space
    → c < 256
    → HasString m s xs
    → strchr m s c ≡ some (if c == 0 then s + length xs else pointer 0 s (index c xs))
unfolding strchr
strchr-index m s c xs lt small h = strchr_loop-index space m s c xs lt small h

strrchr_loop-last_index :
    (k : ℕ) (m : Bytes) (s c last : ℕ) (xs : List ℕ)
    → length xs < k
    → c < 256
    → HasString m s xs
    → strrchr_loop k m s c last
      ≡ some (if c == 0 then s + length xs else pointer last s (last_index c xs))
unfolding strrchr_loop
strrchr_loop-last_index zero m s c last xs lt small h = absurd (omega arith)
strrchr_loop-last_index (suc k) m s c last [] lt small h =
    let e : s + 0 ≡ s = omega arith in rw (h, e) refl
strrchr_loop-last_index (suc k) m s c last (x ∷ xs) lt small h =
    let ih =
      strrchr_loop-last_index k m (s + 1) c (if x == c then s else last) xs (omega arith) small
        h.3 in
    let byte : c % 256 ≡ c = omega arith in rw (h.0, byte) (ground (arith, ih))

-- `strrchr` ends on every string: it finds the last occurrence of a character and returns NULL if
-- there is none; for the character 0 it returns the terminator.
pub strrchr-last_index :
    (m : Bytes) (s c : ℕ) (xs : List ℕ)
    → length xs < space
    → c < 256
    → HasString m s xs
    → strrchr m s c ≡ some (if c == 0 then s + length xs else pointer 0 s (last_index c xs))
unfolding strrchr
strrchr-last_index m s c xs lt small h = strrchr_loop-last_index space m s c 0 xs lt small h
