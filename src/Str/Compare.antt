-- ===== src/Str/Compare.antt =====
-- strlen, strcmp, stricmp and strncmp of src/libc/string.
use os1_meaty_skeleton.Prelude.{
  ℕ, zero, suc, ◌+◌, ◌<◌, ◌≡◌, ◌≢◌, ◌↔◌, refl, sym, ap, ◌∙◌, false, some, List, [], ◌∷◌, map, arith,
  length, ltb, ◌==◌, if◌then◌else◌,
}
use os1_meaty_skeleton.Prelude.Int.{ℤ, pos, sub_ℕ}
use os1_meaty_skeleton.Str.{
  Bytes, space, strlen, strlen_loop, strcmp, strcmp_loop, tolower, stricmp, stricmp_loop, strncmp,
  strncmp_loop,
}
use os1_meaty_skeleton.Str.Layout.{HasString}

strlen_loop-length :
    (k : ℕ) (m : Bytes) (p n : ℕ) (xs : List ℕ)
    → length xs < k
    → HasString m (p + n) xs
    → strlen_loop k m p n ≡ some (n + length xs)
unfolding strlen_loop
strlen_loop-length zero m p n xs lt h = absurd (omega arith)
strlen_loop-length (suc k) m p n [] lt h = rw h (ap some (omega arith))
strlen_loop-length (suc k) m p n (c ∷ cs) lt h =
    let more : (m (p + n) == 0) ≡ false = ground arith in
    let e : p + (n + 1) ≡ p + n + 1 = omega arith in
    rw more (strlen_loop-length k m p (n + 1) cs (omega arith) (rw e h.3) ∙ ap some (omega arith))

-- `strlen` ends on every string, with its length.
pub strlen-length :
    (m : Bytes) (p : ℕ) (xs : List ℕ)
    → length xs < space
    → HasString m p xs
    → strlen m p ≡ some (length xs)
unfolding strlen
strlen-length m p xs lt h =
    let e : p + 0 ≡ p = omega arith in
    strlen_loop-length space m p 0 xs lt (rw e h) ∙ ap some (omega arith)

-- The order of two strings by their bytes: the difference at the first place where they differ.
abbrev pub lex : List ℕ → List ℕ → ℤ
lex [] [] = pos 0
lex [] (y ∷ ys) = sub_ℕ 0 y
lex (x ∷ xs) [] = sub_ℕ x 0
lex (x ∷ xs) (y ∷ ys) = if x == y then lex xs ys else sub_ℕ x y

strcmp_loop-lex :
    (k : ℕ) (m : Bytes) (a b : ℕ) (xs ys : List ℕ)
    → length xs < k
    → HasString m a xs
    → HasString m b ys
    → strcmp_loop k m a b ≡ some (lex xs ys)
unfolding strcmp_loop
strcmp_loop-lex zero m a b xs ys lt h k = absurd (omega arith)
strcmp_loop-lex (suc n) m a b [] [] lt h k = rw (h, k) refl
strcmp_loop-lex (suc n) m a b [] (y ∷ ys) lt h k = rw (h, k.0) refl
strcmp_loop-lex (suc n) m a b (x ∷ xs) [] lt h k = rw (h.0, k) (ground arith)
strcmp_loop-lex (suc n) m a b (x ∷ xs) (y ∷ ys) lt h k =
    let ih = strcmp_loop-lex n m (a + 1) (b + 1) xs ys (omega arith) h.3 k.3 in
    rw (h.0, k.0) (ground arith)

abbrev NonZero : List ℕ → Type 0
NonZero [] = Unit {0}
NonZero (x ∷ xs) = (0 < x) × NonZero xs

lex-zero : (xs ys : List ℕ) → NonZero xs → NonZero ys → (lex xs ys ≡ pos 0) ↔ (xs ≡ ys)
lex-zero [] [] p q = (λ _. refl, λ _. refl)
lex-zero [] (y ∷ ys) p q = (λ e. ground arith, λ e. cc)
lex-zero (x ∷ xs) [] p q = (λ e. ground arith, λ e. cc)
lex-zero (x ∷ xs) (y ∷ ys) p q =
    let (to, from) = lex-zero xs ys p.1 q.1 in
    (λ e. ground (arith, to), λ e. ground (arith, from (cc)))

HasString-NonZero : (m : Bytes) (p : ℕ) (xs : List ℕ) → HasString m p xs → NonZero xs
HasString-NonZero m p [] h = tt
HasString-NonZero m p (c ∷ cs) h = (h.1, HasString-NonZero m (p + 1) cs h.3)

-- `strcmp` ends on any two strings. Its result is the order of their bytes, and it is 0 exactly
-- when the strings are equal.
pub strcmp-lex :
    (m : Bytes) (a b : ℕ) (xs ys : List ℕ)
    → length xs < space
    → HasString m a xs
    → HasString m b ys
    → (strcmp m a b ≡ some (lex xs ys)) × ((lex xs ys ≡ pos 0) ↔ (xs ≡ ys))
unfolding strcmp
strcmp-lex m a b xs ys lt h k = (
  strcmp_loop-lex space m a b xs ys lt h k,
  lex-zero xs ys (HasString-NonZero m a xs h) (HasString-NonZero m b ys k),
)

tolower-zero : tolower 0 ≡ 0
unfolding tolower
tolower-zero = refl

tolower-pos : (c : ℕ) → 0 < c → 0 < tolower c
unfolding tolower
tolower-pos c h = ground arith

stricmp_loop-lex :
    (k : ℕ) (m : Bytes) (a b : ℕ) (xs ys : List ℕ)
    → length xs < k
    → HasString m a xs
    → HasString m b ys
    → stricmp_loop k m a b ≡ some (lex (map tolower xs) (map tolower ys))
unfolding stricmp_loop
stricmp_loop-lex zero m a b xs ys lt h k = absurd (omega arith)
stricmp_loop-lex (suc n) m a b [] [] lt h k = rw (h, k, tolower-zero) refl
stricmp_loop-lex (suc n) m a b [] (y ∷ ys) lt h k = rw (h, k.0, tolower-zero) refl
stricmp_loop-lex (suc n) m a b (x ∷ xs) [] lt h k =
    rw (h.0, k, tolower-zero) (ground (arith, tolower-pos x))
stricmp_loop-lex (suc n) m a b (x ∷ xs) (y ∷ ys) lt h k =
    let ih = stricmp_loop-lex n m (a + 1) (b + 1) xs ys (omega arith) h.3 k.3 in
    rw (h.0, k.0) (ground (arith, ih))

tolower-NonZero : (xs : List ℕ) → NonZero xs → NonZero (map tolower xs)
tolower-NonZero [] h = tt
tolower-NonZero (x ∷ xs) h = (tolower-pos x h.0, tolower-NonZero xs h.1)

-- `stricmp` ends on any two strings. It compares them after both are put in lower case, and is 0
-- exactly when they differ in the case of ASCII letters alone.
stricmp-lex :
    (m : Bytes) (a b : ℕ) (xs ys : List ℕ)
    → length xs < space
    → HasString m a xs
    → HasString m b ys
    → (stricmp m a b ≡ some (lex (map tolower xs) (map tolower ys)))
      × ((lex (map tolower xs) (map tolower ys) ≡ pos 0) ↔ (map tolower xs ≡ map tolower ys))
unfolding stricmp
stricmp-lex m a b xs ys lt h k = (
  stricmp_loop-lex space m a b xs ys lt h k,
  lex-zero (map tolower xs) (map tolower ys) (tolower-NonZero xs (HasString-NonZero m a xs h))
      (tolower-NonZero ys (HasString-NonZero m b ys k)),
)

-- Two strings that agree on the first `n` bytes: the loop goes on to the byte behind them.
strncmp_loop-agree :
    (n : ℕ) (m : Bytes) (a b : ℕ)
    → ((k : ℕ) → k < n → m (a + k) ≡ m (b + k))
    → strncmp_loop m a b n ≡ sub_ℕ (m (a + n)) (m (b + n))
unfolding strncmp_loop
strncmp_loop-agree zero m a b same =
    let ea : a + 0 ≡ a = omega arith in let eb : b + 0 ≡ b = omega arith in rw (ea, eb) refl
strncmp_loop-agree (suc n) m a b same =
    let ea : a + 0 ≡ a = omega arith in
    let eb : b + 0 ≡ b = omega arith in
    let here : m a ≡ m b = ap m (sym ea) ∙ same 0 (omega arith) ∙ ap m eb in
    let sa : a + suc n ≡ a + 1 + n = omega arith in
    let sb : b + suc n ≡ b + 1 + n = omega arith in
    let ih =
      strncmp_loop-agree n m (a + 1) (b + 1)
        (λ k lt. ap m (omega arith) ∙ same (k + 1) (omega arith) ∙ ap m (omega arith)) in
    rw (sa, sb) (ground (arith, ih))

-- `strncmp` looks one byte too far: where the first `n > 0` bytes agree, its result is the
-- difference of the bytes behind them, and so is not 0 when those differ.
strncmp_overrun :
    (m : Bytes) (a b n : ℕ)
    → 0 < n
    → ((k : ℕ) → k < n → m (a + k) ≡ m (b + k))
    → m (a + n) ≢ m (b + n)
    → (strncmp m a b n ≡ sub_ℕ (m (a + n)) (m (b + n))) × (strncmp m a b n ≢ pos 0)
unfolding strncmp
strncmp_overrun m a b n pos' same differ =
    let more : ltb n 1 ≡ false = ground arith in
    let e = strncmp_loop-agree n m a b same in rw (more, e) (refl, ground arith)
