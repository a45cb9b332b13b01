-- ===== src/Str/Copy.antt =====
-- strcpy, strcat and strncpy of src/libc/string.
use os1_meaty_skeleton.Prelude.{
  ℕ, zero, suc, ◌+◌, ◌-◌, ◌≤◌, ◌<◌, ◌≡◌, ◌⊎◌, refl, sym, ap, subst, ◌∙◌, false, ◌&&◌, some, List,
  [], ◌∷◌, ◌++◌, arith, length, get_or, ltb, leb, ◌==◌, if◌then◌else◌,
}
use os1_meaty_skeleton.Str.{
  Bytes, store, space, strcpy, strcpy_loop, strcat, strcat_loop, strncpy, strncpy_loop, strncpy_pad,
}
use os1_meaty_skeleton.Str.Layout.{HasString, HasString-frame}

-- The memory after the characters and their terminator have been written from `p` on.
abbrev written : Bytes → ℕ → List ℕ → Bytes
written m p [] = store m p 0
written m p (c ∷ cs) = written (store m p c) (p + 1) cs

written-outside :
    (m : Bytes) (p : ℕ) (xs : List ℕ) (x : ℕ)
    → (x < p) ⊎ (p + length xs < x)
    → written m p xs x ≡ m x
written-outside m p [] x out = ground arith
written-outside m p (c ∷ cs) x out =
    written-outside (store m p c) (p + 1) cs x (omega arith) ∙ ground arith

-- Only the bytes at `p` and behind it, as far as the terminator, count.
written-HasString :
    (m m' : Bytes) (p q : ℕ) (xs ys : List ℕ) → HasString m q xs → HasString (written m' p xs) p xs
written-HasString m m' p q [] ys h = ground arith
written-HasString m m' p q (c ∷ cs) ys h = (
  written-outside (store m' p c) (p + 1) cs p (omega arith) ∙ ground arith,
  h.1,
  h.2,
  written-HasString m (store m' p c) (p + 1) (q + 1) cs ys h.3,
)

strcpy_loop-written :
    (k : ℕ) (m : Bytes) (dest src : ℕ) (xs : List ℕ)
    → length xs < k
    → (dest < src) ⊎ (src + length xs < dest)
    → HasString m src xs
    → strcpy_loop k m dest src ≡ some (written m dest xs)
unfolding strcpy_loop
strcpy_loop-written zero m dest src xs lt apart h = absurd (omega arith)
strcpy_loop-written (suc k) m dest src [] lt apart h = rw h refl
strcpy_loop-written (suc k) m dest src (c ∷ cs) lt apart h =
    let kept = HasString-frame m (store m dest c) (src + 1) cs (λ x lo hi. ground arith) h.3 in
    let more : (c == 0) ≡ false = ground arith in
    rw (h.0, more)
      (strcpy_loop-written k (store m dest c) (dest + 1) (src + 1) cs (omega arith) (omega arith)
        kept)

-- What holds after the string `xs` has been written at `p`.
abbrev pub Holds : Bytes → ℕ → List ℕ → Bytes → Type 0
Holds m p xs m' = HasString m' p xs × ((x : ℕ) → (x < p) ⊎ (p + length xs < x) → m' x ≡ m x)

-- `strcpy` ends: if the target does not begin inside the source, it holds the string afterwards,
-- and no byte outside it and its terminator has changed.
pub strcpy-Holds :
    (m : Bytes) (dest src : ℕ) (xs : List ℕ)
    → length xs < space
    → (dest < src) ⊎ (src + length xs < dest)
    → HasString m src xs
    → (m' : Bytes) × (strcpy m dest src ≡ some m') × Holds m dest xs m'
unfolding strcpy
strcpy-Holds m dest src xs lt apart h = (
  written m dest xs,
  strcpy_loop-written space m dest src xs lt apart h,
  (written-HasString m m dest src xs [] h, λ x out. written-outside m dest xs x out),
)

strcat_loop-written :
    (k : ℕ) (m : Bytes) (dest src : ℕ) (xs ys : List ℕ)
    → length xs < k
    → length ys < space
    → (dest + length xs < src) ⊎ (src + length ys < dest + length xs)
    → HasString m dest xs
    → HasString m src ys
    → strcat_loop k m dest src ≡ some (written m (dest + length xs) ys)
unfolding strcat_loop
strcat_loop-written zero m dest src xs ys lt small apart h g = absurd (omega arith)
strcat_loop-written (suc k) m dest src [] ys lt small apart h g =
    let e : dest + 0 ≡ dest = omega arith in
    rw (h, e) (strcpy_loop-written space m dest src ys small (omega arith) g)
strcat_loop-written (suc k) m dest src (c ∷ cs) ys lt small apart h g =
    let more : (c == 0) ≡ false = ground arith in
    let e : dest + suc (length cs) ≡ dest + 1 + length cs = omega arith in
    rw (h.0, more, e)
      (strcat_loop-written k m (dest + 1) src cs ys (omega arith) small (omega arith) h.3 g)

joined-HasString :
    (m : Bytes) (p : ℕ) (xs ys : List ℕ)
    → HasString m (p + length xs) ys
    → ((i : ℕ)
        → i < length xs
        → (m (p + i) ≡ get_or xs i 0) × (0 < get_or xs i 0) × (get_or xs i 0 < 256))
    → HasString m p (xs ++ ys)
joined-HasString m p [] ys h at = let e : p + 0 ≡ p = omega arith in rw e at h
joined-HasString m p (c ∷ cs) ys h at =
    let e : p + 0 ≡ p = omega arith in
    let e' : p + suc (length cs) ≡ p + 1 + length cs = omega arith in
    let first = at 0 (omega arith) in
    (
      ap m (sym e) ∙ first.0,
      first.1,
      first.2,
      joined-HasString m (p + 1) cs ys (rw e' at h) λ i lt.
          let there = at (suc i) (omega arith) in (ap m (omega arith) ∙ there.0, there.1, there.2),
    )

chars_at :
    (m : Bytes) (p : ℕ) (xs : List ℕ) (i : ℕ)
    → HasString m p xs
    → i < length xs
    → (m (p + i) ≡ get_or xs i 0) × (0 < get_or xs i 0) × (get_or xs i 0 < 256)
chars_at m p [] i h lt = absurd (omega arith)
chars_at m p (c ∷ cs) zero h lt = let e : p + 0 ≡ p = omega arith in (ap m e ∙ h.0, h.1, h.2)
chars_at m p (c ∷ cs) (suc i) h lt =
    let there = chars_at m (p + 1) cs i h.3 (omega arith) in
    (ap m (omega arith) ∙ there.0, there.1, there.2)

-- `strcat` ends: if the source does not overlap the bytes from the old terminator on, the target
-- holds both strings, one after the other, and the bytes that changed all lie from the old
-- terminator to the new one.
strcat-Holds :
    (m : Bytes) (dest src : ℕ) (xs ys : List ℕ)
    → length xs < space
    → length ys < space
    → (dest + length xs < src) ⊎ (src + length ys < dest + length xs)
    → HasString m dest xs
    → HasString m src ys
    → (m' : Bytes) × (strcat m dest src ≡ some m')
      × HasString m' dest (xs ++ ys)
      × ((x : ℕ) → (x < dest + length xs) ⊎ (dest + length xs + length ys < x) → m' x ≡ m x)
unfolding strcat
strcat-Holds m dest src xs ys lt small apart h g =
    let end : ℕ = dest + length xs in
    let m' = written m end ys in
    (
      m',
      strcat_loop-written space m dest src xs ys lt small apart h g,
      joined-HasString m' dest xs ys (written-HasString m m end src ys [] g) λ i i_lt.
          let there = chars_at m dest xs i h i_lt in
          (written-outside m end ys (dest + i) (omega arith) ∙ there.0, there.1, there.2),
      λ x out. written-outside m end ys x out,
    )

strncpy_pad-zeros :
    (n : ℕ) (m : Bytes) (dest i x : ℕ)
    → strncpy_pad m dest i n x ≡ (if leb (dest + i) x && ltb x (dest + i + n) then 0 else m x)
unfolding strncpy_pad
strncpy_pad-zeros zero m dest i x = ground arith
strncpy_pad-zeros (suc n) m dest i x =
    strncpy_pad-zeros n (store m (dest + i) 0) dest (i + 1) x ∙ ground arith

get_or-suc : (c : ℕ) (cs : List ℕ) (n : ℕ) → 0 < n → get_or (c ∷ cs) n 0 ≡ get_or cs (n - 1) 0
get_or-suc c cs zero h = absurd (omega arith)
get_or-suc c cs (suc n) h = ap (λ k. get_or cs k 0) (omega arith)

get_or-zero : (c : ℕ) (cs : List ℕ) (n : ℕ) → n ≡ 0 → get_or (c ∷ cs) n 0 ≡ c
get_or-zero c cs n h = rw h

pad_step :
    (m : Bytes) (p n x c : ℕ) (cs : List ℕ)
    → (if leb (p + 1) x && ltb x (p + 1 + n) then get_or cs (x - (p + 1)) 0 else store m p c x)
      ≡ (if leb p x && ltb x (p + suc n) then get_or (c ∷ cs) (x - p) 0 else m x)
pad_step m p n x c cs =
    let e : x - p - 1 ≡ x - (p + 1) = omega arith in
    ground (arith, get_or-suc c cs (x - p), get_or-zero c cs (x - p), ap (λ k. get_or cs k 0) e)

strncpy_loop-padded :
    (n : ℕ) (m : Bytes) (dest src i : ℕ) (xs : List ℕ) (x : ℕ)
    → (dest + n ≤ src) ⊎ (src + length xs < dest)
    → HasString m (src + i) xs
    → strncpy_loop m dest src i n x
      ≡ (if leb (dest + i) x && ltb x (dest + i + n) then get_or xs (x - (dest + i)) 0 else m x)
unfolding strncpy_loop
strncpy_loop-padded zero m dest src i xs x apart h = ground arith
strncpy_loop-padded (suc n) m dest src i [] x apart h = rw h (strncpy_pad-zeros (suc n) m dest i x)
strncpy_loop-padded (suc n) m dest src i (c ∷ cs) x apart h =
    let m1 = store m (dest + i) c in
    let e : src + i + 1 ≡ src + (i + 1) = omega arith in
    let kept = HasString-frame m m1 (src + (i + 1)) cs (λ y lo hi. ground arith) (rw e at h.3) in
    let more : (c == 0) ≡ false = ground arith in
    let e2 : dest + i + 1 ≡ dest + (i + 1) = omega arith in
    let ih = strncpy_loop-padded n m1 dest src (i + 1) cs x (omega arith) kept in
    rw (h.0, more)
      (ih
        ∙ subst
            (λ k. (if leb k x && ltb x (k + n) then get_or cs (x - k) 0 else m1 x) ≡ (
              if leb (dest + i) x && ltb x (dest + i + suc n)
              then get_or (c ∷ cs) (x - (dest + i)) 0
              else m x))
            e2 (pad_step m (dest + i) n x c cs))

-- `strncpy` writes exactly `n` bytes: the string, cut off at `n` characters, and zeros behind it.
-- So the target ends in a terminator only if the string has fewer than `n` characters.
strncpy-padded :
    (m : Bytes) (dest src n : ℕ) (xs : List ℕ) (x : ℕ)
    → (dest + n ≤ src) ⊎ (src + length xs < dest)
    → HasString m src xs
    → strncpy m dest src n x
      ≡ (if leb dest x && ltb x (dest + n) then get_or xs (x - dest) 0 else m x)
unfolding strncpy
strncpy-padded m dest src n xs x apart h =
    let e : src + 0 ≡ src = omega arith in
    let d : dest + 0 ≡ dest = omega arith in
    subst
      (λ k.
        strncpy_loop m dest src 0 n x
        ≡ (if leb k x && ltb x (k + n) then get_or xs (x - k) 0 else m x))
      d (strncpy_loop-padded n m dest src 0 xs x apart (rw e h))
