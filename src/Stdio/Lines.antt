-- ===== src/Stdio/Lines.antt =====
-- The lines that `fgets` of src/libc/stdio/fgets.c gives do not depend on how `read` splits the file.
use os1_meaty_skeleton.Prelude.{
  ℕ, zero, suc, ◌-◌, ◌≤◌, ◌<◌, ◌≡◌, refl, sym, ap, ap₂, ◌∙◌, subst, true, false, leb, ◌==◌,
  if◌then◌else◌, List, [], ◌∷◌, ◌++◌, length, get_or, drop, Option, none, some, Bool-cases, inl,
  inr, arith,
}
use os1_meaty_skeleton.Stdio.{
  Stream, Replies, Fill, ready, failed, fill, next_buffer, current, advance, fgets_loop, stored,
  fgets,
}

-- Every reply has bytes; the end of the list is the end of the file.
abbrev pub IsFile : Replies → Type 0
IsFile [] = Unit
IsFile (none ∷ rs) = ⊥
IsFile (some [] ∷ rs) = ⊥
IsFile (some (b ∷ bs) ∷ rs) = IsFile rs

unfoldable pub contents : Replies → List ℕ
contents [] = []
contents (none ∷ rs) = []
contents (some bs ∷ rs) = bs ++ contents rs

-- What has not been read: the rest of the buffer, and the replies to come.
abbrev pub unread : Stream → Replies → List ℕ
unread s rs = drop s.buf_pos s.buffer ++ contents rs

-- The next line, of at most `n` characters.
unfoldable pub line : ℕ → List ℕ → List ℕ
line zero u = []
line (suc n) [] = []
line (suc n) (c ∷ cs) = let rest = c ∷ line n cs in if c == 0x0a then c ∷ [] else rest

drop-at : (xs : List ℕ) (i : ℕ) → i < length xs → drop i xs ≡ get_or xs i 0 ∷ drop (suc i) xs
drop-at [] i h = absurd (omega arith)
drop-at (x ∷ xs) zero h = refl
drop-at (x ∷ xs) (suc i) h = drop-at xs i (omega arith)

drop-end : (xs : List ℕ) (i : ℕ) → length xs ≤ i → drop i xs ≡ []
drop-end [] zero h = refl
drop-end [] (suc i) h = refl
drop-end (x ∷ xs) zero h = absurd (omega arith)
drop-end (x ∷ xs) (suc i) h = drop-end xs i (omega arith)

-- A buffer that is ready has a byte, the first that has not been read; without one nothing is left.
abbrev IsNext : List ℕ → Fill → Type 0
IsNext u (ready t qs) = (u ≡ current t ∷ unread (advance t) qs) × IsFile qs
IsNext u (failed t qs) = (u ≡ []) × (unread t qs ≡ []) × IsFile qs

fill-IsNext :
    (s : Stream) (rs : Replies)
    → IsFile rs
    → length s.buffer ≤ s.buf_pos
    → IsNext (contents rs) (fill s rs)
unfolding contents fill
fill-IsNext s [] h e = (refl, ap (λ (l : List ℕ). l ++ []) (drop-end s.buffer s.buf_pos e), tt)
fill-IsNext s (none ∷ rs) h e = elim h [ ]
fill-IsNext s (some [] ∷ rs) h e = elim h [ ]
fill-IsNext s (some (b ∷ bs) ∷ rs) h e = (refl, h)

next_buffer-IsNext :
    (s : Stream) (rs : Replies) → IsFile rs → IsNext (unread s rs) (next_buffer s rs)
unfolding next_buffer
next_buffer-IsNext s rs h = elim (Bool-cases (leb (length s.buffer) s.buf_pos)) [
  | inl e ↦
      let spent : length s.buffer ≤ s.buf_pos = ground arith in
      let none_left = drop-end s.buffer s.buf_pos spent in
      rw e (
        subst (λ u. IsNext u (fill s rs)) (ap (λ (l : List ℕ). l ++ contents rs) (sym none_left))
          (fill-IsNext s rs h spent))
  | inr e ↦
      rw e (ap (λ (l : List ℕ). l ++ contents rs) (drop-at s.buffer s.buf_pos (ground arith)), h)
]

-- What the loop leaves.
abbrev IsRead : ℕ → List ℕ → List ℕ × Stream × Replies → Type 0
IsRead n u out = (out.0 ≡ line n u) × (out.0 ++ unread out.1 out.2 ≡ u) × IsFile out.2

fgets_loop-IsRead :
    (n : ℕ) (s : Stream) (rs : Replies) → IsFile rs → IsRead n (unread s rs) (fgets_loop n s rs)
unfolding fgets_loop line
fgets_loop-IsRead zero s rs h = (refl, refl, h)
fgets_loop-IsRead (suc n) s rs h =
    go (next_buffer s rs) (next_buffer-IsNext s rs h) (λ t qs k. fgets_loop-IsRead n t qs k)
  where
    go :
        (f : Fill)
        → IsNext (unread s rs) f
        → ((t : Stream) (qs : Replies) → IsFile qs → IsRead n (unread t qs) (fgets_loop n t qs))
        → IsRead (suc n) (unread s rs) (elim f [
          | failed t qs ↦ ([], t, qs)
          | ready t qs ↦
              let rest = fgets_loop n (advance t) qs in
              if current t == 0x0a
              then (current t ∷ [], advance t, qs)
              else (current t ∷ rest.0, rest.1, rest.2)
        ])
    go (failed t qs) (e, left, k) ih = (sym (ap (line (suc n)) e), left ∙ sym e, k)
    go (ready t qs) (e, k) ih =
        let rest = fgets_loop n (advance t) qs in
        subst
          (λ u. IsRead (suc n) u (
            if current t == 0x0a
            then (current t ∷ [], advance t, qs)
            else (current t ∷ rest.0, rest.1, rest.2)))
          (sym e)
          (elim (Bool-cases (current t == 0x0a)) [
            | inl y ↦ rw y (refl, refl, k)
            | inr y ↦
                let (same, left, more) = ih (advance t) qs k in
                rw y (
                  ap (λ (l : List ℕ). current t ∷ l) same,
                  ap (λ (l : List ℕ). current t ∷ l) left,
                  more,
                )
          ])

-- The calls of `fgets` one after the other, and the same on the contents of the file.
unfoldable pub calls : ℕ → ℕ → Stream → Replies → List (Option (List ℕ))
calls zero size s rs = []
calls (suc k) size s rs = let out = fgets true size s rs in out.0 ∷ calls k size out.1 out.2

unfoldable pub lines : ℕ → ℕ → List ℕ → List (Option (List ℕ))
lines zero size u = []
lines (suc k) size u =
    let next = line (size - 1) u in stored next ∷ lines k size (drop (length next) u)

drop-append : (xs ys : List ℕ) → drop (length xs) (xs ++ ys) ≡ ys
drop-append [] ys = refl
drop-append (x ∷ xs) ys = drop-append xs ys

-- Calls of `fgets` with room for a character at least give the lines of the file, cut off at the size,
-- and NULL at its end, however `read` splits the file into replies.
pub calls-lines :
    (k size : ℕ) (s : Stream) (rs : Replies)
    → IsFile rs
    → 0 < size
    → calls k size s rs ≡ lines k size (unread s rs)
unfolding calls lines fgets
calls-lines zero size s rs h some_room = refl
calls-lines (suc k) size s rs h some_room =
    let valid : (size == 0) ≡ false = ground arith in
    let out = fgets_loop (size - 1) s rs in
    let (same, left, more) = fgets_loop-IsRead (size - 1) s rs h in
    let rest : unread out.1 out.2 ≡ drop (length (line (size - 1) (unread s rs))) (unread s rs) =
      sym (drop-append out.0 (unread out.1 out.2))
      ∙ ap₂ (λ (n : ℕ) (u : List ℕ). drop n u) (ap (λ (l : List ℕ). length l) same) left in
    rw valid (
      ap₂ ◌∷◌ (ap stored same)
        (calls-lines k size out.1 out.2 more some_room ∙ ap (lines k size) rest))
