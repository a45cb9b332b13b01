-- ===== src/Stdio/Render.antt =====
-- What `vfprintf` of src/libc/stdio/buffer.c prints.
use os1_meaty_skeleton.Prelude.{
  ℕ, ◌+◌, ◌%◌, ◌≡◌, ◌⊎◌, refl, sym, ap, subst, ◌∙◌, Bool, true, false, ltb, ◌==◌, ◌&&◌,
  if◌then◌else◌, List, [], ◌∷◌, ◌++◌, append-nil, append_assoc, length, Bool-cases, inl, inr, arith,
}
use os1_meaty_skeleton.Stdio.Buffer.{Output}
use os1_meaty_skeleton.Stdio.Flush.{total, IsOpen}
use os1_meaty_skeleton.Stdio.Print.{
  Arg, Printed, printed, failed, undefined, stuck, ◌>>=◌, max_pos, store, send_some, takes_arg,
  convert, rest_args, print_loop, vfprintf,
}
use os1_meaty_skeleton.Stdio.Convert.{conversion_text, fits_arg, convert-Adds}
use os1_meaty_skeleton.Stdio.Put.{Holds, send_some-Holds, length-store, as-Holds}

-- The text of a format. A `%` at its end is left out.
unfoldable pub render : List ℕ → List Arg → List ℕ
render [] args = []
render (c ∷ []) args = if c == 0x25 then [] else c ∷ []
render (c ∷ d ∷ cs) args = elim (c == 0x25) [
  | false ↦ c ∷ render (d ∷ cs) args
  | true ↦ conversion_text d args ++ render cs (rest_args d args)
]

-- The arguments fit the format, those of `%d` are not -2 ^ 31, and no literal character finds `buf` full: it holds `k` characters, those
-- that the last conversion has left, and those since.
unfoldable pub fits : ℕ → List ℕ → List Arg → Bool
fits k [] args = true
fits k (c ∷ []) args = ltb k max_pos
fits k (c ∷ d ∷ cs) args = elim (c == 0x25) [
  | false ↦ ltb k max_pos && fits (k + 1) (d ∷ cs) args
  | true ↦
      (if takes_arg d then fits_arg d args else true)
      && fits (length (conversion_text d args) % max_pos) cs (rest_args d args)
]

-- The whole text is in the file, the stream's buffer and `buf`; or the stream is marked as failed.
abbrev pub Prints : List ℕ → Printed → Type 0
Prints xs (printed t b) = (total t ++ b ≡ xs) × IsOpen t
Prints xs (failed t) = t.error ≡ true
Prints xs undefined = ⊥
Prints xs stuck = ⊥

bind-Prints :
    (xs ys : List ℕ) (k : ℕ) (p : Printed) (f : Output → List ℕ → Printed)
    → Holds xs k p
    → ((t : Output) (b : List ℕ) → Holds xs k (printed t b) → Prints ys (f t b))
    → Prints ys (p >>= f)
bind-Prints xs ys k (printed t b) f h g = g t b h
bind-Prints xs ys k (failed t) f h g = h
bind-Prints xs ys k undefined f h g = absurd h
bind-Prints xs ys k stuck f h g = absurd h

behind : (xs buf text r : List ℕ) → ((xs ++ buf) ++ text) ++ r ≡ xs ++ (buf ++ (text ++ r))
behind xs buf text r = simp append_assoc

-- The rest of the format behind a conversion that starts with an empty `buf`.
converted :
    (s t : Output) (buf b r : List ℕ) (d : ℕ) (args : List Arg) (f : Output → List ℕ → Printed)
    → Holds (total s ++ buf) 0 (printed t b)
    → (if takes_arg d then fits_arg d args else true) ≡ true
    → ((u : Output) (e : List ℕ)
        → IsOpen u
        → length e ≡ length (conversion_text d args) % max_pos
        → Prints (total u ++ (e ++ r)) (f u e))
    → Prints (total s ++ (buf ++ (conversion_text d args ++ r))) (convert d t b args >>= f)
converted s t buf (x ∷ b) r d args f (same, count, o) h ih = absurd (omega (arith, count))
converted s t buf [] r d args f (same, count, o) h ih =
    let text = conversion_text d args in
    let before : total t ≡ total s ++ buf = sym (append-nil (total t)) ∙ same in
    bind-Prints (total t ++ text) _ (length text % max_pos) (convert d t [] args) f
      (as-Holds (convert d t [] args) refl (omega arith) (convert-Adds t d args o h))
      (λ u e (here, size, p).
        subst (λ l. Prints l (f u e))
          (sym (append_assoc (total u) e r)
            ∙ ap (λ (l : List ℕ). l ++ r) (here ∙ ap (λ (l : List ℕ). l ++ text) before)
            ∙ behind (total s) buf text r)
          (ih u e p size))

print_loop-Prints :
    (format : List ℕ) (s : Output) (buf : List ℕ) (args : List Arg)
    → IsOpen s
    → fits (length buf) format args ≡ true
    → Prints (total s ++ (buf ++ render format args)) (print_loop s buf format args)
unfolding print_loop render fits
print_loop-Prints [] s buf args w h = (ap (λ (l : List ℕ). total s ++ l) (sym (append-nil buf)), w)
print_loop-Prints (c ∷ []) s buf args w h = elim (Bool-cases (c == 0x25)) [
  | inl y ↦ rw y (ap (λ (l : List ℕ). total s ++ l) (sym (append-nil buf)), w)
  | inr y ↦
      let (same, count) = length-store buf c (ground (arith, h)) in
      rw y (ap (λ (l : List ℕ). total s ++ l) same, w)
]
print_loop-Prints (c ∷ d ∷ cs) s buf args w h =
    go (Bool-cases (c == 0x25)) (λ b k. print_loop-Prints (d ∷ cs) s b args w k)
      (λ u e k o. print_loop-Prints cs u e (rest_args d args) o k)
  where
    text : List ℕ
    text = conversion_text d args

    r : List ℕ
    r = render cs (rest_args d args)

    go :
        ((c == 0x25) ≡ true) ⊎ ((c == 0x25) ≡ false)
        → ((b : List ℕ)
            → fits (length b) (d ∷ cs) args ≡ true
            → Prints (total s ++ (b ++ render (d ∷ cs) args)) (print_loop s b (d ∷ cs) args))
        → ((u : Output) (e : List ℕ)
            → fits (length e) cs (rest_args d args) ≡ true
            → IsOpen u
            → Prints (total u ++ (e ++ r)) (print_loop u e cs (rest_args d args)))
        → Prints (total s ++ (buf ++ render (c ∷ d ∷ cs) args)) (print_loop s buf (c ∷ d ∷ cs) args)
    go (inl y) literal conversion =
        let ok = rw (fits, y) at h in
        rw (render, print_loop, y)
          (bind-Prints (total s ++ buf) _ 0 (send_some s buf) _ (send_some-Holds s buf w)
            (λ t b held.
              converted s t buf b r d args (λ u e. print_loop u e cs (rest_args d args)) held
                (ground (arith, ok))
                (λ u e o size. conversion u e (rw size (ground (arith, ok))) o)))
    go (inr y) literal conversion =
        let ok = rw (fits, y) at h in
        let (same, count) = length-store buf c (ground (arith, ok)) in
        rw (render, print_loop, y)
          (subst (λ l. Prints (total s ++ l) (print_loop s (store buf c) (d ∷ cs) args))
            (ap (λ (b : List ℕ). b ++ render (d ∷ cs) args) same
              ∙ append_assoc buf (c ∷ []) (render (d ∷ cs) args))
            (literal (store buf c) (rw count (ground (arith, ok)))))

-- On an open stream whose file takes every call whole or fails, where the arguments fit the format, `%d`
-- has no -2 ^ 31, and no literal character finds the local buffer full, `vfprintf` ends. The file and the
-- stream's buffer have grown by the whole text, and nothing is left in the local buffer; or the stream is
-- marked as failed.
pub vfprintf-Holds :
    (s : Output) (format : List ℕ) (args : List Arg)
    → IsOpen s
    → fits 0 format args ≡ true
    → Holds (total s ++ render format args) 0 (vfprintf s format args)
unfolding vfprintf
vfprintf-Holds s format args w h =
    go (print_loop s [] format args) (print_loop-Prints format s [] args w h)
  where
    xs : List ℕ
    xs = total s ++ render format args

    go : (p : Printed) → Prints xs p → Holds xs 0 (p >>= send_some)
    go (printed t b) (same, o) = subst (λ l. Holds l 0 (send_some t b)) same (send_some-Holds t b o)
    go (failed t) e = e
    go undefined e = absurd e
    go stuck e = absurd e
