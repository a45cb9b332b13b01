-- ===== src/Stdio/Deliver.antt =====
-- What `write_buffer` and `fflush` of src/libc/stdio/buffer.c hand to the file.
use os1_meaty_skeleton.Prelude.{
  ℕ, zero, suc, ◌+◌, ◌≤◌, ◌≡◌, sym, ap, subst, ◌∙◌, Bool, true, false, List, [], ◌∷◌, ◌++◌,
  append-nil, append_assoc, length, length-drop, take, drop, take-append-drop, Option, none, some,
  arith,
}
use os1_meaty_skeleton.Stdio.Buffer.{Output, to_copy, buffer_turn, buffer_loop, write_buffer}
use os1_meaty_skeleton.Stdio.Flush.{
  total, IsOpen, Turned, IsCopy, to_copy-IsCopy, buffer_turn-Turned,
}

-- What a call leaves that had to write `bs` behind `before`, and returns `n`, or -1. When it fails, a
-- first part of the bytes has been taken up.
abbrev pub Wrote : List ℕ → List ℕ → ℕ → Option (Option ℕ × Output) → Type 0
Wrote before bs n none = ⊥
Wrote before bs n (some (some k, t)) = (k ≡ n) × (total t ≡ before ++ bs) × IsOpen t
Wrote before bs n (some (none, t)) = (t.error ≡ true) × ((k : ℕ) × (total t ≡ before ++ take k bs))

take-drop :
    (n k : ℕ) (bs : List ℕ) → n ≤ length bs → take n bs ++ take k (drop n bs) ≡ take (n + k) bs
take-drop zero k bs h =
    let none_first : k ≡ 0 + k = omega arith in ap (λ (j : ℕ). take j bs) none_first
take-drop (suc n) k [] h = absurd (omega arith)
take-drop (suc n) k (b ∷ bs) h =
    let next : suc (n + k) ≡ suc n + k = omega arith in
    ap (λ (l : List ℕ). b ∷ l) (take-drop n k bs (omega arith))
    ∙ ap (λ (j : ℕ). take j (b ∷ bs)) next

-- A first turn that has taken up `n` bytes, and the turns that write the others.
later :
    (n k : ℕ) (before bs : List ℕ) (r : Option (Option ℕ × Output))
    → n ≤ length bs
    → Wrote (before ++ take n bs) (drop n bs) k r
    → Wrote before bs k r
later n k before bs none h w = w
later n k before bs (some (some j, t)) h (same, whole, open_) = (
  same,
  whole
      ∙ append_assoc before (take n bs) (drop n bs)
      ∙ ap (λ (l : List ℕ). before ++ l) (take-append-drop n bs),
  open_,
)
later n k before bs (some (none, t)) h (e, (j, part)) = (
  e,
  (
    n + j,
    part
        ∙ append_assoc before (take n bs) (take j (drop n bs))
        ∙ ap (λ (l : List ℕ). before ++ l) (take-drop n j bs h),
  ),
)

buffer_loop-Wrote :
    (fuel : ℕ) (s : Output) (bs : List ℕ) (done : ℕ)
    → length bs ≤ fuel
    → IsOpen s
    → Wrote (total s) bs (done + length bs) (buffer_loop fuel s bs done)
unfolding buffer_loop
buffer_loop-Wrote fuel s [] done h w = (omega arith, sym (append-nil (total s)), w)
buffer_loop-Wrote zero s (b ∷ bs) done h w = absurd (omega arith)
buffer_loop-Wrote (suc fuel) s (b ∷ bs) done h w =
    go (buffer_turn s (b ∷ bs)) (buffer_turn-Turned s (b ∷ bs) w (omega arith))
      (λ t o. buffer_loop-Wrote fuel t (drop n (b ∷ bs)) (done + n) enough o)
  where
    n : ℕ
    n = to_copy s (b ∷ bs)

    c : IsCopy s (b ∷ bs) n
    c = to_copy-IsCopy s (b ∷ bs) w (omega arith)

    enough : length (drop n (b ∷ bs)) ≤ fuel
    enough = omega (arith, length-drop n (b ∷ bs), c.some_bytes)

    go :
        (out : Bool × Output)
        → Turned s (b ∷ bs) out
        → ((t : Output)
            → IsOpen t
            → Wrote
                (total t)
                (drop n (b ∷ bs))
                (done + n + length (drop n (b ∷ bs)))
                (buffer_loop fuel t (drop n (b ∷ bs)) (done + n)))
        → Wrote (total s) (b ∷ bs) (done + length (b ∷ bs)) (
            let (goes_on, t) = out in
            elim goes_on [
              | false ↦ some (none, t)
              | true ↦ buffer_loop fuel t (drop n (b ∷ bs)) (done + n)
            ])
    go (false, t) (same, e) ih = (e, (n, same))
    go (true, t) (same, o) ih =
        let count : done + n + length (drop n (b ∷ bs)) ≡ done + length (b ∷ bs) =
          omega (arith, length-drop n (b ∷ bs), c.inside) in
        later n (done + length (b ∷ bs)) (total s) (b ∷ bs) _ c.inside (
          subst
            (λ u.
              Wrote u (drop n (b ∷ bs)) (done + length (b ∷ bs))
                (buffer_loop fuel t (drop n (b ∷ bs)) (done + n)))
            same
            (subst
              (λ k.
                Wrote (total t) (drop n (b ∷ bs)) k
                  (buffer_loop fuel t (drop n (b ∷ bs)) (done + n)))
              count (ih t o)))

write_buffer-loop :
    (fuel : ℕ) (s : Output) (bs : List ℕ)
    → IsOpen s
    → write_buffer fuel true s bs ≡ buffer_loop fuel s bs 0
unfolding write_buffer
write_buffer-loop fuel s bs w = simp (w.healthy, w.opened, w.buffered)

-- On an open stream whose file takes calls whole or fails, `write_buffer` ends. It returns the length, and
-- the file and the buffer together have grown by the bytes, in order; or it returns -1, the stream is marked
-- as failed, and a first part of the bytes has been added.
pub write_buffer-Wrote :
    (fuel : ℕ) (s : Output) (bs : List ℕ)
    → length bs ≤ fuel
    → IsOpen s
    → Wrote (total s) bs (length bs) (write_buffer fuel true s bs)
write_buffer-Wrote fuel s bs h w =
    let all : 0 + length bs ≡ length bs = omega arith in
    rw (write_buffer-loop fuel s bs w) (
      subst (λ k. Wrote (total s) bs k (buffer_loop fuel s bs 0)) all
        (buffer_loop-Wrote fuel s bs 0 h w))
