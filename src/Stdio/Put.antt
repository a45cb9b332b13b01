-- ===== src/Stdio/Put.antt =====
-- The loops by which `vfprintf` of src/libc/stdio/buffer.c puts characters into its buffer.
use os1_meaty_skeleton.Prelude.{
  ℕ, zero, suc, ◌+◌, ◌/◌, ◌%◌, ◌<◌, ◌≡◌, ◌≢◌, refl, sym, ap, subst, ◌∙◌, true, false, ltb, leb,
  ◌==◌, List, [], ◌∷◌, ◌++◌, append-nil, append_assoc, length, length-append, Option, none, some,
  Bool-cases, inl, inr, arith,
}
use os1_meaty_skeleton.Console.Format.{digits}
use os1_meaty_skeleton.Stdio.Buffer.{Output, write_buffer}
use os1_meaty_skeleton.Stdio.Flush.{total, IsOpen}
use os1_meaty_skeleton.Stdio.Deliver.{Wrote, write_buffer-Wrote}
use os1_meaty_skeleton.Stdio.Print.{
  Printed, printed, failed, undefined, stuck, ◌>>=◌, max_pos, store, after_write, send, send_some,
  put_turn, put_digits, put_string_turn, put_string, decimal, puts,
}

-- The text `xs` is in the file, the stream's buffer and `buf`, which has `k` characters; or the stream is
-- marked as failed.
abbrev pub Holds : List ℕ → ℕ → Printed → Type 0
Holds xs k (printed t b) = (total t ++ b ≡ xs) × (length b ≡ k) × IsOpen t
Holds xs k (failed t) = t.error ≡ true
Holds xs k undefined = ⊥
Holds xs k stuck = ⊥

pub bind-Holds :
    (xs ys : List ℕ) (k n : ℕ) (p : Printed) (f : Output → List ℕ → Printed)
    → Holds xs k p
    → ((t : Output) (b : List ℕ) → Holds xs k (printed t b) → Holds ys n (f t b))
    → Holds ys n (p >>= f)
bind-Holds xs ys k n (printed t b) f h g = g t b h
bind-Holds xs ys k n (failed t) f h g = h
bind-Holds xs ys k n undefined f h g = absurd h
bind-Holds xs ys k n stuck f h g = absurd h

send-Holds : (s : Output) (buf : List ℕ) → IsOpen s → Holds (total s ++ buf) 0 (send s buf)
unfolding send
send-Holds s buf w =
    go (write_buffer (length buf) true s buf)
      (write_buffer-Wrote (length buf) s buf (omega arith) w)
  where
    go :
        (r : Option (Option ℕ × Output))
        → Wrote (total s) buf (length buf) r
        → Holds (total s ++ buf) 0 (after_write r)
    go none h = absurd h
    go (some (none, t)) (e, part) = e
    go (some (some n, t)) (same, all, o) = (append-nil (total t) ∙ all, refl, o)

-- `puts` prints the string and a line feed.
puts-Holds :
    (s : Output) (text : List ℕ)
    → IsOpen s
    → Holds (total s ++ (text ++ (0x0a ∷ []))) 0 (puts s text)
unfolding puts
puts-Holds s text w =
    bind-Holds (total s ++ text) _ 0 0 (send s text) _ (send-Holds s text w)
      (λ t b held. go t b held)
  where
    go :
        (t : Output) (b : List ℕ)
        → Holds (total s ++ text) 0 (printed t b)
        → Holds (total s ++ (text ++ (0x0a ∷ []))) 0 (send t (0x0a ∷ []))
    go t (x ∷ b) (same, count, o) = absurd (omega (arith, count))
    go t [] (same, count, o) =
        subst (λ l. Holds l 0 (send t (0x0a ∷ [])))
          (ap (λ (l : List ℕ). l ++ (0x0a ∷ [])) (sym (append-nil (total t)) ∙ same)
            ∙ append_assoc (total s) text (0x0a ∷ []))
          (send-Holds t (0x0a ∷ []) o)

pub send_some-Holds :
    (s : Output) (buf : List ℕ) → IsOpen s → Holds (total s ++ buf) 0 (send_some s buf)
unfolding send_some
send_some-Holds s [] w = (refl, refl, w)
send_some-Holds s (c ∷ cs) w =
    let some_bytes : ltb 0 (length (c ∷ cs)) ≡ true = ground arith in
    rw some_bytes (send-Holds s (c ∷ cs) w)

pub length-store :
    (buf : List ℕ) (c : ℕ)
    → length buf < max_pos
    → (store buf c ≡ buf ++ (c ∷ [])) × (length (store buf c) ≡ length buf + 1)
length-store buf c h =
    let room : ltb (length buf) max_pos ≡ true = ground arith in
    rw room (refl, length-append buf (c ∷ []))

put_turn-Holds :
    (s : Output) (buf : List ℕ) (c : ℕ)
    → IsOpen s
    → length buf < max_pos
    → Holds (total s ++ (buf ++ (c ∷ []))) ((length buf + 1) % max_pos) (put_turn s buf c)
unfolding put_turn
put_turn-Holds s buf c w h =
    let (same, count) = length-store buf c h in
    elim (Bool-cases (leb max_pos (length (store buf c)))) [
      | inl y ↦
          let full : (length buf + 1) % max_pos ≡ 0 = ground (arith, y, count) in
          rw (y, full)
            (subst (λ b. Holds (total s ++ b) 0 (send s (store buf c))) same
              (send-Holds s (store buf c) w))
      | inr y ↦
          let less : length (store buf c) < max_pos = ground (arith, y) in
          rw y (ap (λ (b : List ℕ). total s ++ b) same, omega (arith, count, less), w)
    ]

pub as-Holds :
    {xs ys : List ℕ} {k n : ℕ} (p : Printed) → xs ≡ ys → k ≡ n → Holds xs k p → Holds ys n p
as-Holds {xs} {ys} {k} {n} p e f h = subst (λ l. Holds l n p) e (subst (λ j. Holds xs j p) f h)

-- The text behind what the stream and `buf` have, and the number of characters that stay in `buf`.
abbrev pub Adds : Output → List ℕ → List ℕ → Printed → Type 0
Adds s buf xs p = Holds (total s ++ (buf ++ xs)) ((length buf + length xs) % max_pos) p

-- A turn for the first character, and what follows for the others.
turn_then :
    (s : Output) (buf : List ℕ) (c : ℕ) (cs : List ℕ) (p : Printed) (f : Output → List ℕ → Printed)
    → Holds (total s ++ (buf ++ (c ∷ []))) ((length buf + 1) % max_pos) p
    → ((t : Output) (b : List ℕ) → IsOpen t → length b < max_pos → Adds t b cs (f t b))
    → Adds s buf (c ∷ cs) (p >>= f)
turn_then s buf c cs p f h ih =
    bind-Holds _ _ ((length buf + 1) % max_pos) _ p f h (λ t b (same, count, o).
      as-Holds (f t b)
        (sym (append_assoc (total t) b cs)
          ∙ ap (λ (l : List ℕ). l ++ cs) same
          ∙ append_assoc (total s) (buf ++ (c ∷ [])) cs
          ∙ ap (λ (l : List ℕ). total s ++ l) (append_assoc buf (c ∷ []) cs))
        (omega (arith, count)) (ih t b o (omega (arith, count))))

none-Adds :
    (s : Output) (buf : List ℕ) → IsOpen s → length buf < max_pos → Adds s buf [] (printed s buf)
none-Adds s buf w h = (ap (λ (l : List ℕ). total s ++ l) (sym (append-nil buf)), omega arith, w)

pub put_digits-Adds :
    (s : Output) (buf xs : List ℕ)
    → IsOpen s
    → length buf < max_pos
    → Adds s buf xs (put_digits s buf xs)
unfolding put_digits
put_digits-Adds s buf [] w h = none-Adds s buf w h
put_digits-Adds s buf (c ∷ cs) w h =
    turn_then s buf c cs (put_turn s buf c) (λ t b. put_digits t b cs) (put_turn-Holds s buf c w h)
      (λ t b o k. put_digits-Adds t b cs o k)

put_string_turn-put_turn :
    (s : Output) (buf : List ℕ) (c : ℕ)
    → length buf < max_pos
    → put_string_turn s buf c ≡ put_turn s buf c
unfolding put_string_turn
put_string_turn-put_turn s buf c h =
    let room : ltb (length buf) max_pos ≡ true = ground arith in rw room refl

pub put_string-Adds :
    (s : Output) (buf xs : List ℕ)
    → IsOpen s
    → length buf < max_pos
    → Adds s buf xs (put_string s buf xs)
unfolding put_string
put_string-Adds s buf [] w h = none-Adds s buf w h
put_string-Adds s buf (c ∷ cs) w h =
    turn_then s buf c cs (put_string_turn s buf c) (λ t b. put_string t b cs)
      (rw (put_string_turn-put_turn s buf c h) (put_turn-Holds s buf c w h))
      (λ t b o k. put_string-Adds t b cs o k)

digits-zero : (n : ℕ) (text : List ℕ) → digits n 10 false 0 text ≡ text
unfolding digits
digits-zero zero text = refl
digits-zero (suc n) text = refl

-- The digits are those of `itoa`.
pub decimal-digits :
    (n d : ℕ) (text : List ℕ) → d ≢ 0 → decimal n false d text ≡ digits n 10 false d text
unfolding decimal digits
decimal-digits zero d text h = refl
decimal-digits (suc n) d text h =
    let more : (d == 0) ≡ false = ground arith in
    let below : ltb (d % 10) 10 ≡ true = ground arith in
    rw (more, below)
      (elim (Bool-cases (d / 10 == 0)) [
        | inl y ↦
            let last : d / 10 ≡ 0 = ground (arith, y) in
            rw (y, last) (sym (digits-zero n ((0x30 + d % 10) ∷ text)))
        | inr y ↦
            let not_last : d / 10 ≢ 0 = ground (arith, y) in
            rw y (decimal-digits n (d / 10) ((0x30 + d % 10) ∷ text) not_last)
      ])
