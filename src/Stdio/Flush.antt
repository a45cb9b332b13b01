-- ===== src/Stdio/Flush.antt =====
-- One turn of the loop of `write_buffer`, and `fflush`, of src/libc/stdio/buffer.c.
use os1_meaty_skeleton.Prelude.{
  ℕ, zero, suc, ◌+◌, ◌-◌, ◌^◌, ◌≤◌, ◌<◌, ◌≡◌, inl, inr, refl, sym, ◌∙◌, min, Bool, true, false,
  ◌&&◌, ◌||◌, ltb, ◌==◌, List, [], ◌∷◌, ◌++◌, append-nil, append_assoc, length, length-append,
  length-take, take, none, some, Bool-cases, arith,
}
use os1_meaty_skeleton.Prelude.Int.{pos, ltb_ℤ}
use os1_meaty_skeleton.Stdio.Buffer.{
  is_unbuffered, is_line_buffered, Reply, whole, short, failed, Output, write_reply, write,
  flush_buffer, fflush, has_newline, space, to_copy, copied, flush_newline, buffer_turn,
}

-- The file takes a call whole, or fails.
abbrev pub NoShort : List Reply → Type 0
NoShort [] = Unit
NoShort (whole ∷ rs) = NoShort rs
NoShort (short n ∷ rs) = ⊥
NoShort (failed ∷ rs) = NoShort rs

-- Everything that has been written to the stream and is not lost: what the file has, and the buffer.
abbrev pub total : Output → List ℕ
total s = s.delivered ++ s.buffer

-- A stream that `write_buffer` puts bytes into.
pub record IsOpen (s : Output) : Type 0 where
  pub opened : ltb_ℤ s.fd (pos 0) ≡ false
  pub healthy : s.error ≡ false
  pub buffered : is_unbuffered s.buf_mode ≡ false
  pub room : length s.buffer < s.buf_size
  pub size : s.buf_size < 2 ^ 32
  pub whole_calls : NoShort s.replies
  pub no_line : (is_line_buffered s.buf_mode && has_newline s.buffer) ≡ false

-- The state behind a call that says whether it went well.
abbrev pub Kept : Bool → Output → Type 0
Kept true t = IsOpen t
Kept false t = t.error ≡ true

abbrev pub Flushed : Output → Bool × Output → Type 0
Flushed s out = (total out.1 ≡ total s) × Kept out.0 out.1

-- A stream before a flush: the buffer may be full.
record IsFull (s : Output) : Type 0 where
  opened : ltb_ℤ s.fd (pos 0) ≡ false
  healthy : s.error ≡ false
  buffered : is_unbuffered s.buf_mode ≡ false
  room : 0 < s.buf_size
  size : s.buf_size < 2 ^ 32
  whole_calls : NoShort s.replies

and_false : (b : Bool) → (b && false) ≡ false
and_false true = refl
and_false false = refl

flush_buffer-Flushed : (s : Output) → IsFull s → Flushed s (flush_buffer s)
unfolding flush_buffer write has_newline
flush_buffer-Flushed s w = go s.replies w.whole_calls
  where
    emptied :
        (d : List ℕ) (rs : List Reply)
        → NoShort rs
        → IsOpen (record s { buffer = []; delivered = d; replies = rs })
    emptied d rs h = record {
      opened = w.opened;
      healthy = w.healthy;
      buffered = w.buffered;
      room = w.room;
      size = w.size;
      whole_calls = h;
      no_line = and_false (is_line_buffered s.buf_mode);
    }

    go :
        (rs : List Reply)
        → NoShort rs
        → Flushed s (
            let (written, t) = write_reply s s.buffer rs in
            elim written [
              | none ↦ (false, record t { error = true })
              | some n ↦ (true, record t { buffer = [] })
            ])
    go [] h = (append-nil (s.delivered ++ s.buffer), emptied _ s.replies w.whole_calls)
    go (whole ∷ rs) h = (append-nil (s.delivered ++ s.buffer), emptied _ rs h)
    go (short n ∷ rs) h = absurd h
    go (failed ∷ rs) h = (refl, refl)

fflush-buffer : (s : Output) → IsFull s → 0 < length s.buffer → fflush s ≡ flush_buffer s
unfolding fflush
fflush-buffer s w h =
    let some_bytes : ltb 0 (length s.buffer) ≡ true = ground arith in
    rw (w.healthy, w.opened, w.buffered, some_bytes) refl

has_newline-append : (xs ys : List ℕ) → has_newline (xs ++ ys) ≡ (has_newline xs || has_newline ys)
unfolding has_newline
has_newline-append [] ys = refl
has_newline-append (x ∷ xs) ys = ground (arith, has_newline-append xs ys)

has_newline-take : (n : ℕ) (xs : List ℕ) → has_newline xs ≡ false → has_newline (take n xs) ≡ false
unfolding has_newline
has_newline-take zero xs h = refl
has_newline-take (suc n) [] h = refl
has_newline-take (suc n) (x ∷ xs) h = ground (arith, has_newline-take n xs)

-- How much is copied.
pub record IsCopy (s : Output) (bs : List ℕ) (n : ℕ) : Type 0 where
  pub some_bytes : 0 < n
  pub inside : n ≤ length bs
  pub fits : length s.buffer + n ≤ s.buf_size
  pub whole_length : length (s.buffer ++ take n bs) ≡ length s.buffer + n

pub to_copy-IsCopy :
    (s : Output) (bs : List ℕ) → IsOpen s → 0 < length bs → IsCopy s bs (to_copy s bs)
to_copy-IsCopy s bs w h =
    let gap : space s ≡ s.buf_size - length s.buffer = omega (arith, w.room, w.size) in
    let least : to_copy s bs ≡ min (length bs) (s.buf_size - length s.buffer) =
      rw gap (ground arith) in
    let room = w.room in
    record {
      some_bytes = omega (arith, least);
      inside = omega (arith, least);
      fits = omega (arith, least);
      whole_length =
          length-append s.buffer (take (to_copy s bs) bs)
          ∙ omega (arith, least, length-take (to_copy s bs) bs);
    }

-- What a turn leaves.
abbrev pub Turned : Output → List ℕ → Bool × Output → Type 0
Turned s bs out = (total out.1 ≡ total s ++ take (to_copy s bs) bs) × Kept out.0 out.1

copied-total : (s : Output) (bs : List ℕ) → total (copied s bs) ≡ total s ++ take (to_copy s bs) bs
copied-total s bs = sym (append_assoc s.delivered s.buffer (take (to_copy s bs) bs))

copied-IsFull : (s : Output) (bs : List ℕ) → IsOpen s → IsFull (copied s bs)
copied-IsFull s bs w = record {
  opened = w.opened;
  healthy = w.healthy;
  buffered = w.buffered;
  room = omega (arith, w.room);
  size = w.size;
  whole_calls = w.whole_calls;
}

-- Without a flush the stream still has room, and no line of its own.
copied-IsOpen :
    (s : Output) (bs : List ℕ)
    → IsOpen s
    → IsCopy s bs (to_copy s bs)
    → (length (copied s bs).buffer == s.buf_size) ≡ false
    → flush_newline s bs ≡ false
    → IsOpen (copied s bs)
copied-IsOpen s bs w c not_full no_newline = record {
  opened = w.opened;
  healthy = w.healthy;
  buffered = w.buffered;
  room = ground (arith, not_full, c.fits, c.whole_length);
  size = w.size;
  whole_calls = w.whole_calls;
  no_line = elim (Bool-cases (is_line_buffered s.buf_mode)) [
    | inl y ↦
        let here : has_newline s.buffer ≡ false = rw y at w.no_line in
        let there : has_newline bs ≡ false = rw y at no_newline in
        rw (y, has_newline-append s.buffer (take (to_copy s bs) bs), here)
          (has_newline-take (to_copy s bs) bs there)
    | inr y ↦ rw y refl
  ];
}

pub buffer_turn-Turned :
    (s : Output) (bs : List ℕ) → IsOpen s → 0 < length bs → Turned s bs (buffer_turn s bs)
unfolding buffer_turn
buffer_turn-Turned s bs w h =
    let c = to_copy-IsCopy s bs w h in
    elim (Bool-cases (length (copied s bs).buffer == s.buf_size || flush_newline s bs)) [
      | inl y ↦
          let full = copied-IsFull s bs w in
          let (same, kept) = flush_buffer-Flushed (copied s bs) full in
          let some_bytes : 0 < length (copied s bs).buffer =
            omega (arith, c.whole_length, c.some_bytes) in
          rw (y, fflush-buffer (copied s bs) full some_bytes) (same ∙ copied-total s bs, kept)
      | inr y ↦ rw y (
        copied-total s bs,
        copied-IsOpen s bs w c
            (ground (arith, y, Bool-cases (length (copied s bs).buffer == s.buf_size)))
            (ground (
              arith,
              y,
              Bool-cases (length (copied s bs).buffer == s.buf_size),
              Bool-cases (flush_newline s bs),
            )),
      )
    ]
