-- ===== src/Stdio/Short.antt =====
-- A `write` that takes only some of the bytes, in `fflush` of src/libc/stdio/buffer.c.
use os1_meaty_skeleton.Prelude.{
  ℕ, ◌<◌, ◌≡◌, ◌≢◌, refl, sym, ap, ◌∙◌, Bool, true, false, ltb, List, [], ◌∷◌, ◌++◌, append-nil,
  length, length-append, length-take, take, none, some, arith,
}
use os1_meaty_skeleton.Prelude.Int.{pos, ltb_ℤ}
use os1_meaty_skeleton.Stdio.Buffer.{
  is_unbuffered, Reply, short, Output, write_reply, write, flush_buffer, fflush,
}
use os1_meaty_skeleton.Stdio.Flush.{total}

cut_off : Output → ℕ → List Reply → Output
cut_off s n rs = record s { delivered = s.delivered ++ take n s.buffer; buffer = []; replies = rs }

flush_buffer-cut_off :
    (s : Output) (n : ℕ) (rs : List Reply)
    → s.replies ≡ short n ∷ rs
    → flush_buffer s ≡ (true, cut_off s n rs)
unfolding flush_buffer write cut_off
flush_buffer-cut_off s n rs reply =
    ap
      (λ (q : List Reply).
        let (written, t) = write_reply s s.buffer q in
        elim written as (λ o. Bool × Output) [
          | none ↦ (false, record t { error = true })
          | some k ↦ (true, record t { buffer = [] })
        ])
      reply

fflush-cut_off :
    (s : Output) (n : ℕ) (rs : List Reply)
    → ltb_ℤ s.fd (pos 0) ≡ false
    → s.error ≡ false
    → is_unbuffered s.buf_mode ≡ false
    → s.replies ≡ short n ∷ rs
    → 0 < length s.buffer
    → fflush s ≡ (true, cut_off s n rs)
unfolding fflush
fflush-cut_off s n rs opened healthy buffered reply h =
    let some_bytes : ltb 0 (length s.buffer) ≡ true = ground arith in
    simp (healthy, opened, buffered, some_bytes) (flush_buffer-cut_off s n rs reply)

-- When the file takes only the first `n` bytes of the buffer, `fflush` returns 0 all the same, and the other
-- bytes are in neither the file nor the buffer.
pub fflush_short :
    (s : Output) (n : ℕ) (rs : List Reply)
    → ltb_ℤ s.fd (pos 0) ≡ false
    → s.error ≡ false
    → is_unbuffered s.buf_mode ≡ false
    → s.replies ≡ short n ∷ rs
    → n < length s.buffer
    → ((fflush s).0 ≡ true)
      × (total (fflush s).1 ≡ s.delivered ++ take n s.buffer)
      × (total (fflush s).1 ≢ total s)
unfolding cut_off
fflush_short s n rs opened healthy buffered reply h =
    let same = fflush-cut_off s n rs opened healthy buffered reply (omega arith) in
    rw same (
      refl,
      append-nil (s.delivered ++ take n s.buffer),
      λ e.
          let sizes : length (s.delivered ++ take n s.buffer) ≡ length (s.delivered ++ s.buffer) =
            ap (λ (l : List ℕ). length l) (sym (append-nil (s.delivered ++ take n s.buffer)) ∙ e) in
          omega (
            arith,
            sizes,
            length-append s.delivered (take n s.buffer),
            length-append s.delivered s.buffer,
            length-take n s.buffer,
          ),
    )
