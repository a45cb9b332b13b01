-- ===== src/Stdio/Buffer.antt =====
-- Buffered output of src/libc/stdio/buffer.c. What the system call `write` does is a list of replies, from
-- one call to the next; `errno` is left out.
use os1_meaty_skeleton.Prelude.{
  ℕ, zero, suc, ◌+◌, ◌-◌, ◌%◌, ◌^◌, min, Bool, true, false, not, ◌&&◌, ◌||◌, ltb, ◌==◌,
  if◌then◌else◌, List, [], ◌∷◌, ◌++◌, length, take, drop, Option, none, some,
}
use os1_meaty_skeleton.Prelude.Int.{ℤ, pos, ltb_ℤ}

-- _IONBF, _IOLBF and _IOFBF
pub data BufMode : Type 0 where
  unbuffered line_buffered fully_buffered : BufMode

abbrev pub is_unbuffered : BufMode → Bool
is_unbuffered unbuffered = true
is_unbuffered _ = false

abbrev pub is_line_buffered : BufMode → Bool
is_line_buffered line_buffered = true
is_line_buffered _ = false

-- A call of `write` takes all bytes, only some, or fails.
pub data Reply : Type 0 where
  whole : Reply
  short : ℕ → Reply
  failed : Reply

-- The fields of `FILE` that writing uses. `buffer` holds its first `buf_pos` bytes. Behind them the file:
-- the bytes that it has taken, and its replies to come, behind which it takes everything.
pub record Output : Type 0 where
  pub fd : ℤ
  pub buffer : List ℕ
  pub buf_size : ℕ
  pub buf_mode : BufMode
  pub error : Bool
  pub delivered : List ℕ
  pub replies : List Reply

-- `write(fd, buf, len)`: the result, none where it is negative.
abbrev pub write_reply : Output → List ℕ → List Reply → Option ℕ × Output
write_reply s bs [] = (some (length bs), record s { delivered = s.delivered ++ bs })
write_reply s bs (whole ∷ rs) =
    (some (length bs), record s { delivered = s.delivered ++ bs; replies = rs })
write_reply s bs (short n ∷ rs) =
    (some (min n (length bs)), record s { delivered = s.delivered ++ take n bs; replies = rs })
write_reply s bs (failed ∷ rs) = (none, record s { replies = rs })

unfoldable pub write : Output → List ℕ → Option ℕ × Output
write s bs = write_reply s bs s.replies

-- What `fflush` does behind its guards.
unfoldable pub flush_buffer : Output → Bool × Output
flush_buffer s =
    let (written, t) = write s s.buffer in
    elim written [
      | none ↦ (false, record t { error = true })
      | some n ↦ (true, record t { buffer = [] })
    ]

-- `fflush` of a stream that is not NULL: whether it returns 0.
unfoldable pub fflush : Output → Bool × Output
fflush s =
    if s.error
    then (false, s)
    else if ltb_ℤ s.fd (pos 0) || is_unbuffered s.buf_mode
    then (true, s)
    else if ltb 0 (length s.buffer)
    then flush_buffer s
    else (true, s)

unfoldable pub has_newline : List ℕ → Bool
has_newline [] = false
has_newline (b ∷ bs) = b == 0x0a || has_newline bs

-- The room in the buffer, a `size_t`, and the number of bytes to copy.
abbrev pub space : Output → ℕ
space s = (s.buf_size + 2 ^ 32 - length s.buffer) % 2 ^ 32

abbrev pub to_copy : Output → List ℕ → ℕ
to_copy s bs = if ltb (length bs) (space s) then length bs else space s

abbrev pub copied : Output → List ℕ → Output
copied s bs = record s { buffer = s.buffer ++ take (to_copy s bs) bs }

abbrev pub flush_newline : Output → List ℕ → Bool
flush_newline s bs = is_line_buffered s.buf_mode && has_newline bs

-- One turn of the loop of `write_buffer`: whether it goes on.
unfoldable pub buffer_turn : Output → List ℕ → Bool × Output
buffer_turn s bs =
    let t = copied s bs in
    if length t.buffer == t.buf_size || flush_newline s bs then fflush t else (true, t)

-- The loop: `total` is `total_written`, and the result none for -1. Nothing at all comes where the fuel
-- runs out.
unfoldable pub buffer_loop : ℕ → Output → List ℕ → ℕ → Option (Option ℕ × Output)
buffer_loop fuel s [] total = some (some total, s)
buffer_loop zero s (b ∷ bs) total = none
buffer_loop (suc fuel) s (b ∷ bs) total =
    let n = to_copy s (b ∷ bs) in
    let (goes_on, t) = buffer_turn s (b ∷ bs) in
    elim goes_on [
      | false ↦ some (none, t)
      | true ↦ buffer_loop fuel t (drop n (b ∷ bs)) (total + n)
    ]

-- The unbuffered write.
unfoldable pub write_directly : Output → List ℕ → Option ℕ × Output
write_directly s bs =
    let (written, t) = write s bs in
    elim written [ none ↦ (none, record t { error = true }) | some n ↦ (some n, t) ]

-- `write_buffer`; `valid` is that neither pointer is NULL, and that the length is not negative.
unfoldable pub write_buffer : ℕ → Bool → Output → List ℕ → Option (Option ℕ × Output)
write_buffer fuel valid s bs =
    if not valid || s.error
    then some (none, s)
    else if ltb_ℤ s.fd (pos 0)
    then some (none, s)
    else if is_unbuffered s.buf_mode
    then some (write_directly s bs)
    else buffer_loop fuel s bs 0

-- What `stdio_init` makes of the standard streams for output.
abbrev pub stdout_struct : List Reply → Output
stdout_struct rs = record {
  fd = pos 1;
  buffer = [];
  buf_size = 1024;
  buf_mode = line_buffered;
  error = false;
  delivered = [];
  replies = rs;
}

abbrev pub stderr_struct : List Reply → Output
stderr_struct rs = record (stdout_struct rs) { fd = pos 2; buf_size = 0; buf_mode = unbuffered }
