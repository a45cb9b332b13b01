-- ===== src/Stdio.antt =====
-- Buffered input of src/libc/stdio/fgets.c. The results of the system call `read` are a list: bytes,
-- none at the end of the file, or a failure.
pub mod Lines
pub mod Buffer
pub mod Flush
pub mod Short
pub mod Deliver
pub mod Print
pub mod Put
pub mod Convert
pub mod Render
mod Tests
use os1_meaty_skeleton.Prelude.{
  ℕ, zero, suc, ◌+◌, ◌-◌, Bool, true, false, not, ◌||◌, leb, ◌==◌, if◌then◌else◌, List, [], ◌∷◌,
  length, get_or, Option, none, some,
}

-- The fields of `FILE` that reading uses. `fgets` also uses `buf_len`, which `FILE` does not have: it
-- is the length of `buffer` here, which holds the bytes that the last `read` gave.
pub record Stream : Type 0 where
  pub buffer : List ℕ
  pub buf_pos : ℕ
  pub eof : Bool
  pub error : Bool

-- What `read` returns, from one call to the next; behind the list is the end of the file.
abbrev pub Replies : Type 0
Replies = List (Option (List ℕ))

pub data Fill : Type 0 where
  ready : Stream → Replies → Fill
  failed : Stream → Replies → Fill

-- The call of `read` when the buffer is empty.
unfoldable pub fill : Stream → Replies → Fill
fill s [] = failed (record s { eof = true }) []
fill s (none ∷ rs) = failed (record s { error = true }) rs
fill s (some [] ∷ rs) = failed (record s { eof = true }) rs
fill s (some (b ∷ bs) ∷ rs) = ready (record s { buffer = b ∷ bs; buf_pos = 0 }) rs

unfoldable pub next_buffer : Stream → Replies → Fill
next_buffer s rs = if leb (length s.buffer) s.buf_pos then fill s rs else ready s rs

-- The byte at `buf_pos`, and the stream behind it.
abbrev pub current : Stream → ℕ
current s = get_or s.buffer s.buf_pos 0

abbrev pub advance : Stream → Stream
advance s = record s { buf_pos = suc s.buf_pos }

-- The loop of `fgets`, with room for `n` more characters: those that it stores, and what is left.
unfoldable pub fgets_loop : ℕ → Stream → Replies → List ℕ × Stream × Replies
fgets_loop zero s rs = ([], s, rs)
fgets_loop (suc n) s rs = elim (next_buffer s rs) [
  | failed t qs ↦ ([], t, qs)
  | ready t qs ↦
      let rest = fgets_loop n (advance t) qs in
      if current t == 0x0a
      then (current t ∷ [], advance t, qs)
      else (current t ∷ rest.0, rest.1, rest.2)
]

-- The pointer that is returned: NULL where nothing was stored.
unfoldable pub stored : List ℕ → Option (List ℕ)
stored [] = none
stored (c ∷ cs) = some (c ∷ cs)

-- `fgets`: the string at `s` when it is returned, and what is left. `valid` is that neither pointer is
-- NULL, and a size below 0 counts as 0.
unfoldable pub fgets : Bool → ℕ → Stream → Replies → Option (List ℕ) × Stream × Replies
fgets valid size s rs =
    let out = fgets_loop (size - 1) s rs in
    if not valid || size == 0 then (none, s, rs) else (stored out.0, out.1, out.2)
