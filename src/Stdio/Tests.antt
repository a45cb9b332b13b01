-- ===== src/Stdio/Tests.antt =====
-- Runs of reading and printing, and the theorems at concrete inputs.
use os1_meaty_skeleton.Prelude.{
  ℕ, ◌≡◌, ◌≢◌, refl, arith, List, [], ◌∷◌, some, none, false, true, take,
}
use os1_meaty_skeleton.Prelude.Int.{negsuc}
use os1_meaty_skeleton.Console.Format.{itoa, digits}
use os1_meaty_skeleton.Stdio.{Stream, Replies, fgets, fgets_loop, next_buffer, fill, stored}
use os1_meaty_skeleton.Stdio.Lines.{calls, lines, line, contents, unread, calls-lines}
use os1_meaty_skeleton.Stdio.Buffer.{
  Reply, whole, short, failed, Output, has_newline, write, fflush, write_directly, write_buffer,
  stdout_struct, stderr_struct,
}
use os1_meaty_skeleton.Stdio.Flush.{total, NoShort, IsOpen}
use os1_meaty_skeleton.Stdio.Short.{fflush_short}
use os1_meaty_skeleton.Stdio.Deliver.{Wrote, write_buffer-Wrote}
use os1_meaty_skeleton.Stdio.Print.{Arg, string, int, vfprintf}
use os1_meaty_skeleton.Stdio.Put.{Holds}
use os1_meaty_skeleton.Stdio.Render.{render, fits, vfprintf-Holds}

-- A stream as `fopen` leaves it, on pages of zeros.
abbrev opened : Stream
opened = record { buffer = []; buf_pos = 0; eof = false; error = false }

-- "ab", then "\nc" and the end of the file.
abbrev file : Replies
file = some (0x61 ∷ 0x62 ∷ []) ∷ some (0x0a ∷ 0x63 ∷ []) ∷ []

calls-lines_example : calls 3 10 opened file ≡ lines 3 10 (unread opened file)
calls-lines_example = calls-lines 3 10 opened file tt (omega arith)

calls_test : calls 3 10 opened file ≡ some (0x61 ∷ 0x62 ∷ 0x0a ∷ []) ∷ some (0x63 ∷ []) ∷ none ∷ []
unfolding calls fgets fgets_loop next_buffer fill stored
calls_test = refl

lines_test :
    lines 3 3 (unread opened file)
    ≡ some (0x61 ∷ 0x62 ∷ []) ∷ some (0x0a ∷ []) ∷ some (0x63 ∷ []) ∷ []
unfolding lines line contents stored
lines_test = refl

stdout_struct-IsOpen : (rs : List Reply) → NoShort rs → IsOpen (stdout_struct rs)
unfolding has_newline
stdout_struct-IsOpen rs h = record {
  opened = refl;
  healthy = refl;
  buffered = refl;
  room = omega arith;
  size = omega arith;
  whole_calls = h;
  no_line = refl;
}

-- "a", a line feed and "b".
abbrev two_lines : List ℕ
two_lines = 0x61 ∷ 0x0a ∷ 0x62 ∷ []

write_buffer-Wrote_example :
    Wrote [] two_lines 3 (write_buffer 3 true (stdout_struct (whole ∷ failed ∷ [])) two_lines)
write_buffer-Wrote_example =
    write_buffer-Wrote 3 (stdout_struct (whole ∷ failed ∷ [])) two_lines (omega arith)
      (stdout_struct-IsOpen (whole ∷ failed ∷ []) tt)

-- "%s=%d" of "n" and -12
abbrev format : List ℕ
format = 0x25 ∷ 0x73 ∷ 0x3d ∷ 0x25 ∷ 0x64 ∷ []

abbrev values : List Arg
values = string (some (0x6e ∷ [])) ∷ int (negsuc 11) ∷ []

format-fits : fits 0 format values ≡ true
unfolding fits
format-fits = refl

vfprintf-Holds_example : Holds (render format values) 0 (vfprintf (stdout_struct []) format values)
vfprintf-Holds_example =
    vfprintf-Holds (stdout_struct []) format values (stdout_struct-IsOpen [] tt) format-fits

render_test : render format values ≡ 0x6e ∷ 0x3d ∷ 0x2d ∷ 0x31 ∷ 0x32 ∷ []
unfolding render itoa digits
render_test = refl

-- Two bytes of three are taken.
abbrev slow : Output
slow = record (stdout_struct (short 2 ∷ [])) { buffer = two_lines }

fflush_short_example :
    ((fflush slow).0 ≡ true)
    × (total (fflush slow).1 ≡ take 2 two_lines)
    × (total (fflush slow).1 ≢ two_lines)
fflush_short_example = fflush_short slow 2 [] refl refl refl refl (omega arith)

-- Output to stderr is not buffered.
stderr_test :
    write_buffer 0 true (stderr_struct []) two_lines
    ≡ some (some 3, record (stderr_struct []) { delivered = two_lines })
unfolding write_buffer write_directly write
stderr_test = refl
