-- ===== src/Scanf/Typing.antt =====
-- What `read_input` of src/libc/stdio/scanf.c makes of a line that is typed.
use os1_meaty_skeleton.Prelude.{
  ℕ, ◌+◌, ◌-◌, ◌≤◌, ◌<◌, ◌≡◌, refl, sym, ap, ◌∙◌, true, false, ltb, ◌==◌, if◌then◌else◌, List, [],
  ◌∷◌, ◌++◌, append-nil, append_assoc, length, length-append, take, some, arith,
}
use os1_meaty_skeleton.Keyboard.{key_press, key_release, KeyEvent, keycode_to_ascii}
use os1_meaty_skeleton.Vga.{Vga, vga_put_char}
use os1_meaty_skeleton.Scanf.Editor.{
  key_enter, key_backspace, max_input, Editor, erase_left, handle_key, erase, echo, got, ignored,
  is_press, press_key, press, entered, read_loop, read_input,
}

-- A key that writes the character `c`.
pub record Writes (e : KeyEvent) (c : ℕ) : Type 0 where
  pub pressed : e.type ≡ key_press
  pub char : keycode_to_ascii e.code e.modifiers ≡ some c
  pub some_char : (c == 0) ≡ false
  pub same_line : (c == 0x0a) ≡ false
  pub no_enter : (e.code == key_enter) ≡ false
  pub no_backspace : (e.code == key_backspace) ≡ false

-- Enter or Backspace, with the character `c` that the keyboard has for it.
pub record Commands (e : KeyEvent) (code c : ℕ) : Type 0 where
  pub pressed : e.type ≡ key_press
  pub key : e.code ≡ code
  pub char : keycode_to_ascii e.code e.modifiers ≡ some c

press-pressed :
    (e : KeyEvent) (ed : Editor) → e.type ≡ key_press → press e ed ≡ press_key e.code e.modifiers ed
unfolding press
press-pressed e ed same =
    ap (λ t. if is_press t then press_key e.code e.modifiers ed else ignored) same

press-released : (e : KeyEvent) (ed : Editor) → e.type ≡ key_release → press e ed ≡ ignored
unfolding press
press-released e ed same =
    ap (λ t. if is_press t then press_key e.code e.modifiers ed else ignored) same

press_key-Writes :
    (e : KeyEvent) (c : ℕ) (ed : Editor)
    → Writes e c
    → length ed.buffer < max_input
    → press_key e.code e.modifiers ed ≡ got c (echo c ed)
unfolding press_key handle_key
press_key-Writes e c ed w room =
    let free : ltb (length ed.buffer) max_input ≡ true = ground arith in
    rw (press_key, w.char, handle_key, w.some_char, w.no_enter, w.no_backspace, w.some_char, free)
      refl

press_key-erase :
    (e : KeyEvent) (ed : Editor)
    → Commands e key_backspace 0x08
    → 0 < length ed.buffer
    → press_key e.code e.modifiers ed ≡ got 0x08 (erase ed)
unfolding press_key handle_key
press_key-erase e ed w long =
    let free : ltb 0 (length ed.buffer) ≡ true = ground arith in
    rw (press_key, w.char, handle_key, w.key, free) refl

press_key-enter :
    (e : KeyEvent) (ed : Editor)
    → Commands e key_enter 0x0a
    → length ed.buffer < max_input
    → press_key e.code e.modifiers ed ≡ got 0x0a (echo 0x0a ed)
unfolding press_key handle_key
press_key-enter e ed w room =
    let free : ltb (length ed.buffer) max_input ≡ true = ground arith in
    rw (press_key, w.char, handle_key, w.key, free) refl

-- Keys and what they write: each slip is taken back by a Backspace, and releases count for nothing.
pub data Word : List KeyEvent → List ℕ → Type 0 where
  nothing : Word [] []
  released :
      (e : KeyEvent) (es : List KeyEvent) (t : List ℕ)
      → e.type ≡ key_release
      → Word es t
      → Word (e ∷ es) t
  written :
      (e : KeyEvent) (c : ℕ) (es : List KeyEvent) (t : List ℕ)
      → Writes e c
      → Word es t
      → Word (e ∷ es) (c ∷ t)
  taken_back :
      (e f : KeyEvent) (c : ℕ) (es rest : List KeyEvent) (t : List ℕ)
      → Writes e c
      → Word es []
      → Commands f key_backspace 0x08
      → Word rest t
      → Word (e ∷ (es ++ (f ∷ rest))) t

read_loop-released :
    (e : KeyEvent) (es : List KeyEvent) (ed : Editor)
    → e.type ≡ key_release
    → length ed.buffer < max_input
    → read_loop (e ∷ es) ed ≡ read_loop es ed
unfolding read_loop
read_loop-released e es ed same room =
    let free : ltb (length ed.buffer) max_input ≡ true = ground arith in
    rw (read_loop, free, press-released e ed same) refl

read_loop-got :
    (e : KeyEvent) (es : List KeyEvent) (ed t : Editor) (c : ℕ)
    → length ed.buffer < max_input
    → press e ed ≡ got c t
    → (c == 0x0a) ≡ false
    → read_loop (e ∷ es) ed ≡ read_loop es t
unfolding read_loop
read_loop-got e es ed t c room key same =
    let free : ltb (length ed.buffer) max_input ≡ true = ground arith in
    rw (read_loop, free, key, same) refl

read_loop-enter :
    (e : KeyEvent) (es : List KeyEvent) (ed t : Editor)
    → length ed.buffer < max_input
    → press e ed ≡ got 0x0a t
    → read_loop (e ∷ es) ed ≡ entered t es
unfolding read_loop
read_loop-enter e es ed t room key =
    let free : ltb (length ed.buffer) max_input ≡ true = ground arith in
    rw (read_loop, free, key) refl

take-length : (b y : List ℕ) → take (length b) (b ++ y) ≡ b
take-length [] y = refl
take-length (x ∷ b) y = ap (λ r. x ∷ r) (take-length b y)

take-last : (b : List ℕ) (c : ℕ) → take (length (b ++ (c ∷ [])) - 1) (b ++ (c ∷ [])) ≡ b
take-last b c =
    let more : length (b ++ (c ∷ [])) - 1 ≡ length b = omega (arith, length-append b (c ∷ [])) in
    rw more (take-length b (c ∷ []))

-- The loop behind the keys of a word has the text of the word behind the buffer.
abbrev pub after : Editor → List ℕ → Vga → Editor
after ed t v = record { buffer = ed.buffer ++ t; screen = v }

abbrev pub Follows : List KeyEvent → List KeyEvent → Editor → List ℕ → Type 0
Follows es more ed t = (v : Vga) × (read_loop (es ++ more) ed ≡ read_loop more (after ed t v))

after-echo :
    (c : ℕ) (ed : Editor) (t : List ℕ) (v : Vga) → after (echo c ed) t v ≡ after ed (c ∷ t) v
after-echo c ed t v =
    ap (λ b. record { buffer = b; screen = v }) (append_assoc ed.buffer (c ∷ []) t)

erase-echo :
    (c : ℕ) (ed : Editor) (v : Vga) → erase (after (echo c ed) [] v) ≡ after ed [] (erase_left v)
erase-echo c ed v =
    ap (λ b. record { buffer = b; screen = erase_left v })
      (ap (λ b. take (length b - 1) b) (append-nil (ed.buffer ++ (c ∷ [])))
        ∙ take-last ed.buffer c
        ∙ sym (append-nil ed.buffer))

after-after : (ed : Editor) (t : List ℕ) (v u : Vga) → after (after ed [] v) t u ≡ after ed t u
after-after ed t v u = ap (λ b. record { buffer = b ++ t; screen = u }) (append-nil ed.buffer)

read_loop-Writes :
    (e : KeyEvent) (c : ℕ) (es : List KeyEvent) (ed : Editor)
    → Writes e c
    → length ed.buffer < max_input
    → read_loop (e ∷ es) ed ≡ read_loop es (echo c ed)
read_loop-Writes e c es ed w room =
    read_loop-got e es ed (echo c ed) c room
      (press-pressed e ed w.pressed ∙ press_key-Writes e c ed w room) w.same_line

read_loop-erase :
    (e : KeyEvent) (es : List KeyEvent) (ed : Editor)
    → Commands e key_backspace 0x08
    → 0 < length ed.buffer
    → length ed.buffer < max_input
    → read_loop (e ∷ es) ed ≡ read_loop es (erase ed)
read_loop-erase e es ed w long room =
    read_loop-got e es ed (erase ed) 0x08 room
      (press-pressed e ed w.pressed ∙ press_key-erase e ed w long) refl

length-after :
    (c : ℕ) (ed : Editor) (v : Vga)
    → length ((after (echo c ed) [] v).buffer) ≡ length ed.buffer + 1
length-after c ed v =
    ap length (append-nil (ed.buffer ++ (c ∷ []))) ∙ length-append ed.buffer (c ∷ [])

read_loop-Word :
    (es : List KeyEvent) (t : List ℕ) (more : List KeyEvent) (ed : Editor)
    → Word es t
    → length ed.buffer + length es < max_input
    → Follows es more ed t
read_loop-Word _ _ more ed nothing room = (ed.screen, rw (append-nil ed.buffer) refl)
read_loop-Word _ _ more ed (released e rest t same w) room =
    let next = read_loop-Word rest t more ed w (omega arith) in
    (next.0, read_loop-released e (rest ++ more) ed same (omega arith) ∙ next.1)
read_loop-Word _ _ more ed (written e c rest t key w) room =
    let next =
      read_loop-Word rest t more (echo c ed) w (omega (arith, length-append ed.buffer (c ∷ []))) in
    (
      next.0,
      read_loop-Writes e c (rest ++ more) ed key (omega arith)
          ∙ next.1
          ∙ ap (read_loop more) (after-echo c ed t next.0),
    )
read_loop-Word _ _ more ed (taken_back e f c inner rest t key w back w2) room =
    let size = length-append inner (f ∷ rest) in
    let mid =
      read_loop-Word inner [] (f ∷ (rest ++ more)) (echo c ed) w
        (omega (arith, size, length-append ed.buffer (c ∷ []))) in
    let now = erase_left mid.0 in
    let last =
      read_loop-Word rest t more (after ed [] now) w2
        (omega (arith, size, length-append ed.buffer [])) in
    (
      last.0,
      ap (λ q. read_loop (e ∷ q) ed) (append_assoc inner (f ∷ rest) more)
          ∙ read_loop-Writes e c (inner ++ (f ∷ (rest ++ more))) ed key (omega arith)
          ∙ mid.1
          ∙ read_loop-erase f (rest ++ more) (after (echo c ed) [] mid.0) back
              (omega (arith, length-after c ed mid.0))
              (omega (arith, size, length-after c ed mid.0))
          ∙ ap (read_loop (rest ++ more)) (erase-echo c ed mid.0)
          ∙ last.1
          ∙ ap (read_loop more) (after-after ed t now last.0),
    )

Word-short : (es : List KeyEvent) (t : List ℕ) → Word es t → length t ≤ length es
Word-short _ _ nothing = omega arith
Word-short _ _ (released e rest t same w) = omega (arith, Word-short rest t w)
Word-short _ _ (written e c rest t key w) = omega (arith, Word-short rest t w)
Word-short _ _ (taken_back e f c inner rest t key w back w2) =
    omega (arith, Word-short rest t w2, length-append inner (f ∷ rest))

-- When the keys of a word, fewer than 255, and Enter come, `read_input` returns with the text of the word and
-- a line feed in the buffer, and the keys behind them are left.
pub read_input-Word :
    (es : List KeyEvent) (t : List ℕ) (e : KeyEvent) (more : List KeyEvent) (v : Vga)
    → Word es t
    → Commands e key_enter 0x0a
    → length es < max_input
    → (s : Vga) × (read_input (es ++ (e ∷ more)) v
        ≡ entered (record { buffer = t ++ (0x0a ∷ []); screen = s }) more)
unfolding read_input
read_input-Word es t e more v w enter small =
    let empty : Editor = record { buffer = []; screen = v } in
    let next = read_loop-Word es t (e ∷ more) empty w (omega arith) in
    let now = after empty t next.0 in
    (
      vga_put_char next.0 0x0a,
      next.1
          ∙ read_loop-enter e more now (echo 0x0a now) (omega (arith, Word-short es t w)) (
              press-pressed e now enter.pressed
              ∙ press_key-enter e now enter (omega (arith, Word-short es t w))),
    )
