-- ===== src/Vbe/Glyphs.antt =====
-- The table of a PSF2 font in memory, and what the loops of src/kernel/drivers/vbe.c make of it.
use os1_meaty_skeleton.Prelude.{
  ℕ, zero, suc, ◌+◌, ◌^◌, ◌≤◌, ◌<◌, ◌≡◌, ◌⊎◌, refl, ap, subst, ◌∙◌, true, false, ◌||◌, ◌==◌, List,
  [], ◌∷◌, ◌++◌, append_assoc, length, length-append, some, inl, inr, arith,
}
use os1_meaty_skeleton.Vbe.Font.{Bytes, Table, add_code, skip_sequence, glyph_loop, read_table}
use os1_meaty_skeleton.Vbe.Utf8.{HasBytes, utf8, read_utf8-utf8}

-- The code points of a glyph, and its sequences of code points.
pub record Glyph : Type 0 where
  pub codes : List ℕ
  pub sequences : List (List ℕ)

abbrev pub AreCodes : List ℕ → Type 0
AreCodes [] = Unit
AreCodes (x ∷ xs) = (x < 2 ^ 21) × AreCodes xs

abbrev pub AreSequences : List (List ℕ) → Type 0
AreSequences [] = Unit
AreSequences (q ∷ qs) = AreCodes q × AreSequences qs

abbrev pub AreGlyphs : List Glyph → Type 0
AreGlyphs [] = Unit
AreGlyphs (g ∷ gs) = AreCodes g.codes × AreSequences g.sequences × AreGlyphs gs

-- Their bytes in the table.
unfoldable pub encode : List ℕ → List ℕ
encode [] = []
encode (x ∷ xs) = utf8 x ++ encode xs

unfoldable pub sequence_bytes : List (List ℕ) → List ℕ
sequence_bytes [] = []
sequence_bytes (q ∷ qs) = 0xfe ∷ (encode q ++ sequence_bytes qs)

abbrev pub glyph_bytes : Glyph → List ℕ
glyph_bytes g = encode g.codes ++ (sequence_bytes g.sequences ++ (0xff ∷ []))

unfoldable pub table_bytes : List Glyph → List ℕ
table_bytes [] = []
table_bytes (g ∷ gs) = glyph_bytes g ++ table_bytes gs

HasBytes-append :
    (m : Bytes) (p : ℕ) (xs ys : List ℕ)
    → HasBytes m p (xs ++ ys)
    → HasBytes m p xs × HasBytes m (p + length xs) ys
HasBytes-append m p [] ys h = (tt, subst (λ q. HasBytes m q ys) (omega arith) h)
HasBytes-append m p (x ∷ xs) ys (e, h) =
    let (first, second) = HasBytes-append m (p + 1) xs ys h in
    ((e, first), subst (λ q. HasBytes m q ys) (omega arith) second)

utf8-suc : (code : ℕ) → 0 < length (utf8 code)
utf8-suc code = unfold utf8 in ground arith

IsMark : ℕ → Type 0
IsMark c = (c ≡ 0xfe) ⊎ (c ≡ 0xff)

skip_sequence-encode :
    (fuel : ℕ) (m : Bytes) (p c : ℕ) (q : List ℕ)
    → length q < fuel
    → AreCodes q
    → IsMark c
    → HasBytes m p (encode q)
    → m (p + length (encode q)) ≡ c
    → skip_sequence fuel m p ≡ some (p + length (encode q))
unfolding skip_sequence encode IsMark
skip_sequence-encode zero m p c q h codes mark bytes e = absurd (omega arith)
skip_sequence-encode (suc fuel) m p c [] h codes mark bytes e =
    let here : m p ≡ c = ap m (omega arith) ∙ e in
    let stop : (m p == 0xfe || m p == 0xff) ≡ true = ground (arith, here, mark) in
    rw (skip_sequence, stop) (ap (λ (q : ℕ). some q) (omega arith))
skip_sequence-encode (suc fuel) m p c (x ∷ xs) h (x_code, codes) mark bytes e =
    let (this, later) = HasBytes-append m p (utf8 x) (encode xs) bytes in
    let (read, size, lead) = read_utf8-utf8 m p x x_code this in
    let go_on : (m p == 0xfe || m p == 0xff) ≡ false = ground (arith, lead) in
    let count = length-append (utf8 x) (encode xs) in
    rw (skip_sequence, go_on, size)
      (skip_sequence-encode fuel m (p + length (utf8 x)) c xs (omega arith) codes mark later
          (ap m (omega (arith, count)) ∙ e)
        ∙ ap (λ (q : ℕ). some q) (omega (arith, count)))

length-encode : (xs : List ℕ) → length xs ≤ length (encode xs)
unfolding encode
length-encode [] = omega arith
length-encode (x ∷ xs) =
    omega (arith, length-append (utf8 x) (encode xs), utf8-suc x, length-encode xs)

unfoldable pub add_codes : Table → List ℕ → ℕ → Table
add_codes tab [] glyph = tab
add_codes tab (x ∷ xs) glyph = add_codes (add_code tab x glyph) xs glyph

unfoldable pub add_glyphs : Table → List Glyph → ℕ → Table
add_glyphs tab [] glyph = tab
add_glyphs tab (g ∷ gs) glyph = add_glyphs (add_codes tab g.codes glyph) gs (glyph + 1)

-- The loop passes over the sequences of a glyph, and stops behind its end.
glyph_loop-sequences :
    (fuel : ℕ) (m : Bytes) (p glyph : ℕ) (tab : Table) (qs : List (List ℕ))
    → length (sequence_bytes qs) < fuel
    → AreSequences qs
    → HasBytes m p (sequence_bytes qs ++ (0xff ∷ []))
    → glyph_loop fuel m p glyph tab ≡ some (p + length (sequence_bytes qs) + 1, tab)
unfolding glyph_loop sequence_bytes IsMark
glyph_loop-sequences zero m p glyph tab qs h codes bytes = absurd (omega arith)
glyph_loop-sequences (suc fuel) m p glyph tab [] h codes (e, bytes) =
    let end : (m p == 0xff) ≡ true = ground (arith, e) in
    rw (glyph_loop, end) (ap (λ (q : ℕ). some (q, tab)) (omega arith))
glyph_loop-sequences (suc fuel) m p glyph tab (q ∷ qs) h (q_codes, codes) (e, bytes) =
    let end : (m p == 0xff) ≡ false = ground (arith, e) in
    let mark : (m p == 0xfe) ≡ true = ground (arith, e) in
    let same = append_assoc (encode q) (sequence_bytes qs) (0xff ∷ []) in
    let (this, later) =
      HasBytes-append m (p + 1) (encode q) (sequence_bytes qs ++ (0xff ∷ []))
        (subst (λ l. HasBytes m (p + 1) l) same bytes) in
    let (c, is_mark, next) = next_mark qs (p + 1 + length (encode q)) later in
    let count = length-append (encode q) (sequence_bytes qs) in
    rw
      (
        glyph_loop,
        end,
        mark,
        skip_sequence-encode fuel m (p + 1) c q (omega (arith, length-encode q, count)) q_codes
            is_mark this next,
      )
      (glyph_loop-sequences fuel m (p + 1 + length (encode q)) glyph tab qs (omega (arith, count))
          codes later
        ∙ ap (λ (r : ℕ). some (r, tab)) (omega (arith, count)))
  where
    next_mark :
        (rs : List (List ℕ)) (r : ℕ)
        → HasBytes m r (sequence_bytes rs ++ (0xff ∷ []))
        → (c : ℕ) × IsMark c × (m r ≡ c)
    next_mark [] r (k, l) = (0xff, inr refl, k)
    next_mark (t ∷ rs) r (k, l) = (0xfe, inl refl, k)

-- A code point is read, and the loop goes on behind it.
glyph_loop-code :
    (fuel : ℕ) (m : Bytes) (p x glyph : ℕ) (tab : Table)
    → x < 2 ^ 21
    → HasBytes m p (utf8 x)
    → glyph_loop (suc fuel) m p glyph tab
      ≡ glyph_loop fuel m (p + length (utf8 x)) glyph (add_code tab x glyph)
unfolding glyph_loop
glyph_loop-code fuel m p x glyph tab h bytes =
    let (read, size, lead) = read_utf8-utf8 m p x h bytes in
    let no_end : (m p == 0xff) ≡ false = ground (arith, lead) in
    let no_mark : (m p == 0xfe) ≡ false = ground (arith, lead) in
    let moved : (p + length (utf8 x) == p) ≡ false = ground (arith, utf8-suc x) in
    rw (glyph_loop, no_end, no_mark, read, moved) refl

glyph_loop-glyph :
    (fuel : ℕ) (m : Bytes) (p glyph : ℕ) (tab : Table) (xs : List ℕ) (qs : List (List ℕ))
    → length (encode xs) + length (sequence_bytes qs) < fuel
    → AreCodes xs
    → AreSequences qs
    → HasBytes m p (encode xs ++ (sequence_bytes qs ++ (0xff ∷ [])))
    → glyph_loop fuel m p glyph tab
      ≡ some (p + length (encode xs) + length (sequence_bytes qs) + 1, add_codes tab xs glyph)
unfolding encode add_codes
glyph_loop-glyph fuel m p glyph tab [] qs h codes sequences bytes =
    glyph_loop-sequences fuel m p glyph tab qs (omega arith) sequences bytes
    ∙ ap (λ (r : ℕ). some (r, tab)) (omega arith)
glyph_loop-glyph zero m p glyph tab (x ∷ xs) qs h codes sequences bytes = absurd (omega arith)
glyph_loop-glyph (suc fuel) m p glyph tab (x ∷ xs) qs h (x_code, codes) sequences bytes =
    let tail = sequence_bytes qs ++ (0xff ∷ []) in
    let (this, later) =
      HasBytes-append m p (utf8 x) (encode xs ++ tail)
        (subst (λ l. HasBytes m p l) (append_assoc (utf8 x) (encode xs) tail) bytes) in
    let count = length-append (utf8 x) (encode xs) in
    glyph_loop-code fuel m p x glyph tab x_code this
    ∙ glyph_loop-glyph fuel m (p + length (utf8 x)) glyph (add_code tab x glyph) xs qs
        (omega (arith, count, utf8-suc x)) codes sequences later
    ∙ ap (λ (r : ℕ). some (r, add_codes (add_code tab x glyph) xs glyph)) (omega (arith, count))

pub read_table-add_glyphs :
    (fuel : ℕ) (m : Bytes) (p glyph : ℕ) (tab : Table) (gs : List Glyph)
    → length (table_bytes gs) < fuel
    → AreGlyphs gs
    → HasBytes m p (table_bytes gs)
    → read_table fuel m (length gs) p glyph tab
      ≡ some (p + length (table_bytes gs), add_glyphs tab gs glyph)
unfolding read_table table_bytes add_glyphs
read_table-add_glyphs fuel m p glyph tab [] h codes bytes =
    ap (λ (r : ℕ). some (r, tab)) (omega arith)
read_table-add_glyphs fuel m p glyph tab (g ∷ gs) h (xs_codes, qs_codes, codes) bytes =
    let (this, later) = HasBytes-append m p (glyph_bytes g) (table_bytes gs) bytes in
    let count = length-append (glyph_bytes g) (table_bytes gs) in
    let inner = length-append (encode g.codes) (sequence_bytes g.sequences ++ (0xff ∷ [])) in
    let end = length-append (sequence_bytes g.sequences) (0xff ∷ []) in
    let place : p + length (encode g.codes) + length (sequence_bytes g.sequences) + 1
        ≡ p + length (glyph_bytes g) =
      omega (arith, inner, end) in
    rw
      (
        read_table,
        glyph_loop-glyph fuel m p glyph tab g.codes g.sequences (omega (arith, count, inner, end))
            xs_codes qs_codes this,
        place,
      )
      (read_table-add_glyphs fuel m (p + length (glyph_bytes g)) (glyph + 1)
          (add_codes tab g.codes glyph) gs (omega (arith, count)) codes later
        ∙ ap (λ (r : ℕ). some (r, add_glyphs (add_codes tab g.codes glyph) gs (glyph + 1)))
            (omega (arith, count)))
