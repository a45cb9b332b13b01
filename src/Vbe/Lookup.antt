-- ===== src/Vbe/Lookup.antt =====
-- Which glyph `vbe_load_font` of src/kernel/drivers/vbe.c gives a code point.
use os1_meaty_skeleton.Prelude.{
  ℕ, ◌+◌, ◌≤◌, ◌<◌, ◌≡◌, ap, Bool, false, ◌&&◌, ◌||◌, ◌==◌, if◌then◌else◌, List, [], ◌∷◌, length,
  Option, none, some, Bool-cases, inl, inr, arith, bit_and,
}
use os1_meaty_skeleton.Vbe.Font.{Bytes, Table, no_glyph, empty_table, add_code, load_table}
use os1_meaty_skeleton.Vbe.Utf8.{HasBytes}
use os1_meaty_skeleton.Vbe.Glyphs.{
  Glyph, AreGlyphs, table_bytes, add_codes, add_glyphs, read_table-add_glyphs,
}

abbrev pub member : ℕ → List ℕ → Bool
member x [] = false
member x (y ∷ ys) = x == y || member x ys

-- The number of the first glyph, counted from `k` on, that has the code point.
unfoldable pub first_glyph : ℕ → List Glyph → ℕ → ℕ
first_glyph k [] x = no_glyph
first_glyph k (g ∷ gs) x =
    let rest = first_glyph (k + 1) gs x in if member x g.codes then k else rest

add_code-if :
    (tab : Table) (y k x : ℕ)
    → k < no_glyph
    → x < 65536
    → add_code tab y k x ≡ (if tab x == no_glyph && x == y then k else tab x)
unfolding add_code
add_code-if tab y k x h l = elim (Bool-cases (x == y)) [
  | inl e ↦ let same : x ≡ y = ground (arith, e) in ground (arith, e, ap tab same, l, h)
  | inr e ↦ ground (arith, e)
]

add_codes-if :
    (tab : Table) (ys : List ℕ) (k x : ℕ)
    → k < no_glyph
    → x < 65536
    → add_codes tab ys k x ≡ (if tab x == no_glyph && member x ys then k else tab x)
unfolding add_codes
add_codes-if tab [] k x h l = ground arith
add_codes-if tab (y ∷ ys) k x h l =
    ground (arith, add_codes-if (add_code tab y k) ys k x h l, add_code-if tab y k x h l)

add_glyphs-if :
    (tab : Table) (gs : List Glyph) (k x : ℕ)
    → k + length gs ≤ no_glyph
    → x < 65536
    → add_glyphs tab gs k x ≡ (if tab x == no_glyph then first_glyph k gs x else tab x)
unfolding add_glyphs first_glyph
add_glyphs-if tab [] k x h l = ground arith
add_glyphs-if tab (g ∷ gs) k x h l = ground (
  arith,
  add_glyphs-if (add_codes tab g.codes k) gs (k + 1) x (omega arith) l,
  add_codes-if tab g.codes k x (omega arith) l,
)

abbrev pub IsLookup : List Glyph → Option Table → Type 0
IsLookup gs none = ⊥
IsLookup gs (some tab) = (x : ℕ) → x < 65536 → tab x ≡ first_glyph 0 gs x

-- For a font with at most 255 glyphs whose table lists code points and sequences of them in UTF-8, each glyph
-- followed by 0xff, the loops of `vbe_load_font` end, and every code point of 16 bits gets the first glyph
-- that lists it by itself, or 255.
pub load_table-IsLookup :
    (fuel : ℕ) (m : Bytes) (p flags : ℕ) (tab : Table) (gs : List Glyph)
    → length (table_bytes gs) < fuel
    → length gs ≤ 255
    → AreGlyphs gs
    → HasBytes m p (table_bytes gs)
    → bit_and flags 1 ≡ 1
    → IsLookup gs (load_table fuel m flags (length gs) p tab)
unfolding load_table
load_table-IsLookup fuel m p flags tab gs h few codes bytes flag =
    let has_table : (bit_and flags 1 == 0) ≡ false = ground (arith, flag) in
    rw (load_table, has_table, read_table-add_glyphs fuel m p 0 empty_table gs h codes bytes)
      (λ x l. add_glyphs-if empty_table gs 0 x (omega arith) l)
