-- ===== src/Vbe/Font.antt =====
-- The table of a PSF2 font that gives the glyphs of the code points, of src/kernel/drivers/vbe.c. The memory is
-- a function from addresses to bytes.
use os1_meaty_skeleton.Prelude.{
  ℕ, zero, suc, ◌+◌, ◌*◌, ◌%◌, ◌^◌, true, false, ◌&&◌, ◌||◌, ltb, ◌==◌, if◌then◌else◌, Option, none,
  some, bit_and, bit_or,
}
use os1_meaty_skeleton.Prelude.Loops.{for}

abbrev pub Bytes : Type 0
Bytes = ℕ → ℕ

unfoldable pub utf8_sequence_length : ℕ → ℕ
utf8_sequence_length c =
    if ltb c 0x80
    then 1
    else if bit_and c 0xe0 == 0xc0
    then 2
    else if bit_and c 0xf0 == 0xe0
    then 3
    else if bit_and c 0xf8 == 0xf0
    then 4
    else 1

abbrev pub low_bits : ℕ → ℕ
low_bits c = bit_and c 0x3f

-- The code point at `p`, and the place behind it.
unfoldable pub read_utf8 : Bytes → ℕ → ℕ × ℕ
read_utf8 m p =
    if ltb (m p) 0x80
    then (m p, p + 1)
    else if bit_and (m p) 0xe0 == 0xc0
    then (bit_or (bit_and (m p) 0x1f * 2 ^ 6) (low_bits (m (p + 1))), p + 2)
    else if bit_and (m p) 0xf0 == 0xe0
    then (
      bit_or (bit_or (bit_and (m p) 0x0f * 2 ^ 12) (low_bits (m (p + 1)) * 2 ^ 6))
          (low_bits (m (p + 2))),
      p + 3,
    )
    else if bit_and (m p) 0xf8 == 0xf0
    then (
      bit_or
          (bit_or (bit_or (bit_and (m p) 0x07 * 2 ^ 18) (low_bits (m (p + 1)) * 2 ^ 12))
            (low_bits (m (p + 2)) * 2 ^ 6))
          (low_bits (m (p + 3))),
      p + 4,
    )
    else (m p, p + 1)

-- `unicode_to_glyph`: 255 is a code point without a glyph.
abbrev pub Table : Type 0
Table = ℕ → ℕ

abbrev pub no_glyph : ℕ
no_glyph = 255

abbrev pub empty_table : Table
empty_table code = no_glyph

abbrev pub set_glyph : Table → ℕ → ℕ → Table
set_glyph tab code glyph x = if x == code then glyph % 256 else tab x

unfoldable pub add_code : Table → ℕ → ℕ → Table
add_code tab code glyph =
    if ltb code 65536 && tab code == no_glyph then set_glyph tab code glyph else tab

-- The loop behind 0xfe, over a sequence of code points.
unfoldable pub skip_sequence : ℕ → Bytes → ℕ → Option ℕ
skip_sequence zero m p = none
skip_sequence (suc fuel) m p = elim (m p == 0xfe || m p == 0xff) [
  | true ↦ some p
  | false ↦ skip_sequence fuel m (p + utf8_sequence_length (m p))
]

-- `p`, and one further on where nothing was read.
abbrev pub moved_on : ℕ → ℕ → ℕ
moved_on start p = if p == start then p + 1 else p

-- The loop over the entries of one glyph.
unfoldable pub glyph_loop : ℕ → Bytes → ℕ → ℕ → Table → Option (ℕ × Table)
glyph_loop zero m p glyph tab = none
glyph_loop (suc fuel) m p glyph tab = elim (m p == 0xff) [
  | true ↦ some (p + 1, tab)
  | false ↦ elim (m p == 0xfe) [
    | true ↦ elim (skip_sequence fuel m (p + 1)) [
      | none ↦ none
      | some q ↦ glyph_loop fuel m q glyph tab
    ]
    | false ↦
        let (code, q) = read_utf8 m p in
        glyph_loop fuel m (moved_on p q) glyph (add_code tab code glyph)
  ]
]

-- The loop over the `n` glyphs from `glyph` on.
unfoldable pub read_table : ℕ → Bytes → ℕ → ℕ → ℕ → Table → Option (ℕ × Table)
read_table fuel m zero p glyph tab = some (p, tab)
read_table fuel m (suc n) p glyph tab = elim (glyph_loop fuel m p glyph tab) [
  | none ↦ none
  | some out ↦ read_table fuel m n out.0 (glyph + 1) out.1
]

-- The loop for a font without a table.
unfoldable pub identity_table : ℕ → Table → Table
identity_table numglyph tab = for numglyph 0 (λ i t. if ltb i 65536 then set_glyph t i i else t) tab

-- The part of `vbe_load_font` that fills `unicode_to_glyph`; the table of the font lies at `p`.
unfoldable pub load_table : ℕ → Bytes → ℕ → ℕ → ℕ → Table → Option Table
load_table fuel m flags numglyph p tab = elim (bit_and flags 1 == 0) [
  | true ↦ some (identity_table numglyph tab)
  | false ↦ elim (read_table fuel m numglyph p 0 empty_table) [
    | none ↦ none
    | some out ↦ some out.1
  ]
]
