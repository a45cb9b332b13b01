-- ===== src/Vbe/Utf8.antt =====
-- `read_utf8` of src/kernel/drivers/vbe.c reads what UTF-8 writes.
use os1_meaty_skeleton.Prelude.{
  ℕ, ◌+◌, ◌*◌, ◌/◌, ◌%◌, ◌^◌, ◌<◌, ◌≡◌, refl, ap, ◌∙◌, true, false, ltb, ◌==◌, if◌then◌else◌, List,
  [], ◌∷◌, length, Bool-cases, inl, inr, arith, bit_and, bit_or,
}
use os1_meaty_skeleton.Prelude.Bits.{bit_or_sum, bit_and_shift, bit_and_remainder}
use os1_meaty_skeleton.Vbe.Font.{Bytes, utf8_sequence_length, low_bits, read_utf8}

-- The bytes at `p`.
abbrev pub HasBytes : Bytes → ℕ → List ℕ → Type 0
HasBytes m p [] = Unit
HasBytes m p (x ∷ xs) = (m p ≡ x) × HasBytes m (p + 1) xs

-- The UTF-8 of a code point.
unfoldable pub utf8 : ℕ → List ℕ
utf8 code =
    if ltb code 0x80
    then code ∷ []
    else if ltb code 0x800
    then (0xc0 + code / 2 ^ 6) ∷ (0x80 + code % 2 ^ 6) ∷ []
    else if ltb code 0x10000
    then (0xe0 + code / 2 ^ 12) ∷ (0x80 + code / 2 ^ 6 % 2 ^ 6) ∷ (0x80 + code % 2 ^ 6) ∷ []
    else (0xf0 + code / 2 ^ 18)
      ∷ (0x80 + code / 2 ^ 12 % 2 ^ 6)
      ∷ (0x80 + code / 2 ^ 6 % 2 ^ 6)
      ∷ (0x80 + code % 2 ^ 6)
      ∷ []

-- The masks of the source.
low_bits-remainder : (c : ℕ) → low_bits c ≡ c % 2 ^ 6
low_bits-remainder c = bit_and_remainder 6 c

mask_2 : (c : ℕ) → bit_and c 0xe0 ≡ c / 2 ^ 5 % 2 ^ 3 * 2 ^ 5
mask_2 c = bit_and_shift 5 c 7 ∙ ap (λ (t : ℕ). t * 2 ^ 5) (bit_and_remainder 3 (c / 2 ^ 5))

mask_3 : (c : ℕ) → bit_and c 0xf0 ≡ c / 2 ^ 4 % 2 ^ 4 * 2 ^ 4
mask_3 c = bit_and_shift 4 c 15 ∙ ap (λ (t : ℕ). t * 2 ^ 4) (bit_and_remainder 4 (c / 2 ^ 4))

mask_4 : (c : ℕ) → bit_and c 0xf8 ≡ c / 2 ^ 3 % 2 ^ 5 * 2 ^ 3
mask_4 c = bit_and_shift 3 c 31 ∙ ap (λ (t : ℕ). t * 2 ^ 3) (bit_and_remainder 5 (c / 2 ^ 3))

two_parts : (a b : ℕ) → b < 2 ^ 6 → bit_or (a * 2 ^ 6) b ≡ a * 2 ^ 6 + b
two_parts a b h = bit_or_sum 6 a b h

three_parts :
    (a b c : ℕ)
    → b < 2 ^ 6
    → c < 2 ^ 6
    → bit_or (bit_or (a * 2 ^ 12) (b * 2 ^ 6)) c ≡ a * 2 ^ 12 + b * 2 ^ 6 + c
three_parts a b c h k =
    let upper : bit_or (a * 2 ^ 12) (b * 2 ^ 6) ≡ (a * 2 ^ 6 + b) * 2 ^ 6 =
      bit_or_sum 12 a (b * 2 ^ 6) (omega arith) ∙ omega arith in
    ap (λ (t : ℕ). bit_or t c) upper ∙ two_parts (a * 2 ^ 6 + b) c k ∙ omega arith

four_parts :
    (a b c d : ℕ)
    → b < 2 ^ 6
    → c < 2 ^ 6
    → d < 2 ^ 6
    → bit_or (bit_or (bit_or (a * 2 ^ 18) (b * 2 ^ 12)) (c * 2 ^ 6)) d
      ≡ a * 2 ^ 18 + b * 2 ^ 12 + c * 2 ^ 6 + d
four_parts a b c d h k l =
    let upper : bit_or (a * 2 ^ 18) (b * 2 ^ 12) ≡ (a * 2 ^ 6 + b) * 2 ^ 12 =
      bit_or_sum 18 a (b * 2 ^ 12) (omega arith) ∙ omega arith in
    ap (λ (t : ℕ). bit_or (bit_or t (c * 2 ^ 6)) d) upper
    ∙ three_parts (a * 2 ^ 6 + b) c d k l
    ∙ omega arith

-- What is read at `p`, and the length that the first byte tells.
abbrev IsRead : Bytes → ℕ → ℕ → ℕ → Type 0
IsRead m p code n = (read_utf8 m p ≡ (code, p + n)) × (utf8_sequence_length (m p) ≡ n)

one_byte-IsRead : (m : Bytes) (p a : ℕ) → m p ≡ a → a < 0x80 → IsRead m p a 1
unfolding read_utf8 utf8_sequence_length
one_byte-IsRead m p a e h =
    let small : ltb (m p) 0x80 ≡ true = ground (arith, e) in rw (small, e) (refl, refl)

two_bytes-IsRead :
    (m : Bytes) (p a b : ℕ)
    → m p ≡ 0xc0 + a
    → m (p + 1) ≡ 0x80 + b
    → a < 32
    → b < 64
    → IsRead m p (a * 2 ^ 6 + b) 2
unfolding read_utf8 utf8_sequence_length
two_bytes-IsRead m p a b e f h k =
    let large : ltb (m p) 0x80 ≡ false = ground (arith, e) in
    let lead : (bit_and (m p) 0xe0 == 0xc0) ≡ true = ground (arith, mask_2 (m p), e) in
    let top : bit_and (m p) 0x1f ≡ a = omega (arith, bit_and_remainder 5 (m p), e) in
    let low : low_bits (m (p + 1)) ≡ b = omega (arith, low_bits-remainder (m (p + 1)), f) in
    rw (large, lead, top, low, two_parts a b k) (refl, refl)

three_bytes-IsRead :
    (m : Bytes) (p a b c : ℕ)
    → m p ≡ 0xe0 + a
    → m (p + 1) ≡ 0x80 + b
    → m (p + 2) ≡ 0x80 + c
    → a < 16
    → b < 64
    → c < 64
    → IsRead m p (a * 2 ^ 12 + b * 2 ^ 6 + c) 3
unfolding read_utf8 utf8_sequence_length
three_bytes-IsRead m p a b c e f g h k l =
    let large : ltb (m p) 0x80 ≡ false = ground (arith, e) in
    let lead_2 : (bit_and (m p) 0xe0 == 0xc0) ≡ false = ground (arith, mask_2 (m p), e) in
    let lead : (bit_and (m p) 0xf0 == 0xe0) ≡ true = ground (arith, mask_3 (m p), e) in
    let top : bit_and (m p) 0x0f ≡ a = omega (arith, bit_and_remainder 4 (m p), e) in
    let low : low_bits (m (p + 1)) ≡ b = omega (arith, low_bits-remainder (m (p + 1)), f) in
    let last : low_bits (m (p + 2)) ≡ c = omega (arith, low_bits-remainder (m (p + 2)), g) in
    rw (large, lead_2, lead, top, low, last, three_parts a b c k l) (refl, refl)

four_bytes-IsRead :
    (m : Bytes) (p a b c d : ℕ)
    → m p ≡ 0xf0 + a
    → m (p + 1) ≡ 0x80 + b
    → m (p + 2) ≡ 0x80 + c
    → m (p + 3) ≡ 0x80 + d
    → a < 8
    → b < 64
    → c < 64
    → d < 64
    → IsRead m p (a * 2 ^ 18 + b * 2 ^ 12 + c * 2 ^ 6 + d) 4
unfolding read_utf8 utf8_sequence_length
four_bytes-IsRead m p a b c d e f g i h k l n =
    let large : ltb (m p) 0x80 ≡ false = ground (arith, e) in
    let lead_2 : (bit_and (m p) 0xe0 == 0xc0) ≡ false = ground (arith, mask_2 (m p), e) in
    let lead_3 : (bit_and (m p) 0xf0 == 0xe0) ≡ false = ground (arith, mask_3 (m p), e) in
    let lead : (bit_and (m p) 0xf8 == 0xf0) ≡ true = ground (arith, mask_4 (m p), e) in
    let top : bit_and (m p) 0x07 ≡ a = omega (arith, bit_and_remainder 3 (m p), e) in
    let low : low_bits (m (p + 1)) ≡ b = omega (arith, low_bits-remainder (m (p + 1)), f) in
    let next : low_bits (m (p + 2)) ≡ c = omega (arith, low_bits-remainder (m (p + 2)), g) in
    let last : low_bits (m (p + 3)) ≡ d = omega (arith, low_bits-remainder (m (p + 3)), i) in
    rw (large, lead_2, lead_3, lead, top, low, next, last, four_parts a b c d k l n) (refl, refl)

-- `read_utf8` gives back a code point below 2 ^ 21 whose UTF-8 lies at `p`, and the place behind it;
-- `utf8_sequence_length` of the first byte, which is no mark of the table, is the number of bytes.
pub read_utf8-utf8 :
    (m : Bytes) (p code : ℕ)
    → code < 2 ^ 21
    → HasBytes m p (utf8 code)
    → (read_utf8 m p ≡ (code, p + length (utf8 code)))
      × (utf8_sequence_length (m p) ≡ length (utf8 code))
      × (m p < 0xf8)
unfolding utf8
read_utf8-utf8 m p code h bytes = elim (Bool-cases (ltb code 0x80)) [
  | inl y ↦
      let (e, rest) = rw y at bytes in
      let (read, size) = one_byte-IsRead m p code e (ground (arith, y)) in
      rw y (read, size, ground (arith, e, y))
  | inr y ↦ elim (Bool-cases (ltb code 0x800)) [
    | inl z ↦
        let (e, (f, rest)) = rw (y, z) at bytes in
        let (read, size) =
          two_bytes-IsRead m p (code / 2 ^ 6) (code % 2 ^ 6) e f (ground (arith, z))
            (omega arith) in
        let same : code / 2 ^ 6 * 2 ^ 6 + code % 2 ^ 6 ≡ code = omega arith in
        rw (y, z) (read ∙ ap (λ (c : ℕ). (c, p + 2)) same, size, ground (arith, e, z))
    | inr z ↦ elim (Bool-cases (ltb code 0x10000)) [
      | inl u ↦
          let (e, (f, (g, rest))) = rw (y, z, u) at bytes in
          let g' : m (p + 2) ≡ 0x80 + code % 2 ^ 6 = ap m (omega arith) ∙ g in
          let (read, size) =
            three_bytes-IsRead m p (code / 2 ^ 12) (code / 2 ^ 6 % 2 ^ 6) (code % 2 ^ 6) e f g'
              (ground (arith, u)) (omega arith) (omega arith) in
          let same : code / 2 ^ 12 * 2 ^ 12 + code / 2 ^ 6 % 2 ^ 6 * 2 ^ 6 + code % 2 ^ 6 ≡ code =
            omega arith in
          rw (y, z, u) (read ∙ ap (λ (c : ℕ). (c, p + 3)) same, size, ground (arith, e, u))
      | inr u ↦
          let (e, (f, (g, (i, rest)))) = rw (y, z, u) at bytes in
          let g' : m (p + 2) ≡ 0x80 + code / 2 ^ 6 % 2 ^ 6 = ap m (omega arith) ∙ g in
          let i' : m (p + 3) ≡ 0x80 + code % 2 ^ 6 = ap m (omega arith) ∙ i in
          let (read, size) =
            four_bytes-IsRead m p (code / 2 ^ 18) (code / 2 ^ 12 % 2 ^ 6) (code / 2 ^ 6 % 2 ^ 6)
              (code % 2 ^ 6) e f g' i' (omega arith) (omega arith) (omega arith) (omega arith) in
          let same : code / 2 ^ 18 * 2 ^ 18
                + code / 2 ^ 12 % 2 ^ 6 * 2 ^ 12
                + code / 2 ^ 6 % 2 ^ 6 * 2 ^ 6
                + code % 2 ^ 6
              ≡ code =
            omega arith in
          rw (y, z, u) (read ∙ ap (λ (c : ℕ). (c, p + 4)) same, size, omega (arith, e))
    ]
  ]
]
