-- ===== src/Snprintf/Text.antt =====
-- The text that the items of a format of src/libc/string/snprintf.c stand for.
use os1_meaty_skeleton.Prelude.{
  ℕ, zero, suc, ◌+◌, ◌-◌, ◌≤◌, ◌<◌, ◌≡◌, refl, ap, true, false, ◌&&◌, Option, none, some, List, [],
  ◌∷◌, ◌++◌, arith, min, length, length-take, take, replicate, get_or, ltb, leb, ◌==◌,
  if◌then◌else◌, Bool-cases, inl, inr,
}
use os1_meaty_skeleton.Snprintf.{FormatSpec, Arg, unspecified, parse_format}
use os1_meaty_skeleton.Snprintf.Number.{string_len, pad_char, number_text, precision_of}
use os1_meaty_skeleton.Snprintf.Print.{Item, text_item, char_item, number_item, read_item}

-- A text in a field of the given width, to the left or to the right of it.
abbrev pub in_field : FormatSpec → List ℕ → List ℕ
in_field spec text =
    let pad = spec.width - length text in
    if spec.left_align then text ++ replicate pad b' ' else replicate pad (pad_char spec) ++ text

-- The characters of one item: a string is cut off at the precision, and a number filled up to it.
abbrev pub item_text : FormatSpec → Item → List ℕ
item_text spec (text_item s) =
    in_field spec (take (if spec.precision == unspecified then length s else spec.precision) s)
item_text spec (char_item c) = c ∷ []
item_text spec (number_item n is_signed) =
    let text = number_text n is_signed spec in
    in_field spec (replicate (precision_of spec - length text) b'0' ++ text)

-- The text that a format stands for with its arguments; `none` where they do not fit the format.
unfoldable pub rendered : ℕ → List ℕ → List Arg → Option (List ℕ)
rendered zero format args = none
rendered (suc k) [] args = some []
rendered (suc k) (c ∷ format) args =
    if c == b'%'
    then elim (parse_format format args) [
      | none ↦ none
      | some (format', spec, args') ↦ elim (read_item spec args') [
        | none ↦ none
        | some (item, args'') ↦ elim (rendered k format' args'') [
          | none ↦ none
          | some cs ↦ some (item_text spec item ++ cs)
        ]
      ]
    ]
    else elim (rendered k format args) [ none ↦ none | some cs ↦ some (c ∷ cs) ]

pub get_or_later :
    (c : ℕ) (cs : List ℕ) (p x : ℕ) → p < x → get_or (c ∷ cs) (x - p) 0 ≡ get_or cs (x - (p + 1)) 0
get_or_later c cs p x lt =
    let e : x - p ≡ suc (x - (p + 1)) = omega arith in ap (λ k. get_or (c ∷ cs) k 0) e

pub get_or_here : (c : ℕ) (cs : List ℕ) (p x : ℕ) → x ≡ p → get_or (c ∷ cs) (x - p) 0 ≡ c
get_or_here c cs p x e = let z : x - p ≡ 0 = omega arith in ap (λ k. get_or (c ∷ cs) k 0) z

-- One character before the others, with room for it and without.
pub pick_room :
    (p x w n m c : ℕ) (cs : List ℕ)
    → p < w
    → (if leb (p + 1) x && ltb x (min (p + 1 + n) w)
        then get_or cs (x - (p + 1)) 0
        else (if x == p then c else m))
      ≡ (if leb p x && ltb x (min (p + suc n) w) then get_or (c ∷ cs) (x - p) 0 else m)
pick_room p x w n m c cs lt = elim (Bool-cases (x == p)) [
  | inl y ↦
      let e = get_or_here c cs p x (ground arith) in
      let no' : (leb (p + 1) x && ltb x (min (p + 1 + n) w)) ≡ false = ground arith in
      let yes' : (leb p x && ltb x (min (p + suc n) w)) ≡ true = ground arith in
      rw (no', y, yes', e) refl
  | inr other ↦ elim (Bool-cases (leb (p + 1) x && ltb x (min (p + 1 + n) w))) [
    | inl inside ↦
        let e = get_or_later c cs p x (ground arith) in
        let yes' : (leb p x && ltb x (min (p + suc n) w)) ≡ true = ground arith in
        rw (inside, yes', e) refl
    | inr outside ↦
        let no' : (leb p x && ltb x (min (p + suc n) w)) ≡ false = ground arith in
        rw (outside, other, no') refl
  ]
]

pub pick_full :
    (p x w n m c : ℕ) (cs : List ℕ)
    → w ≤ p
    → (if leb (p + 1) x && ltb x (min (p + 1 + n) w) then get_or cs (x - (p + 1)) 0 else m)
      ≡ (if leb p x && ltb x (min (p + suc n) w) then get_or (c ∷ cs) (x - p) 0 else m)
pick_full p x w n m c cs le =
    let a : (leb (p + 1) x && ltb x (min (p + 1 + n) w)) ≡ false = ground arith in
    let b : (leb p x && ltb x (min (p + suc n) w)) ≡ false = ground arith in rw (a, b) refl

pub take-length-take : (n : ℕ) (s : List ℕ) → take (length (take n s)) s ≡ take n s
take-length-take zero s = refl
take-length-take (suc n) [] = refl
take-length-take (suc n) (c ∷ s) = ap (λ r. c ∷ r) (take-length-take n s)

pub string_len-min :
    (precision : ℕ) (s : List ℕ) (len : ℕ)
    → string_len precision s len
      ≡ len + (if precision == unspecified then length s else min (length s) (precision - len))
unfolding string_len
string_len-min precision [] len = ground arith
string_len-min precision (c ∷ s) len =
    let ih = string_len-min precision s (len + 1) in ground (arith, ih)

pub length-cut :
    (precision : ℕ) (s : List ℕ)
    → length (take (if precision == unspecified then length s else precision) s)
      ≡ 0 + (if precision == unspecified then length s else min (length s) (precision - 0))
length-cut precision s = elim (Bool-cases (precision == unspecified)) [
  | inl y ↦ rw y (omega (arith, length-take (length s) s))
  | inr n ↦ rw n (omega (arith, length-take precision s))
]
