-- ===== src/Snprintf/Output.antt =====
-- What `vsnprintf` of src/libc/string/snprintf.c leaves in the caller's buffer.
use os1_meaty_skeleton.Prelude.{
  ℕ, zero, suc, ◌+◌, ◌-◌, ◌<◌, ◌≡◌, refl, ap, ◌∙◌, sym, subst, Bool, true, false, ◌&&◌, Option,
  none, some, List, [], ◌∷◌, ◌++◌, arith, min, length, get_or, ltb, leb, ◌==◌, if◌then◌else◌,
  Bool-cases, inl, inr,
}
use os1_meaty_skeleton.Prelude.Int.{to_int}
use os1_meaty_skeleton.Snprintf.{FormatSpec, Arg, u32, parse_format}
use os1_meaty_skeleton.Snprintf.Number.{Out, put_chars}
use os1_meaty_skeleton.Snprintf.Print.{
  Item, text_item, char_item, number_item, read_item, put_item, print_loop, terminate, vsnprintf,
}
use os1_meaty_skeleton.Snprintf.Text.{item_text, rendered}
use os1_meaty_skeleton.Snprintf.Fields.{
  put_chars-append, put_chars-pos, put_chars-str, put_string-in_field, put_number-in_field,
}

module _ (size : ℕ) where
  put_item-text :
      (spec : FormatSpec) (item : Item) (o : Out)
      → put_item size spec item o ≡ put_chars size (item_text spec item) o
  unfolding put_item put_chars
  put_item-text spec (text_item s) o = put_string-in_field size s spec o
  put_item-text spec (char_item c) o = refl
  put_item-text spec (number_item n is_signed) o = put_number-in_field size n is_signed spec o

  -- That the loop puts the characters of the rendered text.
  abbrev Prints : ℕ → List ℕ → List Arg → Type 0
  Prints k format args =
      (o : Out) (cs : List ℕ)
      → rendered k format args ≡ some cs
      → print_loop k size format args o ≡ some (put_chars size cs o)

  front-rendered :
      (k : ℕ) (format : List ℕ) (args : List Arg) (front : List ℕ) (o : Out) (cs : List ℕ)
      (r : Option (List ℕ))
      → Prints k format args
      → rendered k format args ≡ r
      → elim r [ none ↦ none | some ds ↦ some (front ++ ds) ] ≡ some cs
      → print_loop k size format args (put_chars size front o) ≡ some (put_chars size cs o)
  front-rendered k format args front o cs none ih e h = absurd (cc)
  front-rendered k format args front o cs (some ds) ih e h =
      let split : front ++ ds ≡ cs = cc in
      ih (put_chars size front o) ds e
      ∙ ap some (sym (put_chars-append size front ds o))
      ∙ ap (λ r. some (put_chars size r o)) split

  round-rendered :
      (k : ℕ)
      → ((format : List ℕ) (args : List Arg) → Prints k format args)
      → (c : ℕ) (format : List ℕ) (args : List Arg) → Prints (suc k) (c ∷ format) args
  unfolding rendered print_loop put_chars
  round-rendered k ih c format args o cs e = elim (Bool-cases (c == b'%')) [
    | inl y ↦ rw y (parsed (parse_format format args) (subst (λ b. shape b ≡ some cs) y e))
    | inr n ↦ rw n (
        front-rendered k format args (c ∷ []) o cs (rendered k format args) (ih format args) refl
          (subst (λ b. shape b ≡ some cs) n e))
  ]
    where
      rendered_spec : Option (List ℕ × FormatSpec × List Arg) → Option (List ℕ)
      rendered_spec r = elim r [
        | none ↦ none
        | some (format', spec, args') ↦ elim (read_item spec args') [
          | none ↦ none
          | some (item, args'') ↦ elim (rendered k format' args'') [
            | none ↦ none
            | some cs' ↦ some (item_text spec item ++ cs')
          ]
        ]
      ]

      shape : Bool → Option (List ℕ)
      shape b =
          if b
          then rendered_spec (parse_format format args)
          else (elim (rendered k format args) [ none ↦ none | some ds ↦ some (c ∷ ds) ])

      read :
          (format' : List ℕ) (spec : FormatSpec) (r : Option (Item × List Arg))
          → elim r [
            | none ↦ none
            | some (item, args'') ↦ elim (rendered k format' args'') [
              | none ↦ none
              | some cs' ↦ some (item_text spec item ++ cs')
            ]
          ]
            ≡ some cs
          → elim r [
            | none ↦ none
            | some (item, args'') ↦ print_loop k size format' args'' (put_item size spec item o)
          ]
            ≡ some (put_chars size cs o)
      read format' spec none h = absurd (cc)
      read format' spec (some (item, args'')) h = rw (put_item-text spec item o) (
          front-rendered k format' args'' (item_text spec item) o cs (rendered k format' args'')
            (ih format' args'') refl h)

      parsed :
          (r : Option (List ℕ × FormatSpec × List Arg))
          → rendered_spec r ≡ some cs
          → elim r [
            | none ↦ none
            | some (format', spec, args') ↦ elim (read_item spec args') [
              | none ↦ none
              | some (item, args'') ↦ print_loop k size format' args'' (put_item size spec item o)
            ]
          ]
            ≡ some (put_chars size cs o)
      parsed none h = absurd (cc)
      parsed (some (format', spec, args')) h = read format' spec (read_item spec args') h

  print_loop-rendered : (k : ℕ) (format : List ℕ) (args : List Arg) → Prints k format args
  unfolding rendered print_loop put_chars
  print_loop-rendered zero format args o cs e = absurd (cc)
  print_loop-rendered (suc k) [] args o cs e =
      let nothing : [] ≡ cs = cc in ap (λ r. some (put_chars size r o)) nothing
  print_loop-rendered (suc k) (c ∷ format) args o cs e =
      round-rendered k (print_loop-rendered k) c format args o cs e

-- The buffer of `size` bytes afterwards: the text as far as it fits, a terminator, and the rest as it
-- was.
abbrev pub printed : (ℕ → ℕ) → ℕ → List ℕ → ℕ → ℕ
printed str size cs x =
    let end = min (length cs) (size - 1) in
    if ltb x end then get_or cs x 0 else (if x == end then 0 else str x)

-- Where the arguments fit the format and the text has fewer than 2 ^ 32 characters, `vsnprintf`
-- ends and returns the length of the whole text as an `int`, so a negative number from 2 ^ 31 on. It writes to the `size > 0` bytes of the buffer
-- alone: the text, cut off to leave room, and a terminator behind it.
pub vsnprintf-printed :
    (str : ℕ → ℕ) (size : ℕ) (format : List ℕ) (args : List Arg) (cs : List ℕ)
    → 0 < size
    → rendered (suc (length format)) format args ≡ some cs
    → length cs < u32
    → (m : ℕ → ℕ) × (vsnprintf str size format args ≡ some (to_int (length cs), m))
      × ((x : ℕ) → m x ≡ printed str size cs x)
unfolding vsnprintf terminate
vsnprintf-printed str size format args cs big text short =
    let start : Out = record { str = str; pos = 0 } in
    let o : Out = put_chars size cs start in
    let nonzero : (size == 0) ≡ false = ground arith in
    let ran = print_loop-rendered size (suc (length format)) format args start cs text in
    let end : o.pos ≡ length cs = put_chars-pos size cs start (omega arith) ∙ omega arith in
    (
      (terminate size o).str,
      rw (nonzero, ran, end) refl,
      λ x. last_place x o end (put_chars-str size cs start x (omega arith)),
    )
  where
    last_place :
        (x : ℕ) (o : Out)
        → o.pos ≡ length cs
        → o.str x ≡ (
            if leb 0 x && ltb x (min (0 + length cs) (size - 1))
            then get_or cs (x - 0) 0
            else str x)
        → (terminate size o).str x ≡ printed str size cs x
    last_place x o end h =
        let last : ℕ = min (length cs) (size - 1) in
        let place : (if ltb o.pos size then o.pos else size - 1) ≡ last =
          ground (arith, end, big) in
        let whole : x - 0 ≡ x = omega arith in
        elim (Bool-cases (ltb x last)) [
          | inl y ↦
              let inside : (leb 0 x && ltb x (min (0 + length cs) (size - 1))) ≡ true =
                ground arith in
              let before : (x == last) ≡ false = ground arith in
              let held : o.str x ≡ get_or cs x 0 = h ∙ rw (inside, whole) refl in
              rw (place, before, y) held
          | inr n ↦
              let outside : (leb 0 x && ltb x (min (0 + length cs) (size - 1))) ≡ false =
                ground arith in
              let held : o.str x ≡ str x = h ∙ rw outside refl in rw (place, n, held) refl
        ]
