-- ===== src/Snprintf/Fields.antt =====
-- How the helpers of `vsnprintf` in src/libc/string/snprintf.c write a text into the buffer.
use os1_meaty_skeleton.Prelude.{
  ℕ, zero, suc, ◌+◌, ◌-◌, ◌%◌, ◌≤◌, ◌<◌, ◌≡◌, refl, ap, ◌∙◌, sym, Bool, true, false, ◌&&◌, List, [],
  ◌∷◌, ◌++◌, arith, min, length, length-append, length-replicate, take, replicate, get_or, ltb, leb,
  ◌==◌, if◌then◌else◌, Bool-cases, inl, inr,
}
use os1_meaty_skeleton.Snprintf.{FormatSpec, u32, unspecified}
use os1_meaty_skeleton.Snprintf.Number.{
  Out, put_char, put_pad, put_chars, string_len, pad_char, put_string, number_text, precision_of,
  put_padded, put_number,
}
use os1_meaty_skeleton.Snprintf.Print.{text_item, number_item}
use os1_meaty_skeleton.Snprintf.Text.{
  in_field, item_text, pick_room, pick_full, take-length-take, string_len-min, length-cut,
}

module _ (size : ℕ) where
  pub put_chars-append :
      (cs ds : List ℕ) (o : Out)
      → put_chars size (cs ++ ds) o ≡ put_chars size ds (put_chars size cs o)
  unfolding put_chars
  put_chars-append [] ds o = refl
  put_chars-append (c ∷ cs) ds o = put_chars-append cs ds (put_char size c o)

  pub put_pad-replicate :
      (n c : ℕ) (o : Out) → put_pad size n c o ≡ put_chars size (replicate n c) o
  unfolding put_pad put_chars
  put_pad-replicate zero c o = refl
  put_pad-replicate (suc n) c o = put_pad-replicate n c (put_char size c o)

  -- Where the next character goes, and what the buffer holds after some have been put.
  pub put_chars-pos :
      (cs : List ℕ) (o : Out)
      → o.pos + length cs < u32
      → (put_chars size cs o).pos ≡ o.pos + length cs
  unfolding put_chars put_char
  put_chars-pos [] o lt = omega arith
  put_chars-pos (c ∷ cs) o lt =
      let next : (o.pos + 1) % u32 ≡ o.pos + 1 = omega (arith, lt) in
      let ih = put_chars-pos cs (put_char size c o) (omega (arith, lt, next)) in
      ih ∙ omega (arith, next)

  pub put_chars-str :
      (cs : List ℕ) (o : Out) (x : ℕ)
      → o.pos + length cs < u32
      → (put_chars size cs o).str x ≡ (
          if leb o.pos x && ltb x (min (o.pos + length cs) (size - 1))
          then get_or cs (x - o.pos) 0
          else o.str x)
  unfolding put_chars put_char
  put_chars-str [] o x lt =
      let outside : (leb o.pos x && ltb x (min (o.pos + 0) (size - 1))) ≡ false = ground arith in
      rw outside refl
  put_chars-str (c ∷ cs) o x lt =
      let next : (o.pos + 1) % u32 ≡ o.pos + 1 = omega (arith, lt) in
      let ih = put_chars-str cs (put_char size c o) x (omega (arith, lt)) in
      elim (Bool-cases (ltb o.pos (size - 1))) [
        | inl room ↦
            let lt' : o.pos < size - 1 = ground arith in
            let after = pick_room o.pos x (size - 1) (length cs) (o.str x) c cs lt' in
            ih ∙ rw (next, room) after
        | inr full ↦
            let le : size - 1 ≤ o.pos = ground arith in
            let after = pick_full o.pos x (size - 1) (length cs) (o.str x) c cs le in
            ih ∙ rw (next, full) after
      ]

  -- What `put_string` and `put_number` share: the padding before or behind a text.
  pub field-put_chars :
      (left : Bool) (pad c : ℕ) (text : List ℕ) (o : Out)
      → (let before = if left then o else put_pad size pad c o in
          let middle = put_chars size text before in
          if left then put_pad size pad b' ' middle else middle)
        ≡ put_chars size (if left then text ++ replicate pad b' ' else replicate pad c ++ text) o
  field-put_chars true pad c text o =
      put_pad-replicate pad b' ' (put_chars size text o)
      ∙ sym (put_chars-append text (replicate pad b' ') o)
  field-put_chars false pad c text o =
      ap (put_chars size text) (put_pad-replicate pad c o)
      ∙ sym (put_chars-append (replicate pad c) text o)

  pub put_string-in_field :
      (s : List ℕ) (spec : FormatSpec) (o : Out)
      → put_string size s spec o ≡ put_chars size (item_text spec (text_item s)) o
  unfolding put_string
  put_string-in_field s spec o =
      let cut : ℕ = if spec.precision == unspecified then length s else spec.precision in
      let e : string_len spec.precision s 0 ≡ length (take cut s) =
        string_len-min spec.precision s 0 ∙ sym (length-cut spec.precision s) in
      let taken : take (length (take cut s)) s ≡ take cut s = take-length-take cut s in
      rw (e, taken)
        (field-put_chars spec.left_align (spec.width - length (take cut s)) (pad_char spec)
          (take cut s) o)

  pub zeros-put_chars :
      (zeros : ℕ) (text : List ℕ) (o : Out)
      → put_chars size text (put_pad size zeros b'0' o)
        ≡ put_chars size (replicate zeros b'0' ++ text) o
  zeros-put_chars zeros text o =
      ap (put_chars size text) (put_pad-replicate zeros b'0' o)
      ∙ sym (put_chars-append (replicate zeros b'0') text o)

  pub padded-put_chars :
      (left : Bool) (pad c zeros : ℕ) (text : List ℕ) (o : Out)
      → (let before = if left then o else put_pad size pad c o in
          let number = put_chars size text (put_pad size zeros b'0' before) in
          if left then put_pad size pad b' ' number else number)
        ≡ put_chars size
            (if left
              then (replicate zeros b'0' ++ text) ++ replicate pad b' '
              else replicate pad c ++ (replicate zeros b'0' ++ text))
            o
  padded-put_chars true pad c zeros text o =
      ap (put_pad size pad b' ') (zeros-put_chars zeros text o)
      ∙ field-put_chars true pad c (replicate zeros b'0' ++ text) o
  padded-put_chars false pad c zeros text o =
      zeros-put_chars zeros text (put_pad size pad c o)
      ∙ field-put_chars false pad c (replicate zeros b'0' ++ text) o

  pub put_padded-in_field :
      (text : List ℕ) (spec : FormatSpec) (o : Out)
      → put_padded size text spec o
        ≡ put_chars size
            (in_field spec (replicate (precision_of spec - length text) b'0' ++ text))
            o
  unfolding put_padded
  put_padded-in_field text spec o =
      let zeros : ℕ = precision_of spec - length text in
      let e : spec.width - (length text + zeros)
          ≡ spec.width - length (replicate zeros b'0' ++ text) =
        omega
          (arith, length-append (replicate zeros b'0') text, length-replicate {A = ℕ} zeros b'0') in
      padded-put_chars spec.left_align (spec.width - (length text + zeros)) (pad_char spec) zeros
        text o
      ∙ ap
          (λ pad.
            put_chars size
              (if spec.left_align
                then (replicate zeros b'0' ++ text) ++ replicate pad b' '
                else replicate pad (pad_char spec) ++ (replicate zeros b'0' ++ text))
              o)
          e

  pub put_number-in_field :
      (n : ℕ) (is_signed : Bool) (spec : FormatSpec) (o : Out)
      → put_number size n is_signed spec o
        ≡ put_chars size (item_text spec (number_item n is_signed)) o
  unfolding put_number
  put_number-in_field n is_signed spec o = put_padded-in_field (number_text n is_signed spec) spec o
