-- ===== src/Scanf/Ends.antt =====
-- The loop of `kscanf` in src/libc/stdio/scanf.c ends.
use os1_meaty_skeleton.Prelude.{
  ℕ, zero, suc, ◌+◌, ◌-◌, ◌*◌, ◌≤◌, ◌≢◌, refl, Bool, true, false, ◌==◌, List, [], ◌∷◌, length,
  Option, none, some, arith,
}
use os1_meaty_skeleton.Scanf.{
  isspace, skip_space, read_width, read_length, Converted, converted, stopped, convert, conversion,
  Assigned, add, scan, returned, kscanf,
}

length-read_width : (f : List ℕ) (width : ℕ) → length (read_width f width).1 ≤ length f
unfolding read_width
length-read_width [] width = omega arith
length-read_width (c ∷ cs) width = ground (arith, length-read_width cs (width * 10 + (c - 0x30)))

length-read_length : (f : List ℕ) → length (read_length f).1 ≤ length f
unfolding read_length
length-read_length [] = omega arith
length-read_length (c ∷ []) = ground arith
length-read_length (c ∷ d ∷ cs) = ground arith

-- A conversion takes something of the format.
length-conversion : (f input : List ℕ) → length (conversion f input).1 ≤ length f
unfolding conversion
length-conversion f input =
    go (read_length (read_width f 0).1).1
      (omega (arith, length-read_width f 0, length-read_length (read_width f 0).1))
  where
    go :
        (g : List ℕ)
        → length g ≤ length f
        → length
            (elim g as (λ l. Converted × List ℕ) [
              | [] ↦ (stopped, [])
              | spec ∷ rest ↦ (
                convert spec
                    (read_width f 0).0
                    (read_length (read_width f 0).1).0
                    (skip_space input),
                rest,
              )
            ]).1
          ≤ length f
    go [] h = omega arith
    go (spec ∷ rest) h = omega arith

scan-ne-none :
    (fuel : ℕ) (f input : List ℕ) (a : Assigned) → length f ≤ fuel → scan fuel f input a ≢ none
unfolding scan
scan-ne-none fuel [] input a h = λ e. cc
scan-ne-none fuel (c ∷ cs) [] a h = λ e. cc
scan-ne-none zero (c ∷ cs) (x ∷ xs) a h = absurd (omega arith)
scan-ne-none (suc fuel) (c ∷ cs) (x ∷ xs) a h =
    go (isspace c) (c == 0x25) (x == c) (conversion cs (x ∷ xs)) (length-conversion cs (x ∷ xs))
      (λ f input b k. scan-ne-none fuel f input b k)
  where
    go :
        (space percent same : Bool) (r : Converted × List ℕ)
        → length r.1 ≤ length cs
        → ((f input : List ℕ) (b : Assigned) → length f ≤ fuel → scan fuel f input b ≢ none)
        → elim space as (λ _. Option Assigned) [
          | true ↦ scan fuel cs (skip_space (x ∷ xs)) a
          | false ↦ elim percent as (λ _. Option Assigned) [
            | false ↦ elim same as (λ _. Option Assigned) [
              | true ↦ scan fuel cs xs a
              | false ↦ some a
            ]
            | true ↦ elim r.0 as (λ _. Option Assigned) [
              | stopped ↦ some a
              | converted n vs left ↦ scan fuel r.1 left (add a n vs)
            ]
          ]
        ]
          ≢ none
    go true percent same r k ih = ih cs (skip_space (x ∷ xs)) a (omega arith)
    go false false true r k ih = ih cs xs a (omega arith)
    go false false false r k ih = λ e. cc
    go false true same (stopped, rest) k ih = λ e. cc
    go false true same (converted n vs left, rest) k ih = ih rest left (add a n vs) (omega arith)

returned-ne-none : (r : Option Assigned) → r ≢ none → returned r ≢ none
returned-ne-none none h = absurd (h refl)
returned-ne-none (some (n, vs)) h = λ e. cc

-- `kscanf` ends on every format and every line.
pub kscanf-ne-none : (f input : List ℕ) → kscanf f input ≢ none
unfolding kscanf
kscanf-ne-none f [] = λ e. cc
kscanf-ne-none f (c ∷ cs) =
    returned-ne-none (scan (length f) f (c ∷ cs) (0, []))
      (scan-ne-none (length f) f (c ∷ cs) (0, []) (omega arith))
