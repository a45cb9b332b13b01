-- ===== src/Kmem/Carve.antt =====
-- How a block that `kmalloc` of src/kernel/utils/kmem.c takes is split.
use os1_meaty_skeleton.Prelude.{
  ℕ, ◌+◌, ◌-◌, ◌≤◌, ◌<◌, ◌≡◌, refl, ap, ◌∙◌, true, false, not, ◌&&◌, inl, inr, List, [], ◌∷◌, ◌++◌,
  arith, ◌==◌, if◌then◌else◌, ◌%◌, ◌⊎◌, leb, Bool-cases,
}
use os1_meaty_skeleton.Kmem.{Mem, u32, set_prev, split, take_block}
use os1_meaty_skeleton.Kmem.Blocks.{Block, block, Found, carve, span}
use os1_meaty_skeleton.Kmem.Tiles.{Tiles, entry, Tiles-frame}

abbrev pub blocks_of : Found → List Block
blocks_of (xs, b, ys) = xs ++ b ∷ ys

abbrev pub offset_of : Found → ℕ
offset_of (xs, b, ys) = span xs

abbrev pub Below : Mem → Mem → ℕ → Type 0
Below m m' a = (x : ℕ) → x < a → m' x ≡ m x

-- The memory after a split whose arithmetic does not wrap.
abbrev pub carved : Mem → ℕ → ℕ → ℕ → ℕ → ℕ → Mem
carved m a n new rest next x =
    if x == a
    then record { size = n; free = false; next = new; prev = (m a).prev }
    else (if not (next == 0) && (x == next)
        then set_prev new (m x)
        else (if x == new then record { size = rest; free = true; next = next; prev = a } else m x))

module _ (m : Mem) (a n new rest next : ℕ) where
  pub take_block-carved :
      leb ((n + 16 + 16) % u32) (m a).size ≡ true
      → (a + 16 + n) % u32 ≡ new
      → ((m a).size + u32 + u32 - n - 16) % u32 ≡ rest
      → (m a).next ≡ next
      → a < new
      → (next ≡ 0) ⊎ (new < next)
      → (x : ℕ) → take_block m a n x ≡ carved m a n new rest next x
  unfolding take_block split
  take_block-carved h1 h2 h3 h4 lt far x = rw (h1, h2, h3, h4) (ground arith)

  pub carved-at_next :
      (x : ℕ) → next ≡ x → a < x → carved m a n new rest next x ≡ set_prev new (m x)
  carved-at_next x e lt = ground arith

  -- The chain after a split.
  pub carved-Tiles :
      (m' : Mem) (prev : ℕ) (b : Block) (bs : List Block)
      → ((x : ℕ) → m' x ≡ carved m a n new rest next x)
      → 0 < a
      → new ≡ a + 16 + n
      → new + 16 + rest ≡ a + 16 + b.size
      → next ≡ entry (a + 16 + b.size) bs
      → Tiles m prev a (b ∷ bs)
      → Tiles m' prev a (block n false ∷ block rest true ∷ bs)
  carved-Tiles m' prev b [] is pos en er ee t =
      rw (← en) (ground (arith, is a), (ground (arith, is new), tt))
  carved-Tiles m' prev b (c ∷ cs) is pos en er ee t =
      rw (← en, er)
        (
          ground (arith, is a),
          (
            ground (arith, is new),
            (
              is (a + 16 + b.size)
                  ∙ carved-at_next (a + 16 + b.size) ee (omega arith)
                  ∙ ap (set_prev new) t.1.0,
              Tiles-frame m m' (a + 16 + b.size) (a + 16 + b.size + 16 + c.size) cs
                  (λ x h. ground (arith, is x)) t.1.1,
            ),
          ),
        )

  pub carved-Below :
      (m' : Mem) (b : Block) (bs : List Block)
      → ((x : ℕ) → m' x ≡ carved m a n new rest next x)
      → a < new
      → next ≡ entry (a + 16 + b.size) bs
      → Below m m' a
  carved-Below m' b [] is lt ee x h = ground (arith, is x)
  carved-Below m' b (c ∷ cs) is lt ee x h = ground (arith, is x)

-- Taking the block at `a` carves it in memory as it is carved in the list.
module _ (m : Mem) (prev a n : ℕ) (b : Block) (bs : List Block) where
  pub take_split :
      0 < a
      → a + 16 + b.size + 16 ≤ u32
      → n + 32 ≤ b.size
      → Tiles m prev a (b ∷ bs)
      → Tiles (take_block m a n) prev a (block n false ∷ block (b.size - n - 16) true ∷ bs)
        × Below m (take_block m a n) a
  take_split pos fits large t =
      let new : ℕ = a + 16 + n in
      let rest : ℕ = b.size - n - 16 in
      let next : ℕ = entry (a + 16 + b.size) bs in
      let is =
        take_block-carved m a n new rest next (rw t.0 (ground arith)) (omega arith)
          (rw t.0 (omega arith)) (rw t.0 refl) (omega arith) (far bs) in
      (
        carved-Tiles m a n new rest next (take_block m a n) prev b bs is pos refl (omega arith) refl
            t,
        carved-Below m a n new rest next (take_block m a n) b bs is (omega arith) refl,
      )
    where
      far :
          (cs : List Block)
          → (entry (a + 16 + b.size) cs ≡ 0) ⊎ (a + 16 + n < entry (a + 16 + b.size) cs)
      far [] = inl refl
      far (c ∷ cs) = inr (omega arith)

  pub take_whole :
      b.size < n + 32
      → n + 32 < u32
      → Tiles m prev a (b ∷ bs)
      → Tiles (take_block m a n) prev a (block b.size false ∷ bs) × Below m (take_block m a n) a
  unfolding take_block
  take_whole small fits t =
      let whole : leb ((n + 16 + 16) % u32) (m a).size ≡ false = rw t.0 (ground arith) in
      rw whole (
        (
          ground (arith, t.0),
          Tiles-frame m (take_block m a n) a (a + 16 + b.size) bs (λ x h. rw whole (ground arith))
              t.1,
        ),
        ground arith,
      )

  pub take_block-Tiles :
      0 < a
      → a + 16 + b.size + 16 ≤ u32
      → n ≤ b.size
      → Tiles m prev a (b ∷ bs)
      → Tiles (take_block m a n) prev a (blocks_of (carve n b bs)) × Below m (take_block m a n) a
  take_block-Tiles pos fits large t = elim (Bool-cases (leb (n + 32) b.size)) [
    | inl big ↦ rw big (take_split pos fits (ground arith) t)
    | inr small ↦ rw small (take_whole (ground arith) (omega arith) t)
  ]
