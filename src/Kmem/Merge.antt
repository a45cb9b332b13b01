-- ===== src/Kmem/Merge.antt =====
-- How a block that `kfree` of src/kernel/utils/kmem.c frees takes in its neighbours.
use os1_meaty_skeleton.Prelude.{
  ℕ, ◌+◌, ◌%◌, ◌<◌, ◌≡◌, ◌≢◌, ◌⊎◌, refl, ap, sym, subst, ◌∙◌, true, false, not, ◌&&◌, inl, inr,
  List, [], ◌∷◌, arith, ◌==◌, if◌then◌else◌, Bool-cases,
}
use os1_meaty_skeleton.Kmem.{Mem, u32, set_prev, merge_next, merge_prev}
use os1_meaty_skeleton.Kmem.Blocks.{
  Block, block, merge_left, merge_right, span, used_head, merge_right-used, merge_right-free,
  merge_left-used, merge_left-free,
}
use os1_meaty_skeleton.Kmem.Tiles.{Tiles, entry, Tiles-frame}

abbrev pub Below : Mem → Mem → ℕ → Type 0
Below m m' a = (x : ℕ) → x < a → m' x ≡ m x

-- The memory after the block at `a` has taken in the block at `b`, which is followed by `after`.
abbrev pub joined : Mem → ℕ → ℕ → ℕ → Mem
joined m a after n x =
    if not (after == 0) && (x == after)
    then set_prev a (m x)
    else (if x == a then record (m x) { size = n; next = after } else m x)

pub joined-at_after :
    (m : Mem) (a after n x : ℕ) → after ≡ x → 0 < x → joined m a after n x ≡ set_prev a (m x)
joined-at_after m a after n x e pos = ground arith

pub joined-Tiles :
    (m m' : Mem) (prev a after n : ℕ) (b c : Block) (cs : List Block)
    → ((x : ℕ) → m' x ≡ joined m a after n x)
    → 0 < a
    → n ≡ b.size + c.size + 16
    → after ≡ entry (a + 16 + b.size + 16 + c.size) cs
    → Tiles m prev a (b ∷ c ∷ cs)
    → Tiles m' prev a (block n b.free ∷ cs) × Below m m' a
joined-Tiles m m' prev a after n b c [] is pos en ee t =
    ((ground (arith, is a), tt), λ x h. ground (arith, is x))
joined-Tiles m m' prev a after n b c (d ∷ ds) is pos en ee t =
    let far : ℕ = a + 16 + b.size + 16 + c.size in
    let e : a + 16 + n ≡ a + 16 + b.size + 16 + c.size = omega arith in
    (
      rw e (
        ground (arith, is a),
        (
          is far ∙ joined-at_after m a after n far ee (omega arith) ∙ ap (set_prev a) t.1.1.0,
          Tiles-frame m m' far (far + 16 + d.size) ds (λ x h. ground (arith, is x)) t.1.1.1,
        ),
      ),
      λ x h. ground (arith, is x),
    )

pub merge_next-joined :
    (m : Mem) (a next n : ℕ)
    → (m a).next ≡ next
    → 0 < next
    → next ≢ a
    → (m next).free ≡ true
    → ((m a).size + (m next).size + 16) % u32 ≡ n
    → ((m next).next ≡ 0) ⊎ (a < (m next).next)
    → (x : ℕ) → merge_next m a x ≡ joined m a (m next).next n x
unfolding merge_next
merge_next-joined m a next n e1 pos ne e2 e3 far x = rw (e1, e2, e3) (ground arith)

pub merge_prev-joined :
    (m : Mem) (before b n : ℕ)
    → (m b).prev ≡ before
    → 0 < before
    → b ≢ before
    → (m before).free ≡ true
    → ((m before).size + (m b).size + 16) % u32 ≡ n
    → ((m b).next ≡ 0) ⊎ (before < (m b).next)
    → (x : ℕ) → merge_prev m b x ≡ joined m before (m b).next n x
unfolding merge_prev
merge_prev-joined m before b n e1 pos ne e2 e3 far x = ground arith

pub entry_far : (a c : ℕ) (cs : List Block) → a < c → (entry c cs ≡ 0) ⊎ (a < entry c cs)
entry_far a c [] h = inl refl
entry_far a c (d ∷ ds) h = inr h

module _ (m : Mem) (prev a : ℕ) (b : Block) where
  pub merge_next-free :
      (c : Block) (cs : List Block)
      → 0 < a
      → a + 16 + b.size + 16 + c.size < u32
      → c.free ≡ true
      → Tiles m prev a (b ∷ c ∷ cs)
      → Tiles (merge_next m a) prev a (block (b.size + c.size + 16) b.free ∷ cs)
        × Below m (merge_next m a) a
  merge_next-free c cs pos fits f t =
      let next : ℕ = a + 16 + b.size in
      let far = entry_far a (next + 16 + c.size) cs (omega arith) in
      joined-Tiles m (merge_next m a) prev a (m next).next (b.size + c.size + 16) b c cs
        (merge_next-joined m a next (b.size + c.size + 16) (rw t.0 refl) (omega arith) (omega arith)
          (rw t.1.0 f) (rw (t.0, t.1.0) (omega arith)) (rw t.1.0 far))
        pos refl (rw t.1.0 refl) t

  pub merge_next-used :
      (ys : List Block) → (used_head ys ≡ true) → Tiles m prev a (b ∷ ys) → merge_next m a ≡ m
  unfolding merge_next
  merge_next-used [] u t = rw t.0 refl
  merge_next-used (c ∷ cs) u t = rw (t.0, t.1.0) (ground arith)

  -- "Merge with next block if free"
  pub merge_next-Tiles :
      (ys : List Block)
      → 0 < a
      → a + 16 + b.size + span ys < u32
      → Tiles m prev a (b ∷ ys)
      → Tiles (merge_next m a) prev a (merge_right b ys) × Below m (merge_next m a) a
  merge_next-Tiles [] pos fits t = rw (merge_next-used [] refl t) (t, λ x h. refl)
  merge_next-Tiles (c ∷ cs) pos fits t = elim (Bool-cases c.free) [
    | inl f ↦
        let (ts, below) = merge_next-free c cs pos (omega arith) f t in
        (subst (Tiles (merge_next m a) prev a) (sym (merge_right-free b c cs f)) ts, below)
    | inr u ↦
        rw (merge_next-used (c ∷ cs) (ground arith) t)
          (subst (Tiles m prev a) (sym (merge_right-used b (c ∷ cs) (ground arith))) t, λ x h. refl)
  ]

  pub merge_prev-used :
      (r : Block) (rs : List Block)
      → b.free ≡ false
      → Tiles m prev a (b ∷ r ∷ rs)
      → merge_prev m (a + 16 + b.size) ≡ m
  unfolding merge_prev
  merge_prev-used r rs u t = rw (t.1.0, t.0, u) (ground arith)

  pub merge_prev-free :
      (r : Block) (rs : List Block)
      → 0 < a
      → a + 16 + b.size + 16 + r.size < u32
      → b.free ≡ true
      → Tiles m prev a (b ∷ r ∷ rs)
      → Tiles (merge_prev m (a + 16 + b.size)) prev a (block (b.size + r.size + 16) b.free ∷ rs)
        × Below m (merge_prev m (a + 16 + b.size)) a
  merge_prev-free r rs pos fits f t =
      let mid : ℕ = a + 16 + b.size in
      let far = entry_far a (mid + 16 + r.size) rs (omega arith) in
      joined-Tiles m (merge_prev m mid) prev a (m mid).next (b.size + r.size + 16) b r rs
        (merge_prev-joined m a mid (b.size + r.size + 16) (rw t.1.0 refl) pos (omega arith)
          (rw t.0 f) (rw (t.0, t.1.0) (omega arith)) (rw t.1.0 far))
        pos refl (rw t.1.0 refl) t

  -- "Merge with previous block if free", where the block at `a` stands before the freed one.
  pub merge_prev-Tiles :
      (r : Block) (rs : List Block)
      → 0 < a
      → a + 16 + b.size + 16 + r.size < u32
      → Tiles m prev a (b ∷ r ∷ rs)
      → Tiles (merge_prev m (a + 16 + b.size)) prev a (merge_left b (r ∷ rs))
        × Below m (merge_prev m (a + 16 + b.size)) a
  merge_prev-Tiles r rs pos fits t = elim (Bool-cases b.free) [
    | inl f ↦
        let (ts, below) = merge_prev-free r rs pos fits f t in
        (
          subst (Tiles (merge_prev m (a + 16 + b.size)) prev a) (sym (merge_left-free b r rs f)) ts,
          below,
        )
    | inr u ↦
        rw (merge_prev-used r rs u t)
          (subst (Tiles m prev a) (sym (merge_left-used b (r ∷ rs) u)) t, λ x h. refl)
  ]
