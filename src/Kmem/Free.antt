-- ===== src/Kmem/Free.antt =====
-- `kfree` of src/kernel/utils/kmem.c against release on the list of blocks.
use os1_meaty_skeleton.Prelude.{
  ℕ, ◌+◌, ◌-◌, ◌%◌, ◌≤◌, ◌<◌, ◌≡◌, ◌≢◌, ◌⊎◌, refl, ap, sym, subst, ◌∙◌, true, false, List, [], ◌∷◌,
  ◌++◌, arith,
}
use os1_meaty_skeleton.Kmem.{
  Header, Mem, u32, heap_size, update, merge_next, merge_prev, free_block, kfree,
}
use os1_meaty_skeleton.Kmem.Blocks.{Block, block, release, merge_left, merge_right, span}
use os1_meaty_skeleton.Kmem.RoundTrip.{span-merge_right, span-release}
use os1_meaty_skeleton.Kmem.Tiles.{
  Tiles, entry, header_of, IsPlaced, IsHeap, Tiles-frame, span-append, header_at,
}
use os1_meaty_skeleton.Kmem.Merge.{Below, merge_next-Tiles, merge_prev-Tiles}

merge_right-ne-nil : (b : Block) (ys : List Block) → merge_right b ys ≢ []
merge_right-ne-nil b [] = λ e. cc
merge_right-ne-nil b (c ∷ cs) = ground arith

merge_left-ne-nil : (b : Block) (ys : List Block) → merge_left b ys ≢ []
merge_left-ne-nil b [] = λ e. cc
merge_left-ne-nil b (c ∷ cs) = ground arith

release-ne-nil :
    (c : Block) (xs : List Block) (b : Block) (ys : List Block) → release (c ∷ xs) b ys ≢ []
unfolding release
release-ne-nil c [] b ys = merge_left-ne-nil c (merge_right (block b.size true) ys)
release-ne-nil c (d ∷ xs) b ys = λ e. cc

entry_of_ne_nil : (a : ℕ) (l : List Block) → l ≢ [] → entry a l ≡ a
entry_of_ne_nil a [] ne = absurd (ne refl)
entry_of_ne_nil a (b ∷ l) ne = refl

merge_prev-list :
    (m : Mem) (prev a : ℕ) (b : Block) (l : List Block)
    → l ≢ []
    → 0 < a
    → a + 16 + b.size + span l < u32
    → Tiles m prev a (b ∷ l)
    → Tiles (merge_prev m (a + 16 + b.size)) prev a (merge_left b l)
      × Below m (merge_prev m (a + 16 + b.size)) a
merge_prev-list m prev a b [] ne pos fits t = absurd (ne refl)
merge_prev-list m prev a b (r ∷ rs) ne pos fits t =
    merge_prev-Tiles m prev a b r rs pos (omega arith) t

merge_prev-null : (m : Mem) (a : ℕ) → (m a).prev ≡ 0 → merge_prev m a ≡ m
unfolding merge_prev
merge_prev-null m a e = rw e

abbrev freed : Block → Block
freed b = block b.size true

-- `block->free = 1` and the merge with the next block.
abbrev freed_next : Mem → ℕ → Mem
freed_next m a = merge_next (update m a λ h. record h { free = true }) a

freed_next-Tiles :
    (m : Mem) (prev a : ℕ) (b : Block) (ys : List Block)
    → 0 < a
    → a + 16 + b.size + span ys < u32
    → Tiles m prev a (b ∷ ys)
    → Tiles (freed_next m a) prev a (merge_right (freed b) ys) × Below m (freed_next m a) a
freed_next-Tiles m prev a b ys pos fits t =
    let m1 = update m a λ h. record h { free = true } in
    let marked : Tiles m1 prev a (freed b ∷ ys) =
      (ground (arith, t.0), Tiles-frame m m1 a (a + 16 + b.size) ys (λ x h. ground arith) t.1) in
    let (ts, below) = merge_next-Tiles m1 prev a (freed b) ys pos fits marked in
    (ts, λ x h. below x h ∙ ground arith)

free_block-second :
    (m : Mem) (prev a : ℕ) (c b : Block) (ys : List Block)
    → 0 < a
    → a + 16 + c.size + 16 + b.size + span ys < u32
    → Tiles m prev a (c ∷ b ∷ ys)
    → Tiles (free_block m (a + 16 + c.size)) prev a (merge_left c (merge_right (freed b) ys))
      × Below m (free_block m (a + 16 + c.size)) a
unfolding free_block
free_block-second m prev a c b ys pos fits t =
    let mid : ℕ = a + 16 + c.size in
    let rest : List Block = merge_right (freed b) ys in
    let ne : rest ≢ [] = merge_right-ne-nil (freed b) ys in
    let (ts, below) = freed_next-Tiles m a mid b ys (omega arith) (omega arith) t.1 in
    let head : freed_next m mid a ≡ header_of c (entry mid rest) prev =
      below a (omega arith)
      ∙ t.0
      ∙ ap (λ k. header_of c k prev) (sym (entry_of_ne_nil mid rest ne)) in
    let (done, same) =
      merge_prev-list (freed_next m mid) prev a c rest ne pos
        (omega (arith, span-merge_right (freed b) ys)) (head, ts) in
    (done, λ x h. same x h ∙ below x (omega arith))

-- Freeing a block that is not the first of the chain.
free_block-inner :
    (m : Mem) (prev a at : ℕ) (c : Block) (xs : List Block) (b : Block) (ys : List Block)
    → at ≡ a + span (c ∷ xs)
    → 0 < a
    → a + span (c ∷ xs ++ b ∷ ys) < u32
    → Tiles m prev a (c ∷ xs ++ b ∷ ys)
    → Tiles (free_block m at) prev a (release (c ∷ xs) b ys) × Below m (free_block m at) a
unfolding release
free_block-inner m prev a at c [] b ys e pos fits t =
    let e' : at ≡ a + 16 + c.size = omega arith in
    rw e' (free_block-second m prev a c b ys pos (omega arith) t)
free_block-inner m prev a at c (d ∷ xs) b ys e pos fits t =
    let mid : ℕ = a + 16 + c.size in
    let (ts, below) =
      free_block-inner m a mid at d xs b ys (omega arith) (omega arith) (omega arith) t.1 in
    let ne = release-ne-nil d xs b ys in
    (
      (
        below a (omega arith)
            ∙ t.0
            ∙ ap (λ k. header_of c k prev) (sym (entry_of_ne_nil mid (release (d ∷ xs) b ys) ne)),
        ts,
      ),
      λ x h. below x (omega arith),
    )

-- Freeing the first block of the chain.
free_block-first :
    (m : Mem) (a : ℕ) (b : Block) (ys : List Block)
    → 0 < a
    → a + 16 + b.size + span ys < u32
    → Tiles m 0 a (b ∷ ys)
    → Tiles (free_block m a) 0 a (release [] b ys)
unfolding release free_block
free_block-first m a b ys pos fits t =
    let ts = (freed_next-Tiles m 0 a b ys pos fits t).0 in
    subst (λ k. Tiles k 0 a (merge_right (freed b) ys))
      (sym
        (no_prev (freed_next m a) (merge_right (freed b) ys) ts (merge_right-ne-nil (freed b) ys)))
      ts
  where
    no_prev : (k : Mem) (l : List Block) → Tiles k 0 a l → l ≢ [] → merge_prev k a ≡ k
    no_prev k [] us ne = absurd (ne refl)
    no_prev k (r ∷ rs) us ne = merge_prev-null k a (ap (λ (h : Header). h.prev) us.0)

-- Past its guards `kfree` is `free_block`.
kfree-free_block :
    {heap : ℕ} (m : Mem) (at : ℕ)
    → IsPlaced heap
    → heap ≤ at
    → at < heap + heap_size
    → (m at).free ≡ false
    → kfree heap m (at + 16) ≡ free_block m at
unfolding kfree
kfree-free_block {heap} m at p lo hi f =
    let e : (at + 16 + u32 - 16) % u32 ≡ at = omega arith in rw (e, f) (ground arith)

free_block-Tiles :
    (m : Mem) (a : ℕ) (xs : List Block) (b : Block) (ys : List Block)
    → 0 < a
    → a + span (xs ++ b ∷ ys) < u32
    → Tiles m 0 a (xs ++ b ∷ ys)
    → Tiles (free_block m (a + span xs)) 0 a (release xs b ys)
free_block-Tiles m a [] b ys pos fits t =
    let e : a + 0 ≡ a = omega arith in rw e (free_block-first m a b ys pos (omega arith) t)
free_block-Tiles m a (c ∷ xs) b ys pos fits t =
    (free_block-inner m 0 a (a + span (c ∷ xs)) c xs b ys refl pos fits t).0

-- `kfree` of the address of a block in use releases that block in the list of blocks, merging it
-- with its free neighbours, and the heap stays well formed.
pub kfree-release :
    {heap : ℕ} {m : Mem} (xs : List Block) (b : Block) (ys : List Block)
    → IsHeap heap m (xs ++ b ∷ ys)
    → b.free ≡ false
    → IsHeap heap (kfree heap m (heap + span xs + 16)) (release xs b ys)
kfree-release {heap} {m} xs b ys v u =
    let size : span xs + (16 + b.size + span ys) ≡ heap_size =
      omega (arith, span-append xs (b ∷ ys), v.full) in
    let live = (header_at m 0 heap xs b ys v.tiles).0 ∙ u in
    rw (kfree-free_block m (heap + span xs) v.placed (omega arith) (omega arith) live) (record {
      placed = v.placed;
      tiles = free_block-Tiles m heap xs b ys v.placed.not_null (omega (arith, v.full)) v.tiles;
      full = span-release xs b ys ∙ v.full;
    })

-- Every other call of `kfree` leaves the heap as it is: a null pointer, a pointer whose header
-- would lie outside the array, and a block that is free already.
pub kfree_ignores :
    {heap : ℕ} (m : Mem) (ptr : ℕ)
    → let at = (ptr + u32 - 16) % u32 in
      (ptr ≡ 0) ⊎ ((at < heap) ⊎ ((heap + heap_size ≤ at) ⊎ ((m at).free ≡ true)))
      → kfree heap m ptr ≡ m
unfolding kfree
kfree_ignores m ptr h = ground arith
