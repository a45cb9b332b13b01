-- ===== src/Kmem/Alloc.antt =====
-- `kmalloc` of src/kernel/utils/kmem.c against first fit on the list of blocks.
use os1_meaty_skeleton.Prelude.{
  ℕ, zero, suc, ◌+◌, ◌-◌, ◌≤◌, ◌<◌, ◌≡◌, refl, ap, ◌∙◌, subst, true, false, ◌&&◌, inl, inr, Option,
  none, some, List, [], ◌∷◌, ◌++◌, arith, length, ◌==◌, ◌%◌, ◌≢◌, leb, Bool-cases,
}
use os1_meaty_skeleton.Kmem.{
  Mem, u32, heap_size, take_block, in_heap, find_block, max_blocks, kmalloc, align_size, init_heap,
  Outcome, returned, hangs,
}
use os1_meaty_skeleton.Kmem.Blocks.{Block, block, Found, behind, carve, first_fit, span}
use os1_meaty_skeleton.Kmem.FirstFit.{ServedBy, first_fit-Served}
use os1_meaty_skeleton.Kmem.Tiles.{Tiles, entry, header_of, IsPlaced, IsHeap, length-le-span}
use os1_meaty_skeleton.Kmem.Carve.{blocks_of, offset_of, Below, take_block-Tiles}

-- What a search from `a` on returns, and what it leaves in memory.
abbrev pub Agrees : Mem → ℕ → ℕ → Option Found → Outcome → Type 0
Agrees m prev a none r = r ≡ hangs
Agrees m prev a (some f) r =
    (m' : Mem) × (r ≡ returned (a + offset_of f + 16) m')
    × Tiles m' prev a (blocks_of f)
    × Below m m' a

entry-append :
    (a n : ℕ) (bs xs : List Block) (c : Block) (ys : List Block)
    → first_fit n bs ≢ none
    → entry a bs ≡ entry a (xs ++ c ∷ ys)
unfolding first_fit
entry-append a n [] xs c ys found = absurd (found refl)
entry-append a n (b ∷ bs) [] c ys found = refl
entry-append a n (b ∷ bs) (x ∷ xs) c ys found = refl

Agrees-behind :
    (m : Mem) (prev a n : ℕ) (b : Block) (bs : List Block) (f : Option Found) (r : Outcome)
    → first_fit n bs ≡ f
    → m a ≡ header_of b (entry (a + 16 + b.size) bs) prev
    → Agrees m a (a + 16 + b.size) f r
    → Agrees m prev a (behind b f) r
Agrees-behind m prev a n b bs none r e h ag = ag
Agrees-behind m prev a n b bs (some (xs, c, ys)) r e h (m', er, ts, same) = (
  m',
  er ∙ ap (λ k. returned k m') (omega arith),
  (
    same a (omega arith)
        ∙ h
        ∙ ap (λ k. header_of b k prev) (entry-append (a + 16 + b.size) n bs xs c ys (rw e (cc))),
    ts,
  ),
  λ x lt. same x (omega arith),
)

pub offset-carve : (n : ℕ) (b : Block) (bs : List Block) → offset_of (carve n b bs) ≡ 0
offset-carve n b bs = ground arith

module _ {heap : ℕ} (n : ℕ) (ok : IsPlaced heap) where
  -- The loop finds what first fit finds.
  find_block-Agrees :
      (fuel : ℕ) (m : Mem) (prev a : ℕ) (bs : List Block)
      → heap ≤ a
      → a + span bs ≡ heap + heap_size
      → length bs < fuel
      → Tiles m prev a bs
      → Agrees m prev a (first_fit n bs) (find_block heap fuel m (entry a bs) n)
  unfolding find_block first_fit
  find_block-Agrees zero m prev a bs lo ends enough t = absurd (omega arith)
  find_block-Agrees (suc fuel) m prev a [] lo ends enough t = refl
  find_block-Agrees (suc fuel) m prev a (b ∷ bs) lo ends enough t =
      let inside : in_heap heap a ≡ true = ground arith in
      let ih =
        find_block-Agrees fuel m a (a + 16 + b.size) bs (omega arith) (omega arith) (omega arith)
          t.1 in
      elim (Bool-cases (b.free && leb n b.size)) [
        | inl fits ↦
            rw (inside, t.0, fits)
              (let took =
                  take_block-Tiles m prev a n b bs (omega arith) (omega arith) (ground arith) t in
                (
                  take_block m a n,
                  ap (λ k. returned k (take_block m a n)) (omega (arith, offset-carve n b bs)),
                  took.0,
                  took.1,
                ))
        | inr skip ↦
            rw (inside, t.0, skip) (Agrees-behind m prev a n b bs (first_fit n bs) _ refl t.0 ih)
      ]

-- What `kmalloc` does with a request, given what first fit finds.
abbrev pub Serves : ℕ → Option Found → Outcome → Type 0
Serves heap none r = r ≡ hangs
Serves heap (some f) r =
    (m' : Mem) × (r ≡ returned (heap + offset_of f + 16) m') × IsHeap heap m' (blocks_of f)

Serves-of-Agrees :
    {heap : ℕ} (m : Mem) (n : ℕ) (bs : List Block) (f : Option Found) (r : Outcome)
    → IsHeap heap m bs
    → ServedBy n bs f
    → Agrees m 0 heap f r
    → Serves heap f r
Serves-of-Agrees m n bs none r v s ag = ag
Serves-of-Agrees m n bs (some f) r v s (m', er, ts, below) =
    (m', er, record { placed = v.placed; tiles = ts; full = s.full ∙ v.full })

-- A request of `n > 0` bytes does what first fit does with the aligned size: the heap stays well
-- formed, the pointer is the payload of the block found, and the call hangs exactly when first
-- fit finds nothing. The loop always ends.
pub kmalloc-first_fit :
    {heap : ℕ} {m : Mem} (n : ℕ) (bs : List Block)
    → IsHeap heap m bs
    → 0 < n
    → Serves heap (first_fit (align_size n) bs) (kmalloc heap m n)
unfolding kmalloc
kmalloc-first_fit {heap} {m} n bs v pos =
    let positive : (n == 0) ≡ false = ground arith in
    let enough : length bs < suc (max_blocks heap) = omega (arith, length-le-span bs, v.full) in
    let start : entry heap bs ≡ heap = entry-full bs v.full in
    rw positive (
      Serves-of-Agrees m (align_size n) bs (first_fit (align_size n) bs) _ v
        (first_fit-Served (align_size n) bs)
        (subst
          (λ k.
            Agrees m 0 heap (first_fit (align_size n) bs)
              (find_block heap (suc (max_blocks heap)) m k (align_size n)))
          start
          (find_block-Agrees (align_size n) v.placed (suc (max_blocks heap)) m 0 heap bs
            (omega arith) (omega (arith, v.full)) enough v.tiles)))
  where
    entry-full : (bs : List Block) → span bs ≡ heap_size → entry heap bs ≡ heap
    entry-full [] e = absurd (omega arith)
    entry-full (b ∷ bs) e = refl

-- Alignment rounds up to a multiple of 16, for every request that leaves room for it in 32 bits.
pub align_size_lem :
    (n : ℕ) → n + 15 < u32 → (n ≤ align_size n) × (align_size n < n + 16) × (align_size n % 16 ≡ 0)
unfolding align_size
align_size_lem n h = (omega arith, omega arith, omega arith)

-- A larger request wraps round to zero bytes, so that any free block serves it.
pub align_size_wraps : (n : ℕ) → u32 ≤ n + 15 → n < u32 → align_size n ≡ 0
unfolding align_size
align_size_wraps n h k = omega arith

-- `init_heap` makes one free block of the whole array.
pub init_heap-IsHeap :
    {heap : ℕ} (m : Mem)
    → IsPlaced heap
    → IsHeap heap (init_heap heap m) (block (heap_size - 16) true ∷ [])
unfolding init_heap
init_heap-IsHeap m p = record { placed = p; tiles = (ground arith, tt); full = refl }
