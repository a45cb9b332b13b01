-- ===== src/Kmem/Cycle.antt =====
-- `kmalloc` and `kfree` of src/kernel/utils/kmem.c together.
use os1_meaty_skeleton.Prelude.{
  ℕ, ◌+◌, ◌-◌, ◌≤◌, ◌<◌, ◌≡◌, refl, sym, ap, ◌∙◌, subst, true, false, Option, none, some, List, ◌∷◌,
  arith, leb,
}
use os1_meaty_skeleton.Kmem.{Mem, u32, heap_size, align_size, returned, kmalloc, kfree}
use os1_meaty_skeleton.Kmem.Blocks.{Block, Found, carve, first_fit, span, IsCoalesced}
use os1_meaty_skeleton.Kmem.FirstFit.{ServedBy, first_fit-Served}
use os1_meaty_skeleton.Kmem.RoundTrip.{release-first_fit}
use os1_meaty_skeleton.Kmem.Tiles.{IsHeap, span-append, header_at}
use os1_meaty_skeleton.Kmem.Carve.{blocks_of, offset_of}
use os1_meaty_skeleton.Kmem.Alloc.{
  Serves, kmalloc-first_fit, align_size_lem, align_size_wraps, offset-carve,
}
use os1_meaty_skeleton.Kmem.Free.{kfree-release}

returned-injective : {p q : ℕ} {m m' : Mem} → returned p m ≡ returned q m' → (p ≡ q) × (m ≡ m')
returned-injective e = (cc, cc)

-- What a call that returns has found.
found :
    {heap : ℕ} {m m' : Mem} {p : ℕ} (n : ℕ) (bs : List Block)
    → IsHeap heap m bs
    → 0 < n
    → kmalloc heap m n ≡ returned p m'
    → (f : Found) × (first_fit (align_size n) bs ≡ some f)
      × (p ≡ heap + offset_of f + 16)
      × IsHeap heap m' (blocks_of f)
found {heap} {m} {m'} {p} n bs v pos e =
    go (first_fit (align_size n) bs) refl (kmalloc-first_fit n bs v pos)
  where
    go :
        (o : Option Found)
        → first_fit (align_size n) bs ≡ o
        → Serves heap o (kmalloc heap m n)
        → (f : Found) × (first_fit (align_size n) bs ≡ some f)
          × (p ≡ heap + offset_of f + 16)
          × IsHeap heap m' (blocks_of f)
    go none eo s = absurd (cc)
    go (some f) eo (m'', er, v') =
        let (ep, em) = returned-injective (sym e ∙ er) in
        (f, eo, ep, subst (λ k. IsHeap heap k (blocks_of f)) (sym em) v')

-- The memory that `kmalloc` returns can be given back: on a coalesced heap `kfree` of the pointer
-- restores exactly the blocks that there were before the request.
pub kfree-kmalloc :
    {heap : ℕ} {m m' : Mem} {p : ℕ} (n : ℕ) (bs : List Block)
    → IsHeap heap m bs
    → IsCoalesced bs
    → 0 < n
    → kmalloc heap m n ≡ returned p m'
    → IsHeap heap (kfree heap m' p) bs
kfree-kmalloc {heap} {m} {m'} {p} n bs v co pos e =
    let (f, ef, ep, v') = found n bs v pos e in
    let served = subst (ServedBy (align_size n) bs) ef (first_fit-Served (align_size n) bs) in
    let back = (release-first_fit (align_size n) bs f co ef).0 in
    let freed = kfree-release f.0 f.1 f.2 v' served.used in
    subst (λ k. IsHeap heap (kfree heap m' k) bs) (sym ep)
      (subst (IsHeap heap (kfree heap m' (heap + offset_of f + 16))) back freed)

-- A request that does not wrap is served by memory of its own: the block is marked as used, holds
-- at least the bytes asked for, and lies wholly inside the array.
kmalloc_room :
    {heap : ℕ} {m m' : Mem} {p : ℕ} (n : ℕ) (bs : List Block)
    → IsHeap heap m bs
    → 0 < n
    → n + 15 < u32
    → kmalloc heap m n ≡ returned p m'
    → ((m' (p - 16)).free ≡ false)
      × (n ≤ (m' (p - 16)).size)
      × (heap + 16 ≤ p)
      × (p + (m' (p - 16)).size ≤ heap + heap_size)
kmalloc_room {heap} {m} {m'} {p} n bs v pos small e =
    let (f, ef, ep, v') = found n bs v pos e in
    let served = subst (ServedBy (align_size n) bs) ef (first_fit-Served (align_size n) bs) in
    let at : p - 16 ≡ heap + offset_of f = omega arith in
    let (free, size) = header_at m' 0 heap f.0 f.1 f.2 v'.tiles in
    let total : span f.0 + (16 + f.1.size + span f.2) ≡ heap_size =
      omega (arith, span-append f.0 (f.1 ∷ f.2), v'.full) in
    rw (at, free, size)
      (served.used, omega (arith, align_size_lem n small, served.room), omega arith, omega arith)

first_fit_zero :
    (b : Block) (bs : List Block) → b.free ≡ true → first_fit 0 (b ∷ bs) ≡ some (carve 0 b bs)
unfolding first_fit
first_fit_zero b bs f = let fits : leb 0 b.size ≡ true = ground arith in rw (f, fits) refl

carve_zero_small : (b : Block) (bs : List Block) → (carve 0 b bs).1.size < 32
carve_zero_small b bs = ground arith

-- A request within 15 bytes of 2 ^ 32 wraps to a request of none: if the first block is free, the
-- call returns its payload, which is smaller than 32 bytes afterwards.
kmalloc_wraps :
    {heap : ℕ} {m : Mem} (n : ℕ) (b : Block) (bs : List Block)
    → IsHeap heap m (b ∷ bs)
    → b.free ≡ true
    → u32 ≤ n + 15
    → n < u32
    → (m' : Mem) × (kmalloc heap m n ≡ returned (heap + 16) m') × ((m' heap).size < 32)
kmalloc_wraps {heap} {m} n b bs v f big fits =
    let e : first_fit (align_size n) (b ∷ bs) ≡ some (carve 0 b bs) =
      rw (align_size_wraps n big fits) (first_fit_zero b bs f) in
    let (m', er, v') =
      subst (λ o. Serves heap o (kmalloc heap m n)) e
        (kmalloc-first_fit n (b ∷ bs) v (omega arith)) in
    let front : heap + offset_of (carve 0 b bs) ≡ heap = omega (arith, offset-carve 0 b bs) in
    let size =
      (header_at m' 0 heap (carve 0 b bs).0 (carve 0 b bs).1 (carve 0 b bs).2 v'.tiles).1 in
    (
      m',
      er ∙ ap (λ k. returned (k + 16) m') front,
      subst (λ k. (m' k).size < 32) front (subst (λ k. k < 32) (sym size) (carve_zero_small b bs)),
    )
