-- ===== src/Kmem/Tests.antt =====
-- The allocator's theorems at concrete heaps, and runs of the code.
use os1_meaty_skeleton.Prelude.{ℕ, ◌+◌, ◌-◌, ◌≡◌, refl, true, false, List, [], ◌∷◌, arith}
use os1_meaty_skeleton.Kmem.{
  Mem, heap_size, init_heap, kmalloc, kfree, align_size, find_block, take_block, split, returned,
}
use os1_meaty_skeleton.Kmem.Blocks.{Block, block, first_fit, release}
use os1_meaty_skeleton.Kmem.Tiles.{IsPlaced, IsHeap}
use os1_meaty_skeleton.Kmem.Alloc.{init_heap-IsHeap, Serves, kmalloc-first_fit}
use os1_meaty_skeleton.Kmem.Free.{kfree-release}
use os1_meaty_skeleton.Kmem.Cycle.{kfree-kmalloc}

abbrev base : ℕ
base = 0x100000

abbrev fresh : Mem
fresh = init_heap base λ _. record { size = 0; free = false; next = 0; prev = 0 }

abbrev whole : List Block
whole = block (heap_size - 16) true ∷ []

base-IsPlaced : IsPlaced base
base-IsPlaced = omega arith

fresh-IsHeap : IsHeap base fresh whole
fresh-IsHeap = init_heap-IsHeap _ base-IsPlaced

-- The heap after `kmalloc(100)`.
abbrev taken : Mem
taken = take_block fresh base 112

first_call : kmalloc base fresh 100 ≡ returned (base + 16) taken
unfolding kmalloc find_block take_block split align_size init_heap
first_call = refl

taken-IsHeap : IsHeap base taken (block 112 false ∷ block (heap_size - 144) true ∷ [])
unfolding take_block split init_heap
taken-IsHeap = record { placed = base-IsPlaced; tiles = (refl, (refl, tt)); full = refl }

kfree-kmalloc_example : IsHeap base (kfree base taken (base + 16)) whole
kfree-kmalloc_example =
    kfree-kmalloc 100 whole fresh-IsHeap ((λ _. refl, tt)) (omega arith) first_call

kmalloc-first_fit_example : Serves base (first_fit (align_size 100) whole) (kmalloc base fresh 100)
kmalloc-first_fit_example = kmalloc-first_fit 100 whole fresh-IsHeap (omega arith)

kfree-release_example :
    IsHeap base
      (kfree base taken (base + 0 + 16))
      (release [] (block 112 false) (block (heap_size - 144) true ∷ []))
kfree-release_example =
    kfree-release [] (block 112 false) (block (heap_size - 144) true ∷ []) taken-IsHeap refl

fresh_free : (fresh base).free ≡ true
unfolding init_heap
fresh_free = refl
