-- ===== src/Kmem.antt =====
-- The kernel heap of src/kernel/utils/kmem.c: a doubly linked list of block headers laid over the
-- static array `heap`. A header is found at its address; the payload bytes are not modelled, so
-- that a caller which writes past its block is outside this model.
pub mod Blocks
pub mod Tiles
pub mod Carve
pub mod Alloc
pub mod Merge
pub mod Free
pub mod FirstFit
pub mod Cycle
pub mod RoundTrip
mod Tests
use os1_meaty_skeleton.Prelude.{
  ℕ, zero, suc, ◌+◌, ◌-◌, ◌/◌, ◌%◌, ◌^◌, Bool, true, false, not, ◌&&◌, ◌||◌, ltb, leb, ◌==◌,
  if◌then◌else◌,
}

-- HEAP_SIZE
abbrev pub heap_size : ℕ
heap_size = 0x2000000

-- sizeof(heap_block_t): four 32-bit fields, packed
abbrev pub header_size : ℕ
header_size = 16

-- MIN_BLOCK_SIZE
abbrev pub min_block_size : ℕ
min_block_size = 16

abbrev pub u32 : ℕ
u32 = 2 ^ 32

-- `heap_block_t`. `free` is only ever set to 0 or 1, and only tested; a null pointer is 0.
pub record Header : Type 0 where
  pub size : ℕ
  pub free : Bool
  pub next : ℕ
  pub prev : ℕ

abbrev pub Mem : Type 0
Mem = ℕ → Header

-- An assignment to fields of the header at `a`.
abbrev pub update : Mem → ℕ → (Header → Header) → Mem
update m a f x = if x == a then f (m x) else m x

abbrev pub set_prev : ℕ → Header → Header
set_prev p h = record h { prev = p }

-- `(size + ALIGNMENT - 1) & ~(ALIGNMENT - 1)` on 32 bits: the low four bits are cleared.
unfoldable pub align_size : ℕ → ℕ
align_size size = let up = (size + 15) % u32 in up - up % 16

-- What a call does: it returns a pointer, or it reaches `while(1)`. `out_of_fuel` is no behaviour
-- of the code: `Alloc` shows that the fuel given suffices.
pub data Outcome : Type 0 where
  returned : ℕ → Mem → Outcome
  hangs : Outcome
  out_of_fuel : Outcome

-- The split of a block that is large enough for a second header.
unfoldable pub split : Mem → ℕ → ℕ → Mem
split m current size = link_back
  where
    new_block : ℕ
    new_block = (current + header_size + size) % u32

    place : Mem
    place = update m new_block λ _. record {
      size = ((m current).size + u32 + u32 - size - header_size) % u32;
      free = true;
      next = (m current).next;
      prev = current;
    }

    relink : Mem
    relink =
        if (m current).next == 0 then place else update place (m current).next (set_prev new_block)

    link_back : Mem
    link_back = update relink current λ h. record h { next = new_block; size = size }

-- The body of the loop's `if`: split when that is worth it, and mark the block as used.
unfoldable pub take_block : Mem → ℕ → ℕ → Mem
take_block m current size =
    let m' =
      if leb ((size + header_size + min_block_size) % u32) (m current).size
      then split m current size
      else m in
    update m' current λ h. record h { free = false }

module _ (heap : ℕ) where
  -- `int init_heap(uint32_t)`: one free block that spans the array. The result is always 0.
  unfoldable pub init_heap : Mem → Mem
  init_heap m =
      update m heap λ _. record { size = heap_size - header_size; free = true; next = 0; prev = 0 }

  -- `current && current >= heap && current <= heap + HEAP_SIZE`
  abbrev pub in_heap : ℕ → Bool
  in_heap current = not (current == 0) && leb heap current && leb current (heap + heap_size)

  unfoldable pub find_block : ℕ → Mem → ℕ → ℕ → Outcome
  find_block zero m current size = out_of_fuel
  find_block (suc fuel) m current size =
      let rest = find_block fuel m (m current).next size in
      if in_heap current
      then (if (m current).free && leb size (m current).size
          then returned ((current + header_size) % u32) (take_block m current size)
          else rest)
      else hangs

  -- A block takes at least its header, so a chain has at most `heap_size / header_size` blocks.
  abbrev pub max_blocks : ℕ
  max_blocks = heap_size / header_size

  unfoldable pub kmalloc : Mem → ℕ → Outcome
  kmalloc m size =
      if size == 0 then returned 0 m else find_block (suc max_blocks) m heap (align_size size)

-- "Merge with next block if free"
unfoldable pub merge_next : Mem → ℕ → Mem
merge_next m block =
    let next = (m block).next in
    if not (next == 0) && (m next).free
    then (let grown = update m block λ h. record h {
      size = (h.size + (m next).size + header_size) % u32;
      next = (m next).next;
    } in
        let after = (grown block).next in
        if after == 0 then grown else update grown after (set_prev block))
    else m

-- "Merge with previous block if free"
unfoldable pub merge_prev : Mem → ℕ → Mem
merge_prev m block =
    let before = (m block).prev in
    if not (before == 0) && (m before).free
    then (let grown = update m before λ h. record h {
      size = (h.size + (m block).size + header_size) % u32;
      next = (m block).next;
    } in
        let after = (grown block).next in
        if after == 0 then grown else update grown after (set_prev before))
    else m

-- `block->free = 1` and the two merges.
unfoldable pub free_block : Mem → ℕ → Mem
free_block m block =
    merge_prev (merge_next (update m block λ h. record h { free = true }) block) block

module _ (heap : ℕ) where
  unfoldable pub kfree : Mem → ℕ → Mem
  kfree m ptr =
      if ptr == 0
      then m
      else (let block = (ptr + u32 - header_size) % u32 in
          if ltb block heap || leb (heap + heap_size) block
          then m
          else (if (m block).free then m else free_block m block))
