-- ===== src/Kmem/Tiles.antt =====
-- The representation: headers in memory tile the heap array with a list of blocks.
use os1_meaty_skeleton.Prelude.{
  ℕ, ◌+◌, ◌*◌, ◌^◌, ◌≤◌, ◌<◌, ◌≡◌, ap, List, [], ◌∷◌, ◌++◌, arith, length,
}
use os1_meaty_skeleton.Kmem.{Header, Mem, heap_size}
use os1_meaty_skeleton.Kmem.Blocks.{Block, span}

-- The pointer to the blocks that begin at `a`: null if there are none.
abbrev pub entry : ℕ → List Block → ℕ
entry a [] = 0
entry a (b ∷ bs) = a

abbrev pub header_of : Block → ℕ → ℕ → Header
header_of b next prev = record { size = b.size; free = b.free; next = next; prev = prev }

-- From `a` on, behind the block at `prev`, the headers of `bs` follow one another, each linked to
-- both neighbours.
abbrev pub Tiles : Mem → ℕ → ℕ → List Block → Type 0
Tiles m prev a [] = Unit {0}
Tiles m prev a (b ∷ bs) =
    (m a ≡ header_of b (entry (a + 16 + b.size) bs) prev) × Tiles m a (a + 16 + b.size) bs

-- The array lies at a 16-byte boundary, below the end of the address space and not at 0.
pub record IsPlaced (heap : ℕ) : Type 0 where
  pub not_null : 0 < heap
  pub in_space : heap + heap_size + 16 ≤ 2 ^ 32

-- The blocks `bs` fill the array exactly.
pub record IsHeap (heap : ℕ) (m : Mem) (bs : List Block) : Type 0 where
  pub placed : IsPlaced heap
  pub tiles : Tiles m 0 heap bs
  pub full : span bs ≡ heap_size

-- Blocks survive any change below them.
pub Tiles-frame :
    (m m' : Mem) (prev a : ℕ) (bs : List Block)
    → ((x : ℕ) → a ≤ x → m' x ≡ m x)
    → Tiles m prev a bs
    → Tiles m' prev a bs
Tiles-frame m m' prev a [] same t = tt
Tiles-frame m m' prev a (b ∷ bs) same t = (
  ground (arith, same a),
  Tiles-frame m m' a (a + 16 + b.size) bs (λ x h. same x (omega arith)) t.1,
)

pub length-le-span : (bs : List Block) → 16 * length bs ≤ span bs
length-le-span [] = omega arith
length-le-span (b ∷ bs) = omega (arith, length-le-span bs)

pub span-append : (xs ys : List Block) → span (xs ++ ys) ≡ span xs + span ys
span-append [] ys = omega arith
span-append (x ∷ xs) ys = omega (arith, span-append xs ys)

-- The header of a block in the middle of the chain.
pub header_at :
    (m : Mem) (prev a : ℕ) (xs : List Block) (b : Block) (ys : List Block)
    → Tiles m prev a (xs ++ b ∷ ys)
    → ((m (a + span xs)).free ≡ b.free) × ((m (a + span xs)).size ≡ b.size)
header_at m prev a [] b ys t =
    let e : a + 0 ≡ a = omega arith in
    rw e (ap (λ (h : Header). h.free) t.0, ap (λ (h : Header). h.size) t.0)
header_at m prev a (c ∷ xs) b ys t =
    let e : a + (16 + c.size + span xs) ≡ a + 16 + c.size + span xs = omega arith in
    rw e (header_at m a (a + 16 + c.size) xs b ys t.1)
