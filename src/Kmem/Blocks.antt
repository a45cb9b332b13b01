-- ===== src/Kmem/Blocks.antt =====
-- What the allocator of src/kernel/utils/kmem.c promises, on the plain list of its blocks: first
-- fit with splitting, and release with the merge of both neighbours.
use os1_meaty_skeleton.Prelude.{
  ℕ, ◌+◌, ◌-◌, ◌≡◌, refl, arith, Bool, true, false, ◌&&◌, Option, none, some, List, [], ◌∷◌, leb,
  if◌then◌else◌,
}

pub record Block : Type 0 where
  pub size : ℕ
  pub free : Bool

abbrev pub block : ℕ → Bool → Block
block n f = record { size = n; free = f }

-- The blocks before the one that is handed out, that one, and the blocks after it.
abbrev pub Found : Type 0
Found = List Block × Block × List Block

abbrev pub behind : Block → Option Found → Option Found
behind b none = none
behind b (some (xs, c, ys)) = some (b ∷ xs, c, ys)

abbrev pub carve : ℕ → Block → List Block → Found
carve n b bs =
    if leb (n + 32) b.size
    then ([], block n false, block (b.size - n - 16) true ∷ bs)
    else ([], block b.size false, bs)

unfoldable pub first_fit : ℕ → List Block → Option Found
first_fit n [] = none
first_fit n (b ∷ bs) =
    if b.free && leb n b.size then some (carve n b bs) else behind b (first_fit n bs)

abbrev pub merge_right : Block → List Block → List Block
merge_right b [] = b ∷ []
merge_right b (c ∷ cs) = if c.free then block (b.size + c.size + 16) b.free ∷ cs else b ∷ c ∷ cs

abbrev pub merge_left : Block → List Block → List Block
merge_left b [] = b ∷ []
merge_left b (c ∷ cs) = if b.free then block (b.size + c.size + 16) true ∷ cs else b ∷ c ∷ cs

unfoldable pub release : List Block → Block → List Block → List Block
release [] b ys = merge_right (block b.size true) ys
release (c ∷ []) b ys = merge_left c (merge_right (block b.size true) ys)
release (c ∷ d ∷ xs) b ys = c ∷ release (d ∷ xs) b ys

-- The bytes that blocks take, headers included.
abbrev pub span : List Block → ℕ
span [] = 0
span (b ∷ bs) = 16 + b.size + span bs

-- No two neighbours are free.
abbrev pub used_head : List Block → Bool
used_head [] = true
used_head (b ∷ bs) = if b.free then false else true

abbrev pub IsCoalesced : List Block → Type 0
IsCoalesced [] = Unit {0}
IsCoalesced (b ∷ bs) = (b.free ≡ true → used_head bs ≡ true) × IsCoalesced bs

pub merge_right-used :
    (b : Block) (bs : List Block) → used_head bs ≡ true → merge_right b bs ≡ b ∷ bs
merge_right-used b [] h = refl
merge_right-used b (c ∷ cs) h = ground arith

pub merge_left-used : (b : Block) (bs : List Block) → b.free ≡ false → merge_left b bs ≡ b ∷ bs
merge_left-used b [] h = refl
merge_left-used b (c ∷ cs) h = ground arith

pub merge_right-free :
    (b c : Block) (cs : List Block)
    → c.free ≡ true
    → merge_right b (c ∷ cs) ≡ block (b.size + c.size + 16) b.free ∷ cs
merge_right-free b c cs h = ground arith

pub merge_left-free :
    (b c : Block) (cs : List Block)
    → b.free ≡ true
    → merge_left b (c ∷ cs) ≡ block (b.size + c.size + 16) b.free ∷ cs
merge_left-free b c cs h = ground arith
