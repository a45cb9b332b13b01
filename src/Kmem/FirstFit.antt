-- ===== src/Kmem/FirstFit.antt =====
-- What first fit finds on a list of blocks.
use os1_meaty_skeleton.Prelude.{
  ℕ, ◌+◌, ◌≤◌, ◌≡◌, refl, ap, false, ◌&&◌, inl, inr, Option, none, some, List, [], ◌∷◌, ◌++◌, arith,
  leb, Bool-cases,
}
use os1_meaty_skeleton.Kmem.Blocks.{Block, Found, behind, carve, first_fit, span}

-- What a found block is, next to the list that was searched.
pub record Served (n : ℕ) (bs : List Block) (f : Found) : Type 0 where
  pub used : (f.1).free ≡ false
  pub room : n ≤ (f.1).size
  pub full : span (f.0 ++ f.1 ∷ f.2) ≡ span bs

abbrev pub ServedBy : ℕ → List Block → Option Found → Type 0
ServedBy n bs none = Unit {0}
ServedBy n bs (some f) = Served n bs f

carve-Served : (n : ℕ) (b : Block) (bs : List Block) → n ≤ b.size → Served n (b ∷ bs) (carve n b bs)
carve-Served n b bs h = elim (Bool-cases (leb (n + 32) b.size)) [
  | inl big ↦ rw big (record { used = refl; room = omega arith; full = ground arith })
  | inr small ↦ rw small (record { used = refl; room = h; full = refl })
]

behind-Served :
    (n : ℕ) (b : Block) (bs : List Block) (f : Option Found)
    → ServedBy n bs f
    → ServedBy n (b ∷ bs) (behind b f)
behind-Served n b bs none s = tt
behind-Served n b bs (some (xs, c, ys)) s = record {
  used = s.used;
  room = s.room;
  full = ap (λ k. 16 + b.size + k) s.full;
}

pub first_fit-Served : (n : ℕ) (bs : List Block) → ServedBy n bs (first_fit n bs)
unfolding first_fit
first_fit-Served n [] = tt
first_fit-Served n (b ∷ bs) = elim (Bool-cases (b.free && leb n b.size)) [
  | inl fits ↦ rw fits (carve-Served n b bs (ground arith))
  | inr skip ↦ rw skip (behind-Served n b bs (first_fit n bs) (first_fit-Served n bs))
]
