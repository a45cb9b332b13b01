-- ===== src/Kmem/RoundTrip.antt =====
-- Release undoes first fit, and both keep the list coalesced.
use os1_meaty_skeleton.Prelude.{
  ℕ, ◌+◌, ◌≤◌, ◌≡◌, refl, ap, ◌∙◌, subst, true, false, ◌&&◌, inl, inr, Option, none, some, List, [],
  ◌∷◌, ◌++◌, arith, leb, Bool-cases,
}
use os1_meaty_skeleton.Kmem.Blocks.{
  Block, block, Found, behind, carve, first_fit, release, merge_left, merge_right, span, used_head,
  IsCoalesced, merge_right-used, merge_left-used,
}

pub span-merge_right : (b : Block) (ys : List Block) → span (merge_right b ys) ≡ span (b ∷ ys)
span-merge_right b [] = refl
span-merge_right b (c ∷ cs) = ground arith

span-merge_left : (b : Block) (ys : List Block) → span (merge_left b ys) ≡ span (b ∷ ys)
span-merge_left b [] = refl
span-merge_left b (c ∷ cs) = ground arith

-- Release neither loses nor gains a byte.
pub span-release :
    (xs : List Block) (b : Block) (ys : List Block) → span (release xs b ys) ≡ span (xs ++ b ∷ ys)
unfolding release
span-release [] b ys = span-merge_right (block b.size true) ys
span-release (c ∷ []) b ys =
    span-merge_left c (merge_right (block b.size true) ys)
    ∙ ap (λ k. 16 + c.size + k) (span-merge_right (block b.size true) ys)
span-release (c ∷ d ∷ xs) b ys = ap (λ k. 16 + c.size + k) (span-release (d ∷ xs) b ys)

merge_right-IsCoalesced :
    (n : ℕ) (ys : List Block) → IsCoalesced ys → IsCoalesced (merge_right (block n true) ys)
merge_right-IsCoalesced n [] h = (λ _. refl, tt)
merge_right-IsCoalesced n (c ∷ cs) h = ground arith

merge_left-IsCoalesced :
    (c : Block) (ys : List Block)
    → IsCoalesced ys
    → used_head ys ≡ false
    → IsCoalesced (merge_left c ys)
merge_left-IsCoalesced c [] h e = cc
merge_left-IsCoalesced c (d ∷ ds) h e = ground arith

used_head-merge_right :
    (n : ℕ) (ys : List Block) → used_head (merge_right (block n true) ys) ≡ false
used_head-merge_right n [] = refl
used_head-merge_right n (c ∷ cs) = ground arith

used_head-merge_left :
    (c : Block) (ys : List Block) → used_head (merge_left c ys) ≡ used_head (c ∷ [])
used_head-merge_left c [] = refl
used_head-merge_left c (d ∷ ds) = ground arith

used_head-release :
    (c : Block) (xs : List Block) (b : Block) (ys : List Block)
    → used_head (release (c ∷ xs) b ys) ≡ used_head (c ∷ [])
unfolding release
used_head-release c [] b ys = used_head-merge_left c (merge_right (block b.size true) ys)
used_head-release c (d ∷ xs) b ys = refl

-- Release keeps the list coalesced.
pub release-IsCoalesced :
    (xs : List Block) (b : Block) (ys : List Block)
    → IsCoalesced (xs ++ b ∷ ys)
    → IsCoalesced (release xs b ys)
unfolding release
release-IsCoalesced [] b ys h = merge_right-IsCoalesced b.size ys h.1
release-IsCoalesced (c ∷ []) b ys h =
    merge_left-IsCoalesced c (merge_right (block b.size true) ys)
      (merge_right-IsCoalesced b.size ys h.1.1) (used_head-merge_right b.size ys)
release-IsCoalesced (c ∷ d ∷ xs) b ys h =
    (λ e. used_head-release d xs b ys ∙ h.0 e, release-IsCoalesced (d ∷ xs) b ys h.1)

-- What holds of a found block when the list searched was coalesced.
record Restores (bs : List Block) (f : Found) : Type 0 where
  back : release f.0 f.1 f.2 ≡ bs
  coalesced : IsCoalesced (f.0 ++ f.1 ∷ f.2)
  head : used_head bs ≡ true → used_head (f.0 ++ f.1 ∷ f.2) ≡ true

abbrev RestoredBy : List Block → Option Found → Type 0
RestoredBy bs none = Unit {0}
RestoredBy bs (some f) = Restores bs f

carve-Restores :
    (n : ℕ) (b : Block) (bs : List Block)
    → b.free ≡ true
    → n ≤ b.size
    → IsCoalesced (b ∷ bs)
    → Restores (b ∷ bs) (carve n b bs)
unfolding release
carve-Restores n b bs f h co = elim (Bool-cases (leb (n + 32) b.size)) [
  | inl big ↦
      rw big (record {
        back = ground arith;
        coalesced = (λ e. cc, (λ _. co.0 f, co.1));
        head = λ _. refl;
      })
  | inr small ↦ rw small (record {
    back = merge_right-used (block b.size true) bs (co.0 f) ∙ ground arith;
    coalesced = (λ e. cc, co.1);
    head = λ _. refl;
  })
]

-- A block at the front that was found free makes the head of the list free.
head_of_back : (c : Block) (ys bs : List Block) → release [] c ys ≡ bs → used_head bs ≡ false
unfolding release
head_of_back c ys bs e = rw (← e) (used_head-merge_right c.size ys)

behind-Restores :
    (b : Block) (bs : List Block) (f : Option Found)
    → IsCoalesced (b ∷ bs)
    → RestoredBy bs f
    → RestoredBy (b ∷ bs) (behind b f)
unfolding release
behind-Restores b bs none co r = tt
behind-Restores b bs (some ([], c, ys)) co r =
    let front : used_head bs ≡ false = head_of_back c ys bs r.back in
    let used : b.free ≡ false = ground (arith, co.0) in
    record {
      back = ap (merge_left b) r.back ∙ merge_left-used b bs used;
      coalesced = (λ e. cc, r.coalesced);
      head = λ e. e;
    }
behind-Restores b bs (some (x ∷ xs, c, ys)) co r = record {
  back = ap (λ k. b ∷ k) r.back;
  coalesced = (λ e. r.head (co.0 e), r.coalesced);
  head = λ e. e;
}

first_fit-Restores : (n : ℕ) (bs : List Block) → IsCoalesced bs → RestoredBy bs (first_fit n bs)
unfolding first_fit
first_fit-Restores n [] co = tt
first_fit-Restores n (b ∷ bs) co = elim (Bool-cases (b.free && leb n b.size)) [
  | inl fits ↦ rw fits (carve-Restores n b bs (ground arith) (ground arith) co)
  | inr skip ↦ rw skip (behind-Restores b bs (first_fit n bs) co (first_fit-Restores n bs co.1))
]

restored :
    (bs : List Block) (o : Option Found) (f : Found) → o ≡ some f → RestoredBy bs o → Restores bs f
restored bs o f e r = subst (RestoredBy bs) e r

-- Releasing the block that first fit found gives back the list that was searched.
pub release-first_fit :
    (n : ℕ) (bs : List Block) (f : Found)
    → IsCoalesced bs
    → first_fit n bs ≡ some f
    → (release f.0 f.1 f.2 ≡ bs) × IsCoalesced (f.0 ++ f.1 ∷ f.2)
release-first_fit n bs f co e =
    let r = restored bs (first_fit n bs) f e (first_fit-Restores n bs co) in (r.back, r.coalesced)
