-- ===== src/Paging/Words.antt =====
-- What the loops of src/kernel/arch/i386/paging.c leave in memory: the words of a region filled one
-- after the other, and the rest as it was.
use os1_meaty_skeleton.Prelude.{
  ℕ, suc, ◌+◌, ◌≤◌, ◌<◌, ◌≡◌, ◌≢◌, ◌⊎◌, inl, inr, refl, sym, ap, ◌∙◌, true, false, arith, ◌==◌,
  Bool-cases,
}
use os1_meaty_skeleton.Prelude.Loops.{for, for-invariant}
use os1_meaty_skeleton.Paging.{Memory, write, entry_at, table_at, flush_table}
use os1_meaty_skeleton.Paging.Init.{fill_tables}

pub write_same : (m : Memory) (p v : ℕ) → write m p v p ≡ v
unfolding write
write_same m p v = let h : (p == p) ≡ true = ground arith in rw h refl

pub write_other : (m : Memory) (p v x : ℕ) → x ≢ p → write m p v x ≡ m x
unfolding write
write_other m p v x ne = let h : (x == p) ≡ false = ground arith in rw h refl

-- One more entry is written behind those that are there.
pub write_next :
    (a n : ℕ) (f : ℕ → ℕ) (m : Memory) (p v : ℕ)
    → p ≡ entry_at a n
    → v ≡ f n
    → ((k : ℕ) → k < n → m (entry_at a k) ≡ f k)
    → (k : ℕ) → k < suc n
    → write m p v (entry_at a k) ≡ f k
write_next a n f m p v at value h k lt = elim (Bool-cases (k == n)) [
  | inl e ↦
      let last : k ≡ n = ground arith in
      ap (write m p v) (omega arith) ∙ (write_same m p v ∙ (value ∙ ap f (sym last)))
  | inr e ↦ write_other m p v (entry_at a k) (ground arith) ∙ h k (ground arith)
]

-- `n` words from `a` on are the values of `f`, and no word outside has changed.
pub record IsFilled (a n : ℕ) (f : ℕ → ℕ) (m m' : Memory) : Type 0 where
  pub inside : (k : ℕ) → k < n → m' (entry_at a k) ≡ f k
  pub outside : (x : ℕ) → (x < a) ⊎ (entry_at a n ≤ x) → m' x ≡ m x

pub IsFilled-zero : (a : ℕ) (f : ℕ → ℕ) (m : Memory) → IsFilled a 0 f m m
IsFilled-zero a f m = record { inside = λ k h. absurd (omega arith); outside = λ x h. refl }

pub IsFilled-suc :
    (a n : ℕ) (f : ℕ → ℕ) (m m' : Memory) (p v : ℕ)
    → p ≡ entry_at a n
    → v ≡ f n
    → IsFilled a n f m m'
    → IsFilled a (suc n) f m (write m' p v)
IsFilled-suc a n f m m' p v at value h = record {
  inside = λ k lt. write_next a n f m' p v at value h.inside k lt;
  outside = λ x out. write_other m' p v x (omega arith) ∙ h.outside x (omega arith);
}

-- A loop whose turns write word after word fills the region.
pub for-IsFilled :
    (n first a : ℕ) (f : ℕ → ℕ) (body : ℕ → Memory → Memory) (m : Memory)
    → ((k : ℕ) (t : Memory)
        → k < n
        → IsFilled a k f m t
        → IsFilled a (suc k) f m (body (first + k) t))
    → IsFilled a n f m (for n first body m)
for-IsFilled n first a f body m turn =
    for-invariant (λ k t. IsFilled a k f m t) n first body m (IsFilled-zero a f m) turn

pub flush_table-IsFilled :
    (table : ℕ) (m : Memory) → IsFilled table 1024 (λ k. 0) m (flush_table table m)
unfolding flush_table
flush_table-IsFilled table m =
    for-IsFilled 1024 0 table (λ k. 0) _ m
      (λ k t lt h. IsFilled-suc table k (λ j. 0) m t _ 0 (omega arith) refl h)

-- The tables of the pool lie behind one another.
pub fill_tables-IsFilled :
    (pool first n : ℕ) (value : ℕ → ℕ) (m : Memory)
    → IsFilled (table_at pool first) n value m (fill_tables pool first n value m)
unfolding fill_tables
fill_tables-IsFilled pool first n value m =
    for-IsFilled n 0 (table_at pool first) value _ m (λ k t lt h.
      IsFilled-suc (table_at pool first) k value m t _ (value (0 + k)) (omega arith)
        (ap value (omega arith)) h)
