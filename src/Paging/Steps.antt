-- ===== src/Paging/Steps.antt =====
-- A step of `init_paging_stage1` in src/kernel/arch/i386/paging.c: page tables are filled, and entries
-- of the directory refer to them.
use os1_meaty_skeleton.Prelude.{ℕ, ◌+◌, ◌*◌, ◌/◌, ◌%◌, ◌≤◌, ◌<◌, ◌≡◌, ◌⊎◌, ap, ◌∙◌, arith}
use os1_meaty_skeleton.Prelude.Loops.{for-invariant}
use os1_meaty_skeleton.Paging.{Memory, entry_at, table_at, pagetables_maxsize}
use os1_meaty_skeleton.Paging.Init.{fill_tables, fill_directory}
use os1_meaty_skeleton.Paging.Words.{IsFilled, IsFilled-zero, IsFilled-suc, fill_tables-IsFilled}
use os1_meaty_skeleton.Paging.Walk.{walk, entry_in, slot_present, present, IsLayout, with_flags}

-- The state of the step: memory and the index of the next table.
abbrev pub Tables : Type 0
Tables = Memory × ℕ

-- `page` has the entry `w`, in a table that is taken.
pub record Holds (pool dir : ℕ) (s : Tables) (page w : ℕ) : Type 0 where
  pub table : ℕ
  pub below : table < s.1
  pub pde : s.0 (entry_at dir (page / 1024)) ≡ table_at pool table + 3
  pub entry : s.0 (entry_at (table_at pool table) (page % 1024)) ≡ w

pub Holds-walk :
    {pool dir : ℕ} (s : Tables) (page w : ℕ)
    → IsLayout pool dir
    → Holds pool dir s page w
    → walk s.0 dir page ≡ present w
unfolding entry_in
Holds-walk {pool} s page w l h =
    let odd : s.0 (entry_at _ (page / 1024)) % 2 ≡ 1 = omega (arith, h.pde, l.pool_aligned) in
    ap (entry_in s.0) (slot_present _ page odd)
    ∙ ap present (ap s.0 (omega (arith, h.pde, l.pool_aligned)) ∙ h.entry)

-- `n` entries of tables are the values of `value`, the directory refers to the tables from `first` on,
-- and nothing else has changed in the directory or in the tables that were taken.
pub record IsStep (pool dir n : ℕ) (value : ℕ → ℕ) (first count : ℕ) (s s' : Tables) : Type 0 where
  pub ptes : (j : ℕ) → j < n → s'.0 (entry_at (table_at pool s.1) j) ≡ value j
  pub pdes : (i : ℕ) → i < count → s'.0 (entry_at dir (first + i)) ≡ table_at pool (s.1 + i) + 3
  pub next : s'.1 ≡ s.1 + count
  pub other :
      (i : ℕ)
      → i < 1024
      → (i < first) ⊎ (first + count ≤ i)
      → s'.0 (entry_at dir i) ≡ s.0 (entry_at dir i)
  pub taken : (x : ℕ) → pool ≤ x → x < table_at pool s.1 → s'.0 x ≡ s.0 x

fill_directory-IsFilled :
    (pool dir n first : ℕ) (s : Tables)
    → pool % 4096 ≡ 0
    → let out = fill_directory pool dir n first s in
      IsFilled (entry_at dir first) n (λ k. table_at pool (s.1 + k) + 3) s.0 out.0
      × (out.1 ≡ s.1 + n)
unfolding fill_directory
fill_directory-IsFilled pool dir n first s aligned =
    let values = λ (k : ℕ). table_at pool (s.1 + k) + 3 in
    for-invariant (λ k t. IsFilled (entry_at dir first) k values s.0 t.0 × (t.1 ≡ s.1 + k)) n first
      _ s (IsFilled-zero _ values s.0, omega arith)
      (λ k t lt (h, e). (
        IsFilled-suc (entry_at dir first) k values s.0 t.0 _ _ (omega arith)
            (with_flags (table_at pool t.1) 3 (omega arith) (omega arith) ∙ omega (arith, e)) h,
        omega (arith, e),
      ))

pub fill-IsStep :
    {pool dir : ℕ} (n : ℕ) (value : ℕ → ℕ) (first count : ℕ) (s : Tables)
    → IsLayout pool dir
    → n ≤ 1024 * count
    → first + count ≤ 1024
    → s.1 + count ≤ pagetables_maxsize
    → IsStep pool dir n value first count s
        (fill_directory pool dir count first (fill_tables pool s.1 n value s.0, s.1))
fill-IsStep {pool} {dir} n value first count s l room inside left =
    let tables = fill_tables-IsFilled pool s.1 n value s.0 in
    let (entries, next) =
      fill_directory-IsFilled pool dir count first (fill_tables pool s.1 n value s.0, s.1)
        l.pool_aligned in
    record {
      ptes = λ j lt. entries.outside _ (omega (arith, l.apart)) ∙ tables.inside j lt;
      pdes =
          λ i lt. ap (fill_directory pool dir count first _).0 (omega arith) ∙ entries.inside i lt;
      next = next;
      other =
          λ i lt out. entries.outside _ (omega arith) ∙ tables.outside _ (omega (arith, l.apart));
      taken = λ x above below.
          entries.outside x (omega (arith, l.apart)) ∙ tables.outside x (omega arith);
    }

-- The pages of the step itself.
pub IsStep-new :
    {pool dir n first count : ℕ} {value : ℕ → ℕ} (s s' : Tables) (page : ℕ)
    → IsStep pool dir n value first count s s'
    → n ≤ 1024 * count
    → page < n
    → Holds pool dir s' (1024 * first + page) (value page)
IsStep-new {pool} {dir} {first} s s' page h room lt = record {
  table = s.1 + page / 1024;
  below = omega (arith, h.next);
  pde = ap (λ (i : ℕ). s'.0 (entry_at dir i)) (omega arith) ∙ h.pdes (page / 1024) (omega arith);
  entry = ap s'.0 (omega arith) ∙ h.ptes page lt;
}

-- The other pages keep their entries.
pub IsStep-kept :
    {pool dir n first count : ℕ} {value : ℕ → ℕ} (s s' : Tables) (page w : ℕ)
    → IsStep pool dir n value first count s s'
    → page / 1024 < 1024
    → (page / 1024 < first) ⊎ (first + count ≤ page / 1024)
    → Holds pool dir s page w
    → Holds pool dir s' page w
IsStep-kept s s' page w h lt out was = record {
  table = was.table;
  below = omega (arith, was.below, h.next);
  pde = h.other (page / 1024) lt out ∙ was.pde;
  entry = h.taken _ (omega arith) (omega (arith, was.below)) ∙ was.entry;
}
