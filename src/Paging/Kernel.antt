-- ===== src/Paging/Kernel.antt =====
-- The first step of `init_paging_stage1` in src/kernel/arch/i386/paging.c: every entry of the
-- directory for the kernel is written twice, for the addresses from 0 and from KERNEL_VBASE on.
use os1_meaty_skeleton.Prelude.{
  ℕ, suc, ◌+◌, ◌-◌, ◌/◌, ◌%◌, ◌≤◌, ◌<◌, ◌≡◌, ◌⊎◌, refl, ap, ◌∙◌, arith,
}
use os1_meaty_skeleton.Prelude.Loops.{for-invariant_zero}
use os1_meaty_skeleton.Paging.{Memory, write, entry_at, table_at}
use os1_meaty_skeleton.Paging.Init.{fill_tables, fill_kernel_directory, map_kernel, pte}
use os1_meaty_skeleton.Paging.Words.{write_next, write_other, fill_tables-IsFilled}
use os1_meaty_skeleton.Paging.Walk.{IsLayout, with_flags}
use os1_meaty_skeleton.Paging.Steps.{Holds}

-- After `k` turns: the entries below `k` and those from 768 on, and the rest as before.
record IsDoubled (dir k : ℕ) (f : ℕ → ℕ) (m m' : Memory) : Type 0 where
  low : (i : ℕ) → i < k → m' (entry_at dir i) ≡ f i
  high : (i : ℕ) → i < k → m' (entry_at dir (i + 768)) ≡ f i
  other : (i : ℕ) → (k ≤ i) × ((i < 768) ⊎ (k + 768 ≤ i)) → m' (entry_at dir i) ≡ m (entry_at dir i)
  outside : (x : ℕ) → (x < dir) ⊎ (dir + 4096 ≤ x) → m' x ≡ m x

IsDoubled-suc :
    (dir k : ℕ) (f : ℕ → ℕ) (m t : Memory) (v : ℕ)
    → k < 256
    → v ≡ f k
    → IsDoubled dir k f m t
    → IsDoubled dir (suc k) f m (write (write t (entry_at dir k) v) (entry_at dir (k + 768)) v)
IsDoubled-suc dir k f m t v lt value h =
    let t1 = write t (entry_at dir k) v in
    record {
      low = λ i below.
          write_other t1 _ v _ (omega arith) ∙ write_next dir k f t _ v refl value h.low i below;
      high = λ i below.
          ap (write t1 (entry_at dir (k + 768)) v) (omega arith)
          ∙ write_next (entry_at dir 768) k f t1 _ v (omega arith) value
              (λ j l. write_other t _ v _ (omega arith) ∙ (ap t (omega arith) ∙ h.high j l)) i
              below;
      other = λ i (above, apart).
          write_other t1 _ v _ (omega arith)
          ∙ (write_other t _ v _ (omega arith) ∙ h.other i (omega arith));
      outside = λ x out.
          write_other t1 _ v x (omega arith)
          ∙ (write_other t _ v x (omega arith) ∙ h.outside x out);
    }

fill_kernel_directory-IsDoubled :
    (pool dir n : ℕ) (m : Memory)
    → pool % 4096 ≡ 0
    → n ≤ 256
    → IsDoubled dir n (λ i. table_at pool i + 3) m (fill_kernel_directory pool dir n m)
unfolding fill_kernel_directory
fill_kernel_directory-IsDoubled pool dir n m aligned small =
    for-invariant_zero (λ k t. IsDoubled dir k (λ i. table_at pool i + 3) m t) n _ m
      (record {
        low = λ i lt. absurd (omega arith);
        high = λ i lt. absurd (omega arith);
        other = λ i out. refl;
        outside = λ x out. refl;
      })
      (λ k t lt h.
        IsDoubled-suc dir k (λ i. table_at pool i + 3) m t _ (omega arith)
          (with_flags (table_at pool k) 3 (omega arith) (omega arith)) h)

-- The pages of the kernel, at both addresses, and the entries of the directory that are not theirs.
pub record IsKernel (pool dir reserved : ℕ) (m : Memory) (s : Memory × ℕ) : Type 0 where
  pub next : s.1 ≡ (reserved + 1024 - 1) / 1024
  pub low : (page : ℕ) → page < reserved → Holds pool dir s page (pte page)
  pub high : (page : ℕ) → page < reserved → Holds pool dir s (0xc0000 + page) (pte page)
  pub own :
      (i : ℕ)
      → i < s.1
      → (s.0 (entry_at dir i) ≡ table_at pool i + 3)
        × (s.0 (entry_at dir (i + 768)) ≡ table_at pool i + 3)
  pub other :
      (i : ℕ)
      → i < 1024
      → (s.1 ≤ i) × ((i < 768) ⊎ (s.1 + 768 ≤ i))
      → s.0 (entry_at dir i) ≡ m (entry_at dir i)

pub map_kernel-IsKernel :
    (pool dir reserved : ℕ) (m : Memory)
    → IsLayout pool dir
    → reserved ≤ 0x9000
    → IsKernel pool dir reserved m (map_kernel pool dir reserved m)
unfolding map_kernel
map_kernel-IsKernel pool dir reserved m l small =
    let filled = fill_tables-IsFilled pool 0 reserved pte m in
    let tables = fill_tables pool 0 reserved pte m in
    let done =
      fill_kernel_directory-IsDoubled pool dir ((reserved + 1024 - 1) / 1024) tables l.pool_aligned
        (omega arith) in
    record {
      next = refl;
      low = λ page lt. record {
        table = page / 1024;
        below = omega arith;
        pde = done.low (page / 1024) (omega arith);
        entry =
            done.outside _ (omega (arith, l.apart))
            ∙ (ap tables (omega arith) ∙ filled.inside page lt);
      };
      high = λ page lt. record {
        table = page / 1024;
        below = omega arith;
        pde =
            ap (fill_kernel_directory pool dir ((reserved + 1024 - 1) / 1024) tables) (omega arith)
            ∙ done.high (page / 1024) (omega arith);
        entry =
            done.outside _ (omega (arith, l.apart))
            ∙ (ap tables (omega arith) ∙ filled.inside page lt);
      };
      own = λ i lt. (done.low i lt, done.high i lt);
      other = λ i lt out. done.other i out ∙ filled.outside _ (omega (arith, l.apart));
    }
