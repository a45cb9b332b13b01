-- ===== src/Paging/Start.antt =====
-- The translation that `init_paging_stage1` of src/kernel/arch/i386/paging.c sets up, for a kernel
-- with modules below the single page at 0x09000000.
use os1_meaty_skeleton.Prelude.{
  ℕ, ◌+◌, ◌-◌, ◌*◌, ◌/◌, ◌%◌, ◌≤◌, ◌<◌, ◌≡◌, ◌≢◌, ◌⊎◌, refl, arith, ◌==◌, true, some, if◌then◌else◌,
  leb, ltb, ◌&&◌,
}
use os1_meaty_skeleton.Paging.{u32, pagetables_maxsize}
use os1_meaty_skeleton.Paging.Init.{pte, map_buffers, map_high, map_single, map_first}
use os1_meaty_skeleton.Paging.Walk.{walk, present, IsLayout, with_flags}
use os1_meaty_skeleton.Paging.Steps.{Tables, IsStep, fill-IsStep}

-- The first physical page of the buffers.
abbrev pub buffers_start : ℕ → ℕ
buffers_start last_phys = (last_phys + u32 - 0x02001000) % u32 / 4096

abbrev pub buffer_pte : ℕ → ℕ → ℕ
buffer_pte last_phys i = pte (i + buffers_start last_phys)

abbrev pub first_pte : ℕ → ℕ
first_pte i =
    if leb 0xc0005 (i + 0xc0000) && ltb (i + 0xc0000) 0xc0006 then pte (i + 0xc0000) else pte i

module _ {pool dir : ℕ} (l : IsLayout pool dir) where
  pub map_buffers-IsStep :
      (last_phys : ℕ) (s : Tables)
      → s.1 + 9 ≤ pagetables_maxsize
      → IsStep pool dir 0x2000 (buffer_pte last_phys) 832 9 s (map_buffers pool dir last_phys s)
  unfolding map_buffers
  map_buffers-IsStep last_phys s left =
      fill-IsStep 0x2000 (buffer_pte last_phys) 832 9 s l (omega arith) (omega arith) left

  pub map_high-IsStep :
      (s : Tables)
      → s.1 + 128 ≤ pagetables_maxsize
      → IsStep pool dir 0x1ffff (λ i. pte (i + 0xe0000)) 896 128 s (map_high pool dir s)
  unfolding map_high
  map_high-IsStep s left =
      fill-IsStep 0x1ffff (λ i. pte (i + 0xe0000)) 896 128 s l (omega arith) (omega arith) left

  pub map_single-IsStep :
      (s : Tables)
      → s.1 + 1 ≤ pagetables_maxsize
      → IsStep pool dir 1 (λ i. pte (i + 0x9000)) 36 1 s (map_single pool dir s)
  unfolding map_single
  map_single-IsStep s left =
      fill-IsStep 1 (λ i. pte (i + 0x9000)) 36 1 s l (omega arith) (omega arith) left

  pub map_first-IsStep :
      (s : Tables)
      → s.1 + 1 ≤ pagetables_maxsize
      → IsStep pool dir 1024 first_pte 768 1 s (map_first pool dir s)
  unfolding map_first
  map_first-IsStep s left = fill-IsStep 1024 first_pte 768 1 s l (omega arith) (omega arith) left

-- What a page that is mapped translates to.
pub present-pte : (page : ℕ) → present (pte page) ≡ some (page * 4096 % u32 + 3)
unfolding present
present-pte page =
    let e = with_flags (page * 4096 % u32) 3 (omega arith) (omega arith) in
    let odd : ((page * 4096 % u32 + 3) % 2 == 1) ≡ true = ground arith in rw (e, odd) refl

-- The pages of all the steps.
pub record IsStart (pool dir reserved last_phys : ℕ) (s : Tables) : Type 0 where
  pub next : s.1 ≡ (reserved + 1023) / 1024 + 139
  pub identity : (page : ℕ) → page < reserved → walk s.0 dir page ≡ some (page * 4096 + 3)
  pub kernel :
      (page : ℕ)
      → page < 1024 ⊎ page < reserved
      → page ≢ 5
      → walk s.0 dir (0xc0000 + page) ≡ some (page * 4096 + 3)
  pub fifth : walk s.0 dir 0xc0005 ≡ some 0xc0005003
  pub buffers :
      (page : ℕ)
      → page < 0x2000
      → walk s.0 dir (0xd0000 + page) ≡ some ((page + buffers_start last_phys) * 4096 % u32 + 3)
  pub high :
      (page : ℕ)
      → page < 0x1ffff
      → walk s.0 dir (0xe0000 + page) ≡ some ((page + 0xe0000) * 4096 + 3)
  pub single : walk s.0 dir 0x9000 ≡ some 0x9000003
