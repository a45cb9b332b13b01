-- ===== src/Paging/Whole.antt =====
-- The steps of `init_paging_stage1` in src/kernel/arch/i386/paging.c one after the other.
use os1_meaty_skeleton.Prelude.{
  ℕ, ◌+◌, ◌-◌, ◌*◌, ◌/◌, ◌%◌, ◌≤◌, ◌<◌, ◌≡◌, ◌≢◌, ◌⊎◌, inl, inr, refl, ap, ◌∙◌, arith, false,
  Bool-cases, some, ◌&&◌, leb, ltb, subst,
}
use os1_meaty_skeleton.Paging.{Memory, Paging, u32, entry_at, table_at}
use os1_meaty_skeleton.Paging.Init.{
  Multiboot, pte, map_kernel, map_buffers, map_high, map_single, map_first, map_all,
  init_paging_stage1, reserved_end_page, calculate_total_pages, get_last_phys_ram_addr,
}
use os1_meaty_skeleton.Paging.Walk.{walk, IsLayout, IsSpace}
use os1_meaty_skeleton.Paging.Steps.{Tables, Holds, Holds-walk, IsStep, IsStep-new, IsStep-kept}
use os1_meaty_skeleton.Paging.Kernel.{IsKernel, map_kernel-IsKernel}
use os1_meaty_skeleton.Paging.Start.{
  IsStart, buffers_start, buffer_pte, first_pte, present-pte, map_buffers-IsStep, map_high-IsStep,
  map_single-IsStep, map_first-IsStep,
}

-- The entries of the directory that are present refer to tables that are taken.
abbrev IsOwned : ℕ → ℕ → Tables → Type 0
IsOwned pool dir s =
    (i : ℕ)
    → i < 1024
    → s.0 (entry_at dir i) % 2 ≡ 1
    → (k : ℕ) × (k < s.1) × (s.0 (entry_at dir i) / 4096 * 4096 ≡ table_at pool k)

IsStep-IsOwned :
    {pool dir n first count : ℕ} {value : ℕ → ℕ} (s s' : Tables)
    → pool % 4096 ≡ 0
    → IsStep pool dir n value first count s s'
    → IsOwned pool dir s
    → IsOwned pool dir s'
IsStep-IsOwned {pool} {dir} {first} {count} s s' aligned h owned i lt odd =
    elim (Bool-cases (leb first i && ltb i (first + count))) [
      | inl e ↦
          let in_step : (first ≤ i) × (i < first + count) = ground arith in
          let at : s'.0 (entry_at dir i) ≡ s'.0 (entry_at dir (first + (i - first))) =
            ap (λ (j : ℕ). s'.0 (entry_at dir j)) (omega arith) in
          (
            s.1 + (i - first),
            omega (arith, h.next),
            omega (arith, at, h.pdes (i - first) (omega arith)),
          )
      | inr e ↦
          let same = h.other i lt (ground arith) in
          let (k, below, at) = owned i lt (omega (arith, same)) in
          (k, omega (arith, h.next), omega (arith, same))
    ]

IsKernel-IsOwned :
    {pool dir reserved : ℕ} (m : Memory) (s : Tables)
    → pool % 4096 ≡ 0
    → 0 < s.1
    → IsKernel pool dir reserved m s
    → ((i : ℕ) → i < 1024 → m (entry_at dir i) % 2 ≡ 1 → m (entry_at dir i) / 4096 * 4096 ≡ pool)
    → IsOwned pool dir s
IsKernel-IsOwned {pool} {dir} m s aligned some_table h booted i lt odd =
    elim (Bool-cases (ltb i s.1)) [
      | inl e ↦ (i, ground arith, omega (arith, (h.own i (ground arith)).0))
      | inr e ↦ elim (Bool-cases (leb 768 i && ltb i (s.1 + 768))) [
        | inl f ↦
            let in_kernel : (768 ≤ i) × (i < s.1 + 768) = ground arith in
            let at : s.0 (entry_at dir i) ≡ s.0 (entry_at dir (i - 768 + 768)) =
              ap (λ (j : ℕ). s.0 (entry_at dir j)) (omega arith) in
            (i - 768, omega arith, omega (arith, at, (h.own (i - 768) (omega arith)).1))
        | inr f ↦
            let same = h.other i lt (ground arith) in
            (0, some_table, omega (arith, same, booted i lt (omega (arith, same))))
      ]
    ]

module _ {pool dir : ℕ} (reserved last_phys : ℕ) (m : Memory) (l : IsLayout pool dir)
    (small : reserved ≤ 0x9000) where
  abbrev s1 : Tables
  s1 = map_kernel pool dir reserved m

  abbrev s2 : Tables
  s2 = map_buffers pool dir last_phys s1

  abbrev s3 : Tables
  s3 = map_high pool dir s2

  abbrev s4 : Tables
  s4 = map_single pool dir s3

  abbrev s5 : Tables
  s5 = map_first pool dir s4

  kernel : IsKernel pool dir reserved m s1
  kernel = map_kernel-IsKernel pool dir reserved m l small

  buffers : IsStep pool dir 0x2000 (buffer_pte last_phys) 832 9 s1 s2
  buffers = map_buffers-IsStep l last_phys s1 (omega (arith, kernel.next))

  high : IsStep pool dir 0x1ffff (λ i. pte (i + 0xe0000)) 896 128 s2 s3
  high = map_high-IsStep l s2 (omega (arith, kernel.next, buffers.next))

  single : IsStep pool dir 1 (λ i. pte (i + 0x9000)) 36 1 s3 s4
  single = map_single-IsStep l s3 (omega (arith, kernel.next, buffers.next, high.next))

  first : IsStep pool dir 1024 first_pte 768 1 s4 s5
  first = map_first-IsStep l s4 (omega (arith, kernel.next, buffers.next, high.next, single.next))

  -- A page that no step but the first concerns.
  from_kernel :
      (page w : ℕ)
      → (page / 1024 < 36) ⊎ ((769 ≤ page / 1024) × (page / 1024 < 832))
      → Holds pool dir s1 page w
      → Holds pool dir s5 page w
  from_kernel page w range h = IsStep-kept s4 s5 page w first (omega arith) (omega arith) (
      IsStep-kept s3 s4 page w single (omega arith) (omega arith) (
        IsStep-kept s2 s3 page w high (omega arith) (omega arith)
          (IsStep-kept s1 s2 page w buffers (omega arith) (omega arith) h)))

  -- The entry of a page as what the processor reads.
  translated :
      (page q : ℕ) → Holds pool dir s5 page (pte q) → walk s5.0 dir page ≡ some (q * 4096 % u32 + 3)
  translated page q h = Holds-walk s5 page (pte q) l h ∙ present-pte q

  exact :
      (page q : ℕ)
      → q < 0x100000
      → Holds pool dir s5 page (pte q)
      → walk s5.0 dir page ≡ some (q * 4096 + 3)
  exact page q lt h = translated page q h ∙ ap some (omega arith)

  first_page :
      (page q : ℕ)
      → page < 1024
      → first_pte page ≡ pte q
      → Holds pool dir s5 (0xc0000 + page) (pte q)
  first_page page q lt e =
      subst (λ w. Holds pool dir s5 (0xc0000 + page) w) e
        (IsStep-new s4 s5 page first (omega arith) lt)

  kernel_page :
      (page : ℕ)
      → (page < 1024) ⊎ (page < reserved)
      → page ≢ 5
      → Holds pool dir s5 (0xc0000 + page) (pte page)
  kernel_page page range ne = elim (Bool-cases (ltb page 1024)) [
    | inl e ↦
        let other : (leb 0xc0005 (page + 0xc0000) && ltb (page + 0xc0000) 0xc0006) ≡ false =
          ground arith in
        first_page page page (ground arith) (rw other refl)
    | inr e ↦
        let behind : 1024 ≤ page = ground arith in
        from_kernel (0xc0000 + page) _ (omega arith) (kernel.high page (omega arith))
  ]

  buffer_page :
      (page : ℕ) → page < 0x2000 → Holds pool dir s5 (0xd0000 + page) (buffer_pte last_phys page)
  buffer_page page lt = IsStep-kept s4 s5 (0xd0000 + page) _ first (omega arith) (omega arith) (
      IsStep-kept s3 s4 (0xd0000 + page) _ single (omega arith) (omega arith) (
        IsStep-kept s2 s3 (0xd0000 + page) _ high (omega arith) (omega arith)
          (IsStep-new s1 s2 page buffers (omega arith) lt)))

  high_page :
      (page : ℕ) → page < 0x1ffff → Holds pool dir s5 (0xe0000 + page) (pte (page + 0xe0000))
  high_page page lt = IsStep-kept s4 s5 (0xe0000 + page) _ first (omega arith) (omega arith) (
      IsStep-kept s3 s4 (0xe0000 + page) _ single (omega arith) (omega arith)
        (IsStep-new s2 s3 page high (omega arith) lt))

  single_page : Holds pool dir s5 0x9000 (pte 0x9000)
  single_page =
      IsStep-kept s4 s5 0x9000 (pte 0x9000) first (omega arith) (omega arith)
        (IsStep-new s3 s4 0 single (omega arith) (omega arith))

  steps-IsStart : IsStart pool dir reserved last_phys s5
  steps-IsStart = record {
    next = omega (arith, kernel.next, buffers.next, high.next, single.next, first.next);
    identity = λ page lt.
        exact page page (omega arith) (from_kernel page _ (omega arith) (kernel.low page lt));
    kernel = λ page range ne. exact (0xc0000 + page) page (omega arith) (kernel_page page range ne);
    fifth = exact 0xc0005 0xc0005 (omega arith) (first_page 5 0xc0005 (omega arith) refl);
    buffers = λ page lt.
        translated (0xd0000 + page) (page + buffers_start last_phys) (buffer_page page lt);
    high = λ page lt. exact (0xe0000 + page) (page + 0xe0000) (omega arith) (high_page page lt);
    single = exact 0x9000 0x9000 (omega arith) single_page;
  }

  steps-IsOwned :
      0 < reserved
      → ((i : ℕ) → i < 1024 → m (entry_at dir i) % 2 ≡ 1 → m (entry_at dir i) / 4096 * 4096 ≡ pool)
      → IsOwned pool dir s5
  steps-IsOwned some_page booted =
      let aligned = l.pool_aligned in
      IsStep-IsOwned s4 s5 aligned first (
        IsStep-IsOwned s3 s4 aligned single (
          IsStep-IsOwned s2 s3 aligned high (
            IsStep-IsOwned s1 s2 aligned buffers
              (IsKernel-IsOwned m s1 aligned (omega (arith, kernel.next)) kernel booted))))

-- For a kernel and modules that end below 144 MB, `init_paging_stage1` maps every page of them to
-- itself and, but for the page 0xc0005, at KERNEL_VBASE, the buffers from 0xd0000000 on to the end of
-- the physical memory, and the pages from 0xe0000000 on, but for the last one, to themselves. When
-- the directory had no other table than the first, the page tables can be used from then on.
pub init_paging_stage1-IsStart :
    (pool dir : ℕ) (mbi : Multiboot) (kernel_end : ℕ) (s : Paging)
    → IsLayout pool dir
    → let reserved = reserved_end_page mbi kernel_end in
      (0 < reserved) × (reserved ≤ 0x9000)
      → ((i : ℕ)
          → i < 1024
          → s.mem (entry_at dir i) % 2 ≡ 1
          → s.mem (entry_at dir i) / 4096 * 4096 ≡ pool)
      → let out = init_paging_stage1 pool dir mbi kernel_end s in
        IsStart pool dir
          (reserved_end_page mbi kernel_end)
          out.max_addr
          (out.mem, out.last_pagetable_idx)
        × IsSpace pool dir out
unfolding init_paging_stage1 map_all calculate_total_pages get_last_phys_ram_addr
init_paging_stage1-IsStart pool dir mbi kernel_end s l (some_page, small) booted =
    let reserved = reserved_end_page mbi kernel_end in
    let last_phys = (calculate_total_pages mbi s).max_addr in
    let start = steps-IsStart reserved last_phys s.mem l small in
    (
      start,
      record {
        layout = l;
        taken = omega (arith, start.next);
        tables = steps-IsOwned reserved last_phys s.mem l small some_page booted;
      },
    )
