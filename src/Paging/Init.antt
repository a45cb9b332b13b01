-- ===== src/Paging/Init.antt =====
-- The two stages that set paging up at the start, in src/kernel/arch/i386/paging.c, and what they
-- read of the boot information. Loading the directory into the processor is outside this model.
use os1_meaty_skeleton.Prelude.{
  ℕ, ◌+◌, ◌-◌, ◌*◌, ◌/◌, ◌%◌, bit_and, bit_or, List, [], ◌∷◌, not, ◌&&◌, ltb, leb, length, ◌==◌,
  if◌then◌else◌,
}
use os1_meaty_skeleton.Prelude.Int.{ℤ, pos}
use os1_meaty_skeleton.Prelude.Loops.{for}
use os1_meaty_skeleton.Paging.{
  Memory, u32, write, page_size, page_table_size, bitmap_max_size, table_at, entry_at, Paging, mark,
  with_bitmap,
}

-- A region of memory, with 64-bit address and length.
pub record Region : Type 0 where
  pub addr : ℕ
  pub len : ℕ
  pub kind : ℕ

-- `multiboot_info_t`: the regions, and the ends of the modules.
pub record Multiboot : Type 0 where
  pub flags : ℕ
  pub mmap : List Region
  pub mod_ends : List ℕ

abbrev multiboot_info_mods : ℕ
multiboot_info_mods = 0x8

abbrev multiboot_info_mem_map : ℕ
multiboot_info_mem_map = 0x40

-- The loop of `calculate_total_pages`: the last region of available memory (1) at 1 MB.
unfoldable pub scan_regions : List Region → ℕ → ℕ
scan_regions [] max_addr = max_addr
scan_regions (r ∷ rs) max_addr =
    scan_regions rs (if r.kind == 1 && r.addr == 0x100000 then (r.addr + r.len) % u32 else max_addr)

-- `calculate_total_pages`
unfoldable pub calculate_total_pages : Multiboot → Paging → Paging
calculate_total_pages mbi s =
    let known = not (bit_and mbi.flags multiboot_info_mem_map == 0) in
    let max_addr = if known then scan_regions mbi.mmap s.max_addr else s.max_addr in
    record s {
      max_addr = max_addr;
      total_pages = if known then max_addr / page_size else 16 * 1024 * 1024 / page_size;
    }

-- `get_last_phys_ram_addr`
unfoldable pub get_last_phys_ram_addr : Paging → ℕ
get_last_phys_ram_addr s = s.max_addr

unfoldable pub last_end : List ℕ → ℕ → ℕ
last_end [] ret = ret
last_end (end ∷ ends) ret = last_end ends (if ltb ret end then end else ret)

-- `get_last_module_phys_addr`
unfoldable pub get_last_module_phys_addr : Multiboot → ℕ
get_last_module_phys_addr mbi =
    if bit_and mbi.flags multiboot_info_mods == 0
    then 0
    else (if length mbi.mod_ends == 0 then 0 else last_end mbi.mod_ends 0)

-- The first page behind the kernel and the modules, as both stages compute it.
unfoldable pub reserved_end_page : Multiboot → ℕ → ℕ
reserved_end_page mbi kernel_end =
    let last = get_last_module_phys_addr mbi in
    let reserved = if ltb kernel_end last then last else kernel_end in
    (reserved + 2 * page_size - 1) % u32 / page_size

-- The loop of both stages that marks the pages in use.
unfoldable pub mark_pages : ℕ → (ℕ → ℕ) → ℕ → ℕ
mark_pages n bitmap = for n 0 (λ i b. mark b (i / 32) (i % 32)) bitmap

-- `mark_initial_used_physical_pages`
unfoldable pub mark_initial_used_physical_pages : Multiboot → ℕ → Paging → Paging
mark_initial_used_physical_pages mbi kernel_end s =
    let cleared = for bitmap_max_size 0 (λ i b j. if j == i then 0 else b j) s.bitmap in
    with_bitmap s (mark_pages (reserved_end_page mbi kernel_end) cleared)

-- `init_paging_stage2`
unfoldable pub init_paging_stage2 : Multiboot → ℕ → Paging → Paging × ℤ
init_paging_stage2 mbi kernel_end s = (mark_initial_used_physical_pages mbi kernel_end s, pos 0)

-- PAGE_PRESENT | PAGE_WRITE
abbrev present_write : ℕ
present_write = 3

-- The entry that maps a page.
abbrev pub pte : ℕ → ℕ
pte page = bit_or (page * page_size % u32) present_write

-- A loop that fills `n` entries of page tables from table `first` on; turn `i` writes `value i`. The
-- source counts pages from a multiple of the size of a table, so that the entry is the same.
unfoldable pub fill_tables : ℕ → ℕ → ℕ → (ℕ → ℕ) → Memory → Memory
fill_tables pool first n value m =
    for n 0
      (λ i m.
        write m (entry_at (table_at pool (first + i / page_table_size)) (i % page_table_size))
          (value i))
      m

-- A loop over the entries `first`, ... of the directory, each of which takes the next table.
unfoldable pub fill_directory : ℕ → ℕ → ℕ → ℕ → Memory × ℕ → Memory × ℕ
fill_directory pool dir n first s =
    for n first
      (λ i s. (write s.0 (entry_at dir i) (bit_or (table_at pool s.1) present_write), s.1 + 1)) s

-- The loop over the entries of the directory for the kernel, at 0 and at KERNEL_VBASE.
unfoldable pub fill_kernel_directory : ℕ → ℕ → ℕ → Memory → Memory
fill_kernel_directory pool dir n m =
    for n 0
      (λ i m.
        let pde = bit_or (table_at pool i) present_write in
        write (write m (entry_at dir i) pde) (entry_at dir (i + 768)) pde)
      m

-- The first step: physical memory up to the reserved end at 0 and at KERNEL_VBASE. The next table is
-- the one behind.
unfoldable pub map_kernel : ℕ → ℕ → ℕ → Memory → Memory × ℕ
map_kernel pool dir reserved m =
    let kernel_end_pde = (reserved + page_table_size - 1) / page_table_size in
    (
      fill_kernel_directory pool dir kernel_end_pde (fill_tables pool 0 reserved pte m),
      kernel_end_pde,
    )

-- The second step: the buffers, from 0xd0000000 on, to the end of the physical memory.
unfoldable pub map_buffers : ℕ → ℕ → ℕ → Memory × ℕ → Memory × ℕ
map_buffers pool dir last_phys s =
    let start = (last_phys + u32 - 0x02001000) % u32 / page_size in
    let tables = fill_tables pool s.1 (0xd2000 - 0xd0000) (λ i. pte (i + start)) s.0 in
    fill_directory pool dir (0xd2000 / page_table_size + 1 - 0xd0000 / page_table_size)
      (0xd0000 / page_table_size) (tables, s.1)

-- The third step: the pages from 0xe0000000 on to themselves.
unfoldable pub map_high : ℕ → ℕ → Memory × ℕ → Memory × ℕ
map_high pool dir s =
    let tables = fill_tables pool s.1 (0xfffff - 0xe0000) (λ i. pte (i + 0xe0000)) s.0 in
    fill_directory pool dir (1023 + 1 - 896) 896 (tables, s.1)

-- The fourth step: the page at 0x09000000 to itself.
unfoldable pub map_single : ℕ → ℕ → Memory × ℕ → Memory × ℕ
map_single pool dir s =
    let tables = fill_tables pool s.1 (0x9001 - 0x9000) (λ i. pte (i + 0x9000)) s.0 in
    fill_directory pool dir (0x9001 / page_table_size + 1 - 0x9000 / page_table_size)
      (0x9000 / page_table_size) (tables, s.1)

-- The last step: the first 4 MB at KERNEL_VBASE once more, but for the page 0xc0005.
unfoldable pub map_first : ℕ → ℕ → Memory × ℕ → Memory × ℕ
map_first pool dir s =
    let entry : ℕ → ℕ = λ i.
      if leb 0xc0005 (i + 0xc0000) && ltb (i + 0xc0000) 0xc0006 then pte (i + 0xc0000) else pte i in
    let tables = fill_tables pool s.1 (0xc0400 - 0xc0000) entry s.0 in
    fill_directory pool dir (0xc0006 / page_table_size + 1 - 0xc0005 / page_table_size)
      (0xc0005 / page_table_size) (tables, s.1)

-- The page tables and the directory of `init_paging_stage1`, from the reserved end on.
unfoldable pub map_all : ℕ → ℕ → ℕ → ℕ → Memory → Memory × ℕ
map_all pool dir reserved last_phys m = map_first pool dir (
    map_single pool dir
      (map_high pool dir (map_buffers pool dir last_phys (map_kernel pool dir reserved m))))

-- `init_paging_stage1`
unfoldable pub init_paging_stage1 : ℕ → ℕ → Multiboot → ℕ → Paging → Paging
init_paging_stage1 pool dir mbi kernel_end s =
    let s1 = calculate_total_pages mbi s in
    let reserved = reserved_end_page mbi kernel_end in
    let mapped = map_all pool dir reserved (get_last_phys_ram_addr s1) s1.mem in
    record s1 {
      mem = mapped.0;
      last_pagetable_idx = mapped.1;
      bitmap = mark_pages reserved s1.bitmap;
    }
