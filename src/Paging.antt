-- ===== src/Paging.antt =====
-- The page tables of src/kernel/arch/i386/paging.c. Memory is a function from the physical addresses
-- of words to the words; page directories and the pool of page tables lie in it. The messages that
-- are printed are left out.
pub mod Init
pub mod Words
pub mod Walk
pub mod Bitmap
pub mod Fresh
pub mod Mapping
pub mod Answers
pub mod Steps
pub mod Kernel
pub mod Start
pub mod Whole
mod Tests
use os1_meaty_skeleton.Prelude.{
  ℕ, ◌+◌, ◌-◌, ◌*◌, ◌/◌, ◌%◌, ◌^◌, bit_and, bit_or, Bool, true, false, not, ◌&&◌, ◌||◌, ltb, leb,
  ◌==◌, if◌then◌else◌,
}
use os1_meaty_skeleton.Prelude.Int.{ℤ, pos, negsuc}
use os1_meaty_skeleton.Prelude.Loops.{for}

abbrev pub Memory : Type 0
Memory = ℕ → ℕ

abbrev pub u32 : ℕ
u32 = 0x100000000

unfoldable pub write : Memory → ℕ → ℕ → Memory
write m p v x = if x == p then v else m x

-- PAGE_SIZE, PAGE_TABLE_SIZE, PAGETABLES_MAXSIZE and M_PHYS_P_BITMAP_MAX_SIZE
abbrev pub page_size : ℕ
page_size = 4096

abbrev pub page_table_size : ℕ
page_table_size = 1024

abbrev pub pagetables_maxsize : ℕ
pagetables_maxsize = 1280

abbrev pub bitmap_max_size : ℕ
bitmap_max_size = 32768

-- Where the tables are, the physical addresses of `pagetables` and `kernel_pagedir`: their virtual
-- ones less KERNEL_VBASE.
unfoldable pub low_address : ℕ → ℕ
low_address virt = (virt + u32 - 0xc0000000) % u32

-- `&table[i]` and `&table->entries[i]`. An object does not wrap around the address space.
abbrev pub table_at : ℕ → ℕ → ℕ
table_at pool i = pool + page_size * i

abbrev pub entry_at : ℕ → ℕ → ℕ
entry_at table i = table + 4 * i

-- The state: memory, `last_pagetable_idx`, and of `paging_state` the fields that are used.
pub record Paging : Type 0 where
  pub mem : Memory
  pub last_pagetable_idx : ℕ
  pub bitmap : ℕ → ℕ
  pub max_addr : ℕ
  pub total_pages : ℕ

abbrev pub with_mem : Paging → Memory → Paging
with_mem s m = record s { mem = m }

abbrev pub with_bitmap : Paging → (ℕ → ℕ) → Paging
with_bitmap s b = record s { bitmap = b }

abbrev pub take_table : Paging → Memory → Paging
take_table s m = record s { mem = m; last_pagetable_idx = s.last_pagetable_idx + 1 }

-- The loop of `get_free_pagetable` that clears a table.
unfoldable pub flush_table : ℕ → Memory → Memory
flush_table table m = for page_table_size 0 (λ i m. write m (entry_at table i) 0) m

-- `get_free_pagetable`; `pool` is the low address of the tables.
unfoldable pub get_free_pagetable : ℕ → Paging → Bool → Paging × ℕ
get_free_pagetable pool s flush =
    if leb pagetables_maxsize s.last_pagetable_idx
    then (s, 0xffffffff)
    else (let table = table_at pool s.last_pagetable_idx in
        (take_table s (if flush then flush_table table s.mem else s.mem), table))

-- The index into the bitmap is a `uint16_t`.
abbrev pub bitmap_index : ℕ → ℕ
bitmap_index phys_page = phys_page / 32 % 0x10000

-- A word as the `int` that is returned.
abbrev pub to_int : ℕ → ℤ
to_int w = if ltb w 0x80000000 then pos w else negsuc (0xffffffff - w)

unfoldable pub phys_page_already_mapped : Paging → ℕ → ℤ
phys_page_already_mapped s phys_page =
    let i = bitmap_index phys_page in
    if ltb bitmap_max_size i then negsuc 0 else to_int (bit_and (s.bitmap i) (2 ^ (phys_page % 32)))

-- `mapped_phys_page_bitmap[i] |= 1 << digit`
unfoldable pub mark : (ℕ → ℕ) → ℕ → ℕ → ℕ → ℕ
mark bitmap i digit j = if j == i then bit_or (bitmap i) (2 ^ digit) else bitmap j

-- `set_phys_page_mapped`
unfoldable pub set_phys_page_mapped : Paging → ℕ → Paging
set_phys_page_mapped s phys_page =
    let i = bitmap_index phys_page in
    if ltb bitmap_max_size i then s else with_bitmap s (mark s.bitmap i (phys_page % 32))

-- The test `== 1` of the result.
unfoldable pub is_one : ℤ → Bool
is_one (pos n) = n == 1
is_one (negsuc n) = false

-- The second half of `mappage_phys_to_virt`: the entry of the page table is written.
unfoldable pub set_entry : Paging → ℕ → ℕ → ℕ → ℕ → Paging × ℤ
set_entry s pde phys_page pt_idx flags =
    let pt = bit_and (s.mem pde) 0xfffff000 in
    let s1 = set_phys_page_mapped s phys_page in
    let entry = bit_or (phys_page * page_size % u32) flags in
    (with_mem s1 (write s1.mem (entry_at pt pt_idx) entry), pos 0)

-- The new page table is entered into the directory, unless there was none.
unfoldable pub enter_table : Paging → ℕ → ℕ → ℕ → ℕ → ℕ → Paging × ℤ
enter_table s tmppt pde phys_page pt_idx flags =
    if tmppt == 0xffffffff
    then (s, negsuc 1)
    else set_entry (with_mem s (write s.mem pde (bit_or (bit_or tmppt 1) 2))) pde phys_page pt_idx
        flags

-- `mappage_phys_to_virt`
unfoldable pub mappage_phys_to_virt : ℕ → Paging → ℕ → ℕ → ℕ → ℕ → Bool → Paging × ℤ
mappage_phys_to_virt pool s page_dir phys_page virt_page flags force =
    let pde = entry_at page_dir (virt_page / 1024 % 0x10000) in
    let pt_idx = virt_page % 1024 in
    let fresh = get_free_pagetable pool s true in
    if not force && is_one (phys_page_already_mapped s phys_page)
    then (s, negsuc 0)
    else (if bit_and (s.mem pde) 1 == 0
        then enter_table fresh.0 fresh.1 pde phys_page pt_idx flags
        else set_entry s pde phys_page pt_idx flags)

-- `map_phys_to_virt`
unfoldable pub map_phys_to_virt : ℕ → Paging → ℕ → ℕ → ℕ → ℕ → Bool → Paging × ℤ
map_phys_to_virt pool s page_dir phys_addr virt_addr flags force =
    if not (bit_and phys_addr 0xfff == 0) || not (bit_and virt_addr 0xfff == 0)
    then (s, negsuc 1)
    else mappage_phys_to_virt pool s page_dir (phys_addr / page_size) (virt_addr / page_size) flags
        force
