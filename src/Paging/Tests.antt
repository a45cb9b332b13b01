-- ===== src/Paging/Tests.antt =====
-- Runs of the page tables, and the theorems at concrete inputs.
use os1_meaty_skeleton.Prelude.{ℕ, ◌*◌, ◌≡◌, refl, false, arith, [], ◌∷◌, ◌||◌, ◌==◌, some, inl}
use os1_meaty_skeleton.Prelude.Loops.{for}
use os1_meaty_skeleton.Prelude.Int.{pos, negsuc}
use os1_meaty_skeleton.Paging.{
  Paging, map_phys_to_virt, set_phys_page_mapped, phys_page_already_mapped, low_address,
  mappage_phys_to_virt, get_free_pagetable, enter_table, set_entry, is_one, mark, write,
  flush_table,
}
use os1_meaty_skeleton.Paging.Init.{
  Multiboot, init_paging_stage1, reserved_end_page, get_last_module_phys_addr, last_end,
}
use os1_meaty_skeleton.Paging.Walk.{walk, entry_in, slot_in, present, IsLayout, IsSpace}
use os1_meaty_skeleton.Paging.Answers.{IsAnswer, map_phys_to_virt-IsAnswer}
use os1_meaty_skeleton.Paging.Start.{IsStart}
use os1_meaty_skeleton.Paging.Whole.{init_paging_stage1-IsStart}
use os1_meaty_skeleton.Paging.Bitmap.{marked, truth, set_phys_page_mapped-marked}

abbrev pool : ℕ
pool = 0x200000

abbrev dir : ℕ
dir = 0x1ff000

-- Nothing is mapped, and nothing marked.
abbrev blank : Paging
blank = record {
  mem = λ x. 0;
  last_pagetable_idx = 0;
  bitmap = λ i. 0;
  max_addr = 0;
  total_pages = 0;
}

layout-IsLayout : IsLayout pool dir
layout-IsLayout = record {
  pool_aligned = refl;
  dir_aligned = refl;
  fits = omega arith;
  apart = inl (omega arith);
  below = omega arith;
}

blank-IsSpace : IsSpace pool dir blank
blank-IsSpace = record {
  layout = layout-IsLayout;
  taken = omega arith;
  tables = λ i lt odd. absurd (omega arith);
}

map_phys_to_virt-IsAnswer_example :
    IsAnswer pool dir blank 0x5000 0x401000 3 false
      (map_phys_to_virt pool blank dir 0x5000 0x401000 3 false)
map_phys_to_virt-IsAnswer_example =
    map_phys_to_virt-IsAnswer pool dir blank 0x5000 0x401000 3 false blank-IsSpace (omega arith)
      (omega arith) (omega arith)

set_phys_page_mapped-marked_example :
    (marked (set_phys_page_mapped blank 70).bitmap 70 ≡ (70 == 70) || marked blank.bitmap 70)
    × (truth (phys_page_already_mapped blank 70) ≡ marked blank.bitmap 70)
set_phys_page_mapped-marked_example =
    set_phys_page_mapped-marked blank 70 70 (omega arith) (omega arith)

-- 128 MB of memory, a kernel that ends at 0x280000 and a module that ends at 0x312345.
abbrev boot : Multiboot
boot = record {
  flags = 0x48;
  mmap =
      record { addr = 0; len = 0x9fc00; kind = 1 }
      ∷ record { addr = 0x100000; len = 0x7ee0000; kind = 1 }
      ∷ [];
  mod_ends = 0x312345 ∷ [];
}

-- The end of the module, rounded up, and one page more.
reserved_boot : reserved_end_page boot 0x280000 ≡ 0x314
unfolding reserved_end_page get_last_module_phys_addr last_end
reserved_boot = refl

init_paging_stage1-IsStart_example :
    let out = init_paging_stage1 pool dir boot 0x280000 blank in
    IsStart pool dir
      (reserved_end_page boot 0x280000)
      out.max_addr
      (out.mem, out.last_pagetable_idx)
    × IsSpace pool dir out
init_paging_stage1-IsStart_example =
    init_paging_stage1-IsStart pool dir boot 0x280000 blank layout-IsLayout
      (omega (arith, reserved_boot)) (λ i lt odd. absurd (omega arith))

low_pool : low_address 0xc0200000 ≡ pool
unfolding low_address
low_pool = refl

-- The new entry, as the processor reads it.
mapped_test :
    walk (map_phys_to_virt pool blank dir 0x5000 0x401000 3 false).0.mem dir 0x401 ≡ some 0x5003
unfolding map_phys_to_virt mappage_phys_to_virt get_free_pagetable enter_table set_entry
    phys_page_already_mapped is_one set_phys_page_mapped mark write flush_table for entry_in slot_in
    present
mapped_test = refl

-- A page that is marked is mapped once more all the same, unless it is a multiple of 32.
remapped_test :
    (map_phys_to_virt pool (set_phys_page_mapped blank 33) dir (33 * 4096) 0x401000 3 false).1
    ≡ pos 0
unfolding map_phys_to_virt mappage_phys_to_virt get_free_pagetable enter_table set_entry
    phys_page_already_mapped is_one set_phys_page_mapped mark
remapped_test = refl

refused_test :
    (map_phys_to_virt pool (set_phys_page_mapped blank 64) dir (64 * 4096) 0x401000 3 false).1
    ≡ negsuc 0
unfolding map_phys_to_virt mappage_phys_to_virt get_free_pagetable enter_table set_entry
    phys_page_already_mapped is_one set_phys_page_mapped mark
refused_test = refl
