-- ===== src/Gdt.antt =====
-- The global descriptor table of src/kernel/arch/i386/gdt.c. The table stands at a fixed address and
-- is a function from its indices; loading it into the processor is outside this model.
pub mod Decode
mod Tests
use os1_meaty_skeleton.Prelude.{ℕ, ◌+◌, ◌-◌, ◌*◌, ◌/◌, ◌%◌, ◌==◌, if◌then◌else◌}

-- `gdt_entry_t`
pub record GdtEntry : Type 0 where
  pub limit_low : ℕ
  pub base_low : ℕ
  pub base_middle : ℕ
  pub access : ℕ
  pub granularity : ℕ
  pub base_high : ℕ

-- `gdt_descriptor_t`
pub record GdtDescriptor : Type 0 where
  pub limit : ℕ
  pub base : ℕ

abbrev pub Gdt : Type 0
Gdt = ℕ → GdtEntry

-- The fields of `gdt_set_gate`, at arguments of 32 and 8 bits. The two halves of `granularity` are
-- apart, so that `|=` adds them.
unfoldable pub gate : ℕ → ℕ → ℕ → ℕ → GdtEntry
gate base limit access gran = record {
  base_low = base % 0x10000;
  base_middle = base / 0x10000 % 0x100;
  base_high = base / 0x1000000 % 0x100;
  limit_low = limit % 0x10000;
  granularity = limit / 0x10000 % 0x10 + gran / 0x10 % 0x10 * 0x10;
  access = access;
}

-- `gdt_set_gate`
unfoldable pub gdt_set_gate : Gdt → ℕ → ℕ → ℕ → ℕ → ℕ → Gdt
gdt_set_gate gdt num base limit access gran i =
    if i == num then gate base limit access gran else gdt i

-- The gates that `init_gdt` sets, in their order.
unfoldable pub init_gates : Gdt → Gdt
init_gates gdt =
    let null_gate = gdt_set_gate gdt 0 0 0 0 0 in
    let kernel_code = gdt_set_gate null_gate 1 0 0xffffffff 0x9a 0xcf in
    let kernel_data = gdt_set_gate kernel_code 2 0 0xffffffff 0x92 0xcf in
    let user_code = gdt_set_gate kernel_data 3 0 0xffffffff 0xfa 0xcf in
    let user_data = gdt_set_gate user_code 4 0 0xffffffff 0xf2 0xcf in
    let code16 = gdt_set_gate user_data 5 0 0xffff 0x9a 0x0f in
    gdt_set_gate code16 6 0 0xffff 0x92 0x0f

-- GDT_NUM_ENTRIES, sizeof(gdt_entry_t) and GDT_PHYS_ADDR
abbrev pub init_descriptor : GdtDescriptor
init_descriptor = record { limit = 7 * 8 - 1; base = 0x90000 }
