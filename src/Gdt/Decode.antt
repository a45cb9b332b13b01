-- ===== src/Gdt/Decode.antt =====
-- What the processor reads from the descriptors of src/kernel/arch/i386/gdt.c.
use os1_meaty_skeleton.Prelude.{
  ℕ, ◌+◌, ◌*◌, ◌/◌, ◌%◌, ◌^◌, ◌<◌, ◌≡◌, ◌≢◌, refl, true, false, arith, ◌==◌,
}
use os1_meaty_skeleton.Gdt.{GdtEntry, Gdt, gate, gdt_set_gate}

-- The 32-bit base, the 20-bit limit and the four flags of a descriptor.
abbrev pub base_of : GdtEntry → ℕ
base_of e = e.base_low + 0x10000 * e.base_middle + 0x1000000 * e.base_high

abbrev pub limit_of : GdtEntry → ℕ
limit_of e = e.limit_low + 0x10000 * (e.granularity % 0x10)

abbrev pub flags_of : GdtEntry → ℕ
flags_of e = e.granularity / 0x10

-- The gate that `gdt_set_gate` writes decodes to the base, the low 20 bits of the limit, the access
-- byte and the upper half of `gran`, and no other gate changes.
pub gdt_set_gate-decoded :
    (gdt : Gdt) (num base limit access gran other : ℕ)
    → base < 2 ^ 32
    → gran < 0x100
    → other ≢ num
    → let gdt' = gdt_set_gate gdt num base limit access gran in
      (base_of (gdt' num) ≡ base)
      × (limit_of (gdt' num) ≡ limit % 0x100000)
      × ((gdt' num).access ≡ access)
      × (flags_of (gdt' num) ≡ gran / 0x10)
      × (gdt' other ≡ gdt other)
unfolding gdt_set_gate gate
gdt_set_gate-decoded gdt num base limit access gran other lt small ne =
    let here : (num == num) ≡ true = ground arith in
    let there : (other == num) ≡ false = ground arith in
    rw (here, there) (omega arith, omega arith, refl, omega arith, refl)
