-- ===== src/Gdt/Tests.antt =====
-- The theorem on descriptors at the kernel's code segment, and a run of the set-up.
use os1_meaty_skeleton.Prelude.{◌≡◌, refl, arith}
use os1_meaty_skeleton.Gdt.{Gdt, gate, gdt_set_gate, init_gates}
use os1_meaty_skeleton.Gdt.Decode.{base_of, limit_of, flags_of, gdt_set_gate-decoded}

abbrev blank : Gdt
blank _ = record {
  limit_low = 0;
  base_low = 0;
  base_middle = 0;
  access = 0;
  granularity = 0;
  base_high = 0;
}

abbrev one_gate : Gdt
one_gate = gdt_set_gate blank 1 0x12345678 0xffffffff 0x9a 0xcf

gdt_set_gate-decoded_example :
    (base_of (one_gate 1) ≡ 0x12345678)
    × (limit_of (one_gate 1) ≡ 0xfffff)
    × ((one_gate 1).access ≡ 0x9a)
    × (flags_of (one_gate 1) ≡ 0xc)
    × (one_gate 2 ≡ blank 2)
gdt_set_gate-decoded_example =
    gdt_set_gate-decoded blank 1 0x12345678 0xffffffff 0x9a 0xcf 2 (omega arith) (omega arith)
      (omega arith)

code16_limit : limit_of (init_gates blank 5) ≡ 0xffff
unfolding init_gates gdt_set_gate gate
code16_limit = refl
