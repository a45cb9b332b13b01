-- ===== src/Mbr.antt =====
-- The partition table of src/kernel/fs/mbr.c. The messages that are printed are left out.
pub mod First
mod Tests
use os1_meaty_skeleton.Prelude.{
  ℕ, zero, suc, ◌+◌, ◌*◌, Bool, not, ◌||◌, Option, none, some, ◌==◌, if◌then◌else◌,
}
use os1_meaty_skeleton.Prelude.Int.{ℤ, pos, negsuc}
use os1_meaty_skeleton.Disk.{Buffer, Device, u16_at, u32_at}

-- `struct mbr`: the four partitions are at 446, of 16 bytes each, and the signature at 510. A
-- partition has its type at 4, its first block at 8 and its size at 12.
abbrev pub partition_at : ℕ → ℕ
partition_at i = 446 + 16 * i

abbrev pub type_of : Buffer → ℕ → ℕ
type_of b i = b (partition_at i + 4)

abbrev pub extent_of : Buffer → ℕ → ℕ × ℕ
extent_of b i = (u32_at b (partition_at i + 8), u32_at b (partition_at i + 12))

-- The loop over the partitions, from `i` on: where and how large the FAT32 partition is.
unfoldable pub scan : ℕ → Buffer → ℕ → Option (ℕ × ℕ)
scan zero b i = none
scan (suc n) b i =
    let rest = scan n b (i + 1) in
    if type_of b i == 0x00
    then rest
    else (if type_of b i == 0x0b
        then some (extent_of b i)
        else (if type_of b i == 0x0c then some (extent_of b i) else rest))

-- The result, with the two numbers that the caller gets where it is 0.
unfoldable pub mbr_result : Option (ℕ × ℕ) → ℤ × Option (ℕ × ℕ)
mbr_result none = (negsuc 0, none)
mbr_result (some e) = (pos 0, some e)

-- `mbr_parse`
unfoldable pub mbr_parse : Device → ℤ × Option (ℕ × ℕ)
mbr_parse dev = elim (dev 0 1) [
  | none ↦ (negsuc 0, none)
  | some b ↦ if not (u16_at b 510 == 0xaa55) then (negsuc 0, none) else mbr_result (scan 4 b 0)
]
