-- ===== src/Disk.antt =====
-- What the file systems of src/kernel/fs share: a block device (`block_dev_t` of
-- src/kernel/include/kernel/drivers/ide.h) and little-endian fields of a
-- byte buffer, which other headers are read with too.
use os1_meaty_skeleton.Prelude.{ℕ, ◌+◌, ◌*◌, Option, List}
use os1_meaty_skeleton.Prelude.Int.{ℤ, sub_ℕ}

abbrev pub Buffer : Type 0
Buffer = ℕ → ℕ

-- `read_sectors(lba, buffer, count)`: the bytes read, or `none` where the call does not return 0.
abbrev pub Device : Type 0
Device = ℕ → ℕ → Option Buffer

abbrev pub u16_at : Buffer → ℕ → ℕ
u16_at b o = b o + 256 * b (o + 1)

abbrev pub u32_at : Buffer → ℕ → ℕ
u32_at b o = u16_at b o + 0x10000 * u16_at b (o + 2)

-- An error code is returned negated.
abbrev pub error : ℕ → ℤ
error e = sub_ℕ 0 e

abbrev pub eio : ℕ
eio = 5

abbrev pub eacces : ℕ
eacces = 13

abbrev pub einval : ℕ
einval = 22

abbrev pub enosys : ℕ
enosys = 38

-- `struct dirent`, with the name up to its terminator.
pub record Dirent : Type 0 where
  pub d_ino : ℕ
  pub d_name : List ℕ
  pub d_type : ℕ
