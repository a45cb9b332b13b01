-- ===== src/Fat32.antt =====
-- The read-only FAT32 driver of src/kernel/fs/fat32.c: the FAT, cluster chains and file reads. The
-- directory reader is in the child `Dir`. The block device is a parameter.
pub mod Dir
pub mod Chain
pub mod Listing
pub mod LongName
mod Tests
use os1_meaty_skeleton.Prelude.{
  ℕ, zero, suc, ◌+◌, ◌-◌, ◌*◌, ◌/◌, ◌%◌, ◌^◌, Bool, not, ◌&&◌, Option, none, some, min, ltb, leb,
  ◌==◌, if◌then◌else◌,
}
use os1_meaty_skeleton.Prelude.Int.{ℤ, pos, to_int}
use os1_meaty_skeleton.Disk.{Buffer, Device, u16_at, u32_at, error, eio, eacces, einval, enosys}

-- `fat32_boot_sector_t`
pub record Bpb : Type 0 where
  pub bytes_per_sector : ℕ
  pub sectors_per_cluster : ℕ
  pub reserved_sectors : ℕ
  pub num_fats : ℕ
  pub fat_size : ℕ
  pub root_cluster : ℕ
  pub total_sectors : ℕ

-- `fat32_fs_t`, less the device.
pub record Fs : Type 0 where
  pub partition_lba : ℕ
  pub bpb : Bpb
  pub fat_start_lba : ℕ
  pub data_start_lba : ℕ

abbrev pub u32 : ℕ
u32 = 2 ^ 32

-- 0xFFFFFFFF, which ends a chain and stands for a failed read of the FAT.
abbrev pub end_of_chain : ℕ
end_of_chain = 0xffffffff

-- The fields that `fat32_init` reads from the boot sector.
abbrev pub read_bpb : Buffer → Bpb
read_bpb b = record {
  bytes_per_sector = u16_at b 0x0b;
  sectors_per_cluster = b 0x0d;
  reserved_sectors = u16_at b 0x0e;
  num_fats = b 0x10;
  fat_size = u32_at b 0x24;
  root_cluster = u32_at b 0x2c;
  total_sectors = u32_at b 0x20;
}

-- The two sums of `fat32_init`, on 32 bits.
abbrev pub layout : ℕ → Bpb → Fs
layout partition_lba bpb = record {
  partition_lba = partition_lba;
  bpb = bpb;
  fat_start_lba = (partition_lba + bpb.reserved_sectors) % u32;
  data_start_lba =
      ((partition_lba + bpb.reserved_sectors) % u32 + bpb.num_fats * bpb.fat_size) % u32;
}

-- `fat32_init`: the result, and the file system where it is 0.
unfoldable pub init : Option Device → ℕ → ℤ × Option Fs
init none partition_lba = (error eio, none)
init (some dev) partition_lba = elim (dev partition_lba 1) [
  | none ↦ (error eio, none)
  | some b ↦
      if not (u16_at b 0x1fe == 0xaa55)
      then (error eio, none)
      else (if not ((read_bpb b).bytes_per_sector == 512)
          then (error einval, none)
          else (pos 0, some (layout partition_lba (read_bpb b))))
]

-- `fat32_open`: reading alone is allowed. `mounted` says whether `global_fs` is set.
unfoldable pub open_file : Bool → ℕ → ℤ
open_file mounted flags =
    if flags % 2 == 1 then error eacces else (if mounted then pos 0 else error eio)

-- sizeof(cluster_buffer)
abbrev pub cluster_buffer_size : ℕ
cluster_buffer_size = 4096

module _ (dev : Device) (fs : Fs) where
  -- `fat32_read_fat_entry`: 28 bits of the entry.
  unfoldable pub read_fat_entry : ℕ → ℕ
  read_fat_entry cluster =
      let fat_offset = cluster * 4 % u32 in
      let fat_lba = (fs.fat_start_lba + fat_offset / fs.bpb.bytes_per_sector) % u32 in
      elim (dev fat_lba 1) [
        | none ↦ end_of_chain
        | some b ↦ u32_at b (fat_offset % fs.bpb.bytes_per_sector) % 0x10000000
      ]

  unfoldable pub next_cluster : ℕ → ℕ
  next_cluster cluster =
      let next = read_fat_entry cluster in if leb 0x0ffffff8 next then end_of_chain else next

  unfoldable pub cluster_to_lba : ℕ → ℕ
  cluster_to_lba cluster =
      (fs.data_start_lba + (cluster + u32 - 2) * fs.bpb.sectors_per_cluster) % u32

  unfoldable pub read_cluster : ℕ → Option Buffer
  read_cluster cluster = dev (cluster_to_lba cluster) fs.bpb.sectors_per_cluster

  abbrev pub cluster_size : ℕ
  cluster_size = fs.bpb.sectors_per_cluster * fs.bpb.bytes_per_sector

  -- The first loop of `fat32_read` goes along the chain to the cluster that holds the offset.
  unfoldable pub seek : ℕ → ℕ → ℕ → Option (ℕ × ℕ)
  seek zero cluster offset = none
  seek (suc k) cluster offset =
      let rest = seek k (next_cluster cluster) (offset - cluster_size) in
      if leb cluster_size offset && not (cluster == end_of_chain)
      then rest
      else some (cluster, offset)

  -- The second loop counts the bytes of each cluster. Its call of `memcpy` stands inside a comment,
  -- so that nothing is written to the caller's buffer. `none` is a cluster that does not fit
  -- `cluster_buffer`, which has 4096 bytes.
  unfoldable pub count_bytes : ℕ → ℕ → ℕ → ℕ → ℕ → Option ℤ
  count_bytes zero cluster offset bytes_read count = none
  count_bytes (suc k) cluster offset bytes_read count =
      let rest =
        count_bytes k (next_cluster cluster) 0
          (bytes_read + min (count - bytes_read) (cluster_size - offset)) count in
      if not (cluster == end_of_chain) && ltb bytes_read count
      then (if ltb cluster_buffer_size cluster_size
          then none
          else (elim (read_cluster cluster) [ none ↦ some (error eio) | some _ ↦ rest ]))
      else some (to_int bytes_read)

  -- `fat32_read` at a node's first cluster, with `0 ≤ offset`: the result and the caller's buffer.
  -- `none` means that a loop does not end, as one does not where a cluster has no bytes, or that
  -- the code writes behind `cluster_buffer`.
  unfoldable pub read_file : ℕ → Buffer → ℕ → ℕ → Option (ℤ × Buffer)
  read_file cluster buf count offset = elim (seek (suc offset) cluster offset) [
    | none ↦ none
    | some (c, o) ↦ elim (count_bytes (suc count) c o 0 count) [
      | none ↦ none
      | some r ↦ some (r, buf)
    ]
  ]

-- `fat32_write`, `fat32_unlink` and `fat32_stat` are not implemented; `fat32_close` and
-- `fat32_access` always succeed.
abbrev pub write_file : ℤ
write_file = error enosys

abbrev pub unlink_file : ℤ
unlink_file = error enosys

abbrev pub stat_file : ℤ
stat_file = error enosys

abbrev pub close_file : ℤ
close_file = pos 0

abbrev pub access_file : ℤ
access_file = pos 0
