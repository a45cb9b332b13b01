-- ===== src/Fat32/Tests.antt =====
-- The FAT32 theorems at a small disk, and runs of the code.
use os1_meaty_skeleton.Prelude.{
  ℕ, ◌≡◌, refl, some, List, [], ◌∷◌, arith, get_or, ◌==◌, if◌then◌else◌,
}
use os1_meaty_skeleton.Prelude.Int.{pos}
use os1_meaty_skeleton.Disk.{Buffer, Device}
use os1_meaty_skeleton.Fat32.{
  Fs, read_fat_entry, next_cluster, cluster_to_lba, read_cluster, read_file,
}
use os1_meaty_skeleton.Fat32.Dir.{part_of, padded, dirent_of, short_name, readdir}
use os1_meaty_skeleton.Fat32.Chain.{read_file-untouched}
use os1_meaty_skeleton.Fat32.Listing.{LabelFirst, second, readdir-repeats}
use os1_meaty_skeleton.Fat32.LongName.{name_of}

abbrev bytes : List ℕ → Buffer
bytes cs k = get_or cs k 0

-- A directory: the volume label DISK, and the file A.TXT.
abbrev directory : List ℕ
directory =
    b'D' ∷ b'I' ∷ b'S' ∷ b'K' ∷ b' ' ∷ b' ' ∷ b' ' ∷ b' ' ∷ b' ' ∷ b' ' ∷ b' ' ∷ 0x08 ∷ 0 ∷ 0 ∷ 0
    ∷ 0 ∷ 0 ∷ 0 ∷ 0 ∷ 0 ∷ 0 ∷ 0 ∷ 0 ∷ 0 ∷ 0 ∷ 0 ∷ 0 ∷ 0 ∷ 0 ∷ 0 ∷ 0 ∷ 0 ∷ b'A' ∷ b' ' ∷ b' ' ∷ b' '
    ∷ b' ' ∷ b' ' ∷ b' ' ∷ b' ' ∷ b'T' ∷ b'X' ∷ b'T' ∷ 0x20 ∷ 0 ∷ 0 ∷ 0 ∷ 0 ∷ 0 ∷ 0 ∷ 0 ∷ 0 ∷ 0 ∷ 0
    ∷ 0 ∷ 0 ∷ 0 ∷ 0 ∷ 3 ∷ 0 ∷ []

-- The FAT: the clusters 2 and 3 are the last of their chains.
abbrev fat : List ℕ
fat = 0 ∷ 0 ∷ 0 ∷ 0 ∷ 0 ∷ 0 ∷ 0 ∷ 0 ∷ 0xff ∷ 0xff ∷ 0xff ∷ 0x0f ∷ 0xff ∷ 0xff ∷ 0xff ∷ 0x0f ∷ []

-- The sector 32 is the FAT, 64 the directory, and 65 a file of the byte 7.
abbrev disk : Device
disk lba n =
    some (if lba == 32 then bytes fat else (if lba == 64 then bytes directory else (λ _. 7)))

abbrev volume : Fs
volume = record {
  partition_lba = 0;
  bpb = record {
    bytes_per_sector = 512;
    sectors_per_cluster = 1;
    reserved_sectors = 32;
    num_fats = 1;
    fat_size = 32;
    root_cluster = 2;
    total_sectors = 1000;
  };
  fat_start_lba = 32;
  data_start_lba = 64;
}

abbrev empty : Buffer
empty _ = 0

read_file-untouched_example : read_file disk volume 3 empty 100 500 ≡ some (pos 12, empty)
unfolding next_cluster read_fat_entry read_cluster cluster_to_lba
read_file-untouched_example =
    read_file-untouched disk volume 3 (3 ∷ []) empty 100 500 (omega arith) (omega arith)
      (refl, omega arith, ((λ _. 7), refl), refl)

label_first : LabelFirst (bytes directory)
label_first = record {
  label = record { not_end = omega arith; not_deleted = omega arith; not_lfn = omega arith };
  labelled = refl;
  file = record { not_end = omega arith; not_deleted = omega arith; not_lfn = omega arith };
  unlabelled = refl;
}

readdir-repeats_example :
    (readdir disk volume 2 0 ≡ some (pos 1, some (second (bytes directory)), 1))
    × (readdir disk volume 2 1 ≡ some (pos 1, some (second (bytes directory)), 2))
unfolding cluster_to_lba
readdir-repeats_example =
    readdir-repeats disk volume 2 (bytes directory) (omega arith) (omega arith) refl label_first

a_txt :
    second (bytes directory)
    ≡ record { d_ino = 3; d_name = b'A' ∷ b'.' ∷ b'T' ∷ b'X' ∷ b'T' ∷ []; d_type = 8 }
unfolding dirent_of short_name
a_txt = refl

-- The long name "ab" of the file A.TXT.
abbrev long : List ℕ
long =
    0x41 ∷ b'a' ∷ 0 ∷ b'b' ∷ 0 ∷ 0 ∷ 0 ∷ 0xff ∷ 0xff ∷ 0xff ∷ 0xff ∷ 0x0f ∷ 0 ∷ 0x5d ∷ 0xff ∷ 0xff
    ∷ 0xff ∷ 0xff ∷ 0xff ∷ 0xff ∷ 0xff ∷ 0xff ∷ 0xff ∷ 0xff ∷ 0xff ∷ 0xff ∷ 0 ∷ 0 ∷ 0xff ∷ 0xff
    ∷ 0xff ∷ 0xff ∷ []

long_name : name_of (bytes long ∷ []) ≡ b'a' ∷ b'b' ∷ 0 ∷ []
unfolding part_of padded
long_name = refl
