-- ===== src/Fat32/LongName.antt =====
-- The long names that `fat32_readdir` of src/kernel/fs/fat32.c puts together.
use os1_meaty_skeleton.Prelude.{ℕ, suc, ◌+◌, ◌%◌, ◌/◌, ◌≡◌, List, [], ◌∷◌, ◌++◌, length}
use os1_meaty_skeleton.Prelude.Int.{pos}
use os1_meaty_skeleton.Disk.{Buffer}
use os1_meaty_skeleton.Fat32.Dir.{Lfn, lfn_step, part_of, padded}

-- The entries of a long name one after another, as the reader meets them.
abbrev pub steps : List Buffer → Lfn → Lfn
steps [] l = l
steps (e ∷ es) l = steps es (lfn_step e l)

-- The last part of a name stands first on the disk.
abbrev pub name_of : List Buffer → List ℕ
name_of [] = []
name_of (e ∷ es) = name_of es ++ padded (part_of e)

-- The sequence numbers go down to 1, and each entry has the checksum.
abbrev pub IsRun : ℕ → List Buffer → Type 0
IsRun c [] = c ≡ c
IsRun c (e ∷ es) = (e 0 / 0x40 % 2 ≡ 0) × (e 0 % 0x20 ≡ suc (length es)) × (e 13 ≡ c) × IsRun c es

-- The characters of the parts, which the buffer must hold.
abbrev pub total : List Buffer → ℕ
total [] = 0
total (e ∷ es) = length (part_of e) + total es

abbrev lfn : List ℕ → ℕ → ℕ → Lfn
lfn cs n c = record { chars = cs; sequence = pos n; checksum = c }
