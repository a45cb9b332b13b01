-- ===== src/Mbr/Tests.antt =====
-- The theorem on the partition table at a table of two partitions.
use os1_meaty_skeleton.Prelude.{◌≡◌, refl, some, ◌==◌, if◌then◌else◌}
use os1_meaty_skeleton.Prelude.Int.{pos}
use os1_meaty_skeleton.Disk.{Buffer, Device}
use os1_meaty_skeleton.Mbr.{scan, mbr_result, mbr_parse}
use os1_meaty_skeleton.Mbr.First.{Answers, mbr_parse-Answers}

-- A Linux partition, and FAT32 at the block 2048.
abbrev table : Buffer
table x =
    if x == 450
    then 0x83
    else (if x == 466
        then 0x0c
        else (if x == 471 then 8 else (if x == 510 then 0x55 else (if x == 511 then 0xaa else 0))))

abbrev disk : Device
disk lba n = some table

mbr_parse-Answers_example : Answers table (mbr_parse disk)
mbr_parse-Answers_example = mbr_parse-Answers disk table refl refl

found : mbr_parse disk ≡ (pos 0, some (2048, 0))
unfolding mbr_parse mbr_result scan
found = refl
