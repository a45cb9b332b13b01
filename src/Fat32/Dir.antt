-- ===== src/Fat32/Dir.antt =====
-- `fat32_readdir` of src/kernel/fs/fat32.c: the next entry of a directory, with its long name.
use os1_meaty_skeleton.Prelude.{
  ℕ, zero, suc, ◌+◌, ◌-◌, ◌*◌, ◌/◌, ◌%◌, Bool, false, not, ◌&&◌, ◌||◌, Option, none, some, List, [],
  ◌∷◌, ◌++◌, length, take, replicate, ltb, leb, ◌==◌, if◌then◌else◌,
}
use os1_meaty_skeleton.Prelude.Int.{ℤ, pos, negsuc, sub_ℕ}
use os1_meaty_skeleton.Disk.{Buffer, Device, Dirent, u16_at, error, eio}
use os1_meaty_skeleton.Fat32.{Fs, u32, end_of_chain, next_cluster, cluster_to_lba}

-- `compute_sfn_checksum`: a byte is rotated right and the next byte is added, eleven times.
abbrev pub checksum_step : ℕ → ℕ → ℕ
checksum_step sum c = ((if sum % 2 == 1 then 0x80 else 0) + sum / 2 + c) % 256

unfoldable pub checksum_from : ℕ → List ℕ → ℕ
checksum_from sum [] = sum
checksum_from sum (c ∷ cs) = checksum_from (checksum_step sum c) cs

abbrev pub compute_sfn_checksum : List ℕ → ℕ
compute_sfn_checksum sfn = checksum_from 0 sfn

-- `n` bytes of a buffer from `o` on, and `n` 16-bit characters.
abbrev pub bytes_at : Buffer → ℕ → ℕ → List ℕ
bytes_at b o zero = []
bytes_at b o (suc n) = b o ∷ bytes_at b (o + 1) n

abbrev pub chars_at : Buffer → ℕ → ℕ → List ℕ
chars_at b o zero = []
chars_at b o (suc n) = u16_at b o ∷ chars_at b (o + 2) n

-- The characters before the first `stop`.
abbrev pub before : ℕ → List ℕ → List ℕ
before stop [] = []
before stop (c ∷ cs) = let rest = before stop cs in if c == stop then [] else c ∷ rest

-- The attribute byte, and its bits 0x08 (volume label) and 0x10 (directory).
abbrev pub attributes : Buffer → ℕ
attributes e = e 11

abbrev pub is_label : Buffer → Bool
is_label e = attributes e / 8 % 2 == 1

abbrev pub is_dir : Buffer → Bool
is_dir e = attributes e / 16 % 2 == 1

-- The state of a long name: `lfn_buffer` up to `lfn_pos`, `lfn_sequence` and `lfn_checksum`.
pub record Lfn : Type 0 where
  pub chars : List ℕ
  pub sequence : ℤ
  pub checksum : ℕ

abbrev pub no_lfn : Lfn
no_lfn = record { chars = []; sequence = pos 0; checksum = 0 }

-- `lfn_pos = 0; lfn_sequence = 0; lfn_buffer[0] = 0`
abbrev pub reset : Lfn → Lfn
reset l = record l { chars = []; sequence = pos 0 }

abbrev pub pred_ℤ : ℤ → ℤ
pred_ℤ (pos n) = sub_ℕ n 1
pred_ℤ (negsuc n) = negsuc (suc n)

abbrev pub is_pos : ℤ → ℕ → Bool
is_pos (pos n) k = n == k
is_pos (negsuc n) k = false

-- The characters of an entry that fit one byte.
abbrev pub narrow : List ℕ → List ℕ
narrow [] = []
narrow (c ∷ cs) = let rest = narrow cs in if leb c 0xff then c ∷ rest else rest

unfoldable pub part_of : Buffer → List ℕ
part_of e = narrow (chars_at e 1 5 ++ chars_at e 14 6 ++ chars_at e 28 2)

-- `strncpy(lfn_buffer, temp_lfn, temp_pos)`: behind a terminator come zeros.
unfoldable pub padded : List ℕ → List ℕ
padded cs = before 0 cs ++ replicate (length cs - length (before 0 cs)) 0

-- "Start of new LFN sequence"
abbrev pub start_lfn : Buffer → Lfn → Lfn
start_lfn e l =
    if e 0 / 0x40 % 2 == 1
    then record { chars = []; sequence = pos (e 0 % 0x20); checksum = e 13 }
    else l

-- The part goes before the others, when the buffer has room for it.
unfoldable pub add_part : List ℕ → Lfn → Lfn
add_part part s =
    let s' =
      if ltb (length s.chars + length part) 255
      then record s { chars = padded part ++ s.chars }
      else reset s in
    record s' { sequence = pred_ℤ s'.sequence }

-- "Invalid LFN sequence or checksum": where not, the part is added.
unfoldable pub accept : Buffer → Lfn → Lfn
accept e s =
    if not (is_pos s.sequence (e 0 % 0x20)) || not (s.checksum == e 13)
    then reset s
    else add_part (part_of e) s

-- One entry of a long name.
unfoldable pub lfn_step : Buffer → Lfn → Lfn
lfn_step e l = accept e (start_lfn e l)

-- "Build SFN": the name, and the extension behind a dot.
unfoldable pub short_name : Buffer → List ℕ
short_name e =
    before b' ' (bytes_at e 0 8)
    ++ (if e 8 == b' ' then [] else b'.' ∷ before b' ' (bytes_at e 8 3))

-- DT_DIR is 4 and DT_REG is 8.
unfoldable pub dirent_of : Buffer → List ℕ → Dirent
dirent_of e name = record {
  d_ino = u16_at e 20 * 0x10000 + u16_at e 26;
  d_name = take 255 (before 0 name);
  d_type = if is_dir e then 4 else 8;
}

unfoldable pub choose_name : Buffer → Lfn → List ℕ
choose_name e l =
    if ltb 0 (length l.chars)
      && is_pos l.sequence 0
      && (compute_sfn_checksum (bytes_at e 0 11) == l.checksum)
    then l.chars
    else short_name e

-- The variables that live across entries.
pub record Reader : Type 0 where
  pub lfn : Lfn
  pub current_index : ℕ

-- What an entry does to the walk: it ends the walk with a result, or the walk goes on.
pub data Walk : Type 0 where
  done : ℤ → Option Dirent → Walk
  go_on : Reader → Walk

-- The body of the innermost loop, at the 32 bytes of an entry.
unfoldable pub entry_step : Buffer → ℕ → Reader → Walk
entry_step e index r =
    if e 0 == 0x00
    then done (pos 0) none
    else (if e 0 == 0xe5
        then go_on r
        else (if attributes e == 0x0f
            then go_on (record r { lfn = lfn_step e r.lfn })
            else (if ltb r.current_index index
                then go_on (record { lfn = reset r.lfn; current_index = r.current_index + 1 })
                else (if is_label e
                    then go_on (record r { lfn = reset r.lfn })
                    else done (pos 1) (some (dirent_of e (choose_name e r.lfn)))))))

abbrev pub entry_at : Buffer → ℕ → Buffer
entry_at b j k = b (j + k)

-- `for (j = 0; j < 512; j += 32)`, with the number of entries left.
unfoldable pub entries : ℕ → Buffer → ℕ → ℕ → Reader → Walk
entries zero b j index r = go_on r
entries (suc n) b j index r = elim (entry_step (entry_at b j) index r) [
  | done ret d ↦ done ret d
  | go_on r' ↦ entries n b (j + 32) index r'
]

module _ (dev : Device) (fs : Fs) (index : ℕ) where
  -- The sectors of a cluster.
  unfoldable pub sectors : ℕ → ℕ → Reader → Walk
  sectors zero lba r = go_on r
  sectors (suc n) lba r = elim (dev (lba % u32) 1) [
    | none ↦ done (error eio) none
    | some b ↦ elim (entries 16 b 0 index r) [
      | done ret d ↦ done ret d
      | go_on r' ↦ sectors n (lba + 1) r'
    ]
  ]

  -- The clusters of the directory. A chain that is a cycle with no end of directory on it is
  -- walked for ever: `none` is a walk of more than `fuel` clusters.
  unfoldable pub clusters : ℕ → ℕ → Reader → Option (ℤ × Option Dirent)
  clusters zero cluster r = none
  clusters (suc fuel) cluster r =
      if cluster == end_of_chain
      then some (pos 0, none)
      else elim (sectors fs.bpb.sectors_per_cluster (cluster_to_lba dev fs cluster) r) [
        | done ret d ↦ some (ret, d)
        | go_on r' ↦ clusters fuel (next_cluster dev fs cluster) r'
      ]

-- The result, the entry if there is one, and the index for the next call.
abbrev pub advance : ℕ → ℤ × Option Dirent → ℤ × Option Dirent × ℕ
advance index (ret, none) = (ret, none, index)
advance index (ret, some d) = (ret, some d, index + 1)

abbrev pub first_reader : Reader
first_reader = record { lfn = no_lfn; current_index = 0 }

-- A FAT has at most 2 ^ 28 clusters, so that a longer walk is one round a cycle.
unfoldable pub readdir : Device → Fs → ℕ → ℕ → Option (ℤ × Option Dirent × ℕ)
readdir dev fs cluster index = elim (clusters dev fs index 0x10000001 cluster first_reader) [
  | none ↦ none
  | some r ↦ some (advance index r)
]
