-- ===== src/Fat32/Listing.antt =====
-- What `fat32_readdir` of src/kernel/fs/fat32.c lists.
use os1_meaty_skeleton.Prelude.{
  ℕ, zero, suc, ◌+◌, ◌%◌, ◌≤◌, ◌<◌, ◌≡◌, ◌≢◌, refl, ap, ◌∙◌, true, false, none, some, arith, ltb,
  ◌==◌,
}
use os1_meaty_skeleton.Prelude.Int.{pos}
use os1_meaty_skeleton.Disk.{Buffer, Device, Dirent}
use os1_meaty_skeleton.Fat32.{Fs, u32, end_of_chain, cluster_to_lba}
use os1_meaty_skeleton.Fat32.Dir.{
  reset, attributes, is_label, dirent_of, short_name, advance, choose_name, Reader, first_reader,
  done, go_on, entry_step, entry_at, entries, sectors, clusters, readdir,
}

-- The kinds of an entry that is not the end of the directory, not deleted and no long-name part.
pub record IsPlain (e : Buffer) : Type 0 where
  pub not_end : e 0 ≢ 0x00
  pub not_deleted : e 0 ≢ 0xe5
  pub not_lfn : attributes e ≢ 0x0f

abbrev reader : ℕ → Reader
reader i = record { lfn = reset first_reader.lfn; current_index = i }

skip_step :
    (e : Buffer) (i index : ℕ)
    → IsPlain e
    → i < index
    → entry_step e index (reader i) ≡ go_on (reader (i + 1))
unfolding entry_step
skip_step e i index p lt = ground arith

module _ (e : Buffer) (i index : ℕ) (p : IsPlain e) (le : index ≤ i) where
  label_step : is_label e ≡ true → entry_step e index (reader i) ≡ go_on (reader i)
  unfolding entry_step
  label_step l =
      let a : (e 0 == 0x00) ≡ false = ground (arith, p.not_end) in
      let b : (e 0 == 0xe5) ≡ false = ground (arith, p.not_deleted) in
      let c : (attributes e == 0x0f) ≡ false = ground (arith, p.not_lfn) in
      let d : ltb i index ≡ false = ground arith in rw (a, b, c, d, l) refl

  found_step :
      is_label e ≡ false
      → entry_step e index (reader i) ≡ done (pos 1) (some (dirent_of e (short_name e)))
  unfolding entry_step choose_name
  found_step l =
      let a : (e 0 == 0x00) ≡ false = ground (arith, p.not_end) in
      let b : (e 0 == 0xe5) ≡ false = ground (arith, p.not_deleted) in
      let c : (attributes e == 0x0f) ≡ false = ground (arith, p.not_lfn) in
      let d : ltb i index ≡ false = ground arith in rw (a, b, c, d, l) refl

-- A sector that begins with a volume label and a file or directory behind it.
pub record LabelFirst (b : Buffer) : Type 0 where
  pub label : IsPlain (entry_at b 0)
  pub labelled : is_label (entry_at b 0) ≡ true
  pub file : IsPlain (entry_at b 32)
  pub unlabelled : is_label (entry_at b 32) ≡ false

abbrev pub second : Buffer → Dirent
second b = dirent_of (entry_at b 32) (short_name (entry_at b 32))

module _ (n : ℕ) (b : Buffer) (j index : ℕ) (r : Reader) where
  entries_on :
      (r' : Reader)
      → entry_step (entry_at b j) index r ≡ go_on r'
      → entries (suc n) b j index r ≡ entries n b (j + 32) index r'
  unfolding entries
  entries_on r' e =
      ap (λ w. elim w [ done ret d ↦ done ret d | go_on r'' ↦ entries n b (j + 32) index r'' ]) e

  entries_end :
      (d : Dirent)
      → entry_step (entry_at b j) index r ≡ done (pos 1) (some d)
      → entries (suc n) b j index r ≡ done (pos 1) (some d)
  unfolding entries
  entries_end d e =
      ap (λ w. elim w [ done ret d' ↦ done ret d' | go_on r'' ↦ entries n b (j + 32) index r'' ]) e

-- For the index 0 the label is skipped uncounted; for the index 1 it is counted.
entries-zero :
    (b : Buffer) → LabelFirst b → entries 16 b 0 0 first_reader ≡ done (pos 1) (some (second b))
entries-zero b h =
    entries_on 15 b 0 0 first_reader (reader 0)
      (label_step (entry_at b 0) 0 0 h.label (omega arith) h.labelled)
    ∙ entries_end 14 b 32 0 (reader 0) (second b)
        (found_step (entry_at b 32) 0 0 h.file (omega arith) h.unlabelled)

entries_one :
    (b : Buffer) → LabelFirst b → entries 16 b 0 1 first_reader ≡ done (pos 1) (some (second b))
entries_one b h =
    entries_on 15 b 0 1 first_reader (reader 1) (skip_step (entry_at b 0) 0 1 h.label (omega arith))
    ∙ entries_end 14 b 32 1 (reader 1) (second b)
        (found_step (entry_at b 32) 1 1 h.file (omega arith) h.unlabelled)

module _ (dev : Device) (fs : Fs) (index : ℕ) (b : Buffer) (d : Dirent) where
  sectors_end :
      (n lba : ℕ)
      → dev (lba % u32) 1 ≡ some b
      → entries 16 b 0 index first_reader ≡ done (pos 1) (some d)
      → sectors dev fs index (suc n) lba first_reader ≡ done (pos 1) (some d)
  unfolding sectors
  sectors_end n lba r e = rw (sectors, r, e) refl

  clusters_end :
      (k cluster : ℕ)
      → cluster ≢ end_of_chain
      → sectors dev fs index fs.bpb.sectors_per_cluster (cluster_to_lba dev fs cluster) first_reader
        ≡ done (pos 1) (some d)
      → clusters dev fs index (suc k) cluster first_reader ≡ some (pos 1, some d)
  unfolding clusters
  clusters_end k cluster ne e =
      let c : (cluster == end_of_chain) ≡ false = ground arith in rw (c, e) refl

  sectors_first :
      (n lba : ℕ)
      → 0 < n
      → dev (lba % u32) 1 ≡ some b
      → entries 16 b 0 index first_reader ≡ done (pos 1) (some d)
      → sectors dev fs index n lba first_reader ≡ done (pos 1) (some d)
  sectors_first zero lba big r e = absurd (omega arith)
  sectors_first (suc n) lba big r e = sectors_end n lba r e

  readdir-of-entries :
      (cluster : ℕ)
      → cluster ≢ end_of_chain
      → 0 < fs.bpb.sectors_per_cluster
      → dev (cluster_to_lba dev fs cluster % u32) 1 ≡ some b
      → entries 16 b 0 index first_reader ≡ done (pos 1) (some d)
      → readdir dev fs cluster index ≡ some (pos 1, some d, index + 1)
  unfolding readdir
  readdir-of-entries cluster ne big r e =
      let walked =
        clusters_end 0x10000000 cluster ne
          (sectors_first fs.bpb.sectors_per_cluster (cluster_to_lba dev fs cluster) big r e) in
      ap (λ w. elim w [ none ↦ none | some w' ↦ some (advance index w') ]) walked

-- In a directory whose first sector begins with the volume label and an entry behind it, both the
-- index 0 and the index 1 give that entry: a label is counted when it is skipped, but not when the
-- reader looks for the entry to return.
pub readdir-repeats :
    (dev : Device) (fs : Fs) (cluster : ℕ) (b : Buffer)
    → cluster ≢ end_of_chain
    → 0 < fs.bpb.sectors_per_cluster
    → dev (cluster_to_lba dev fs cluster % u32) 1 ≡ some b
    → LabelFirst b
    → (readdir dev fs cluster 0 ≡ some (pos 1, some (second b), 1))
      × (readdir dev fs cluster 1 ≡ some (pos 1, some (second b), 2))
readdir-repeats dev fs cluster b ne big r h = (
  readdir-of-entries dev fs 0 b (second b) cluster ne big r (entries-zero b h),
  readdir-of-entries dev fs 1 b (second b) cluster ne big r (entries_one b h),
)
