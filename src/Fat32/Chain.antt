-- ===== src/Fat32/Chain.antt =====
-- `fat32_read` of src/kernel/fs/fat32.c along a cluster chain.
use os1_meaty_skeleton.Prelude.{
  ℕ, zero, suc, ◌+◌, ◌-◌, ◌≤◌, ◌<◌, ◌≡◌, ◌≢◌, ◌⊎◌, refl, ap, ◌∙◌, true, false, not, ◌&&◌, inl, inr,
  Option, none, some, List, [], ◌∷◌, min, arith, ltb, leb, ◌==◌, Bool-cases,
}
use os1_meaty_skeleton.Prelude.Int.{to_int}
use os1_meaty_skeleton.Disk.{Buffer, Device}
use os1_meaty_skeleton.Fat32.{
  Fs, end_of_chain, next_cluster, read_cluster, cluster_size, seek, count_bytes, read_file,
  cluster_buffer_size,
}

module _ (dev : Device) (fs : Fs) where
  -- The clusters `cs` from `c` on, each of which can be read, as the FAT links them.
  abbrev pub Linked : ℕ → List ℕ → Type 0
  Linked c [] = c ≡ end_of_chain
  Linked c (x ∷ xs) =
      (c ≡ x)
      × (x ≢ end_of_chain)
      × ((b : Buffer) × (read_cluster dev fs x ≡ some b))
      × Linked (next_cluster dev fs x) xs

  -- The bytes that the clusters hold.
  abbrev pub capacity : List ℕ → ℕ
  capacity [] = 0
  capacity (x ∷ xs) = cluster_size dev fs + capacity xs

  -- Where `seek` stops: the bytes behind the offset are the same as before.
  abbrev Sought : ℕ → Option (ℕ × ℕ) → Type 0
  Sought left none = ⊥
  Sought left (some (c, o)) =
      (ys : List ℕ) × Linked c ys
      × ((o < cluster_size dev fs) ⊎ (ys ≡ []))
      × (capacity ys - o ≡ left)

  seek-Sought :
      (k c o : ℕ) (xs : List ℕ)
      → 0 < cluster_size dev fs
      → o < k
      → Linked c xs
      → Sought (capacity xs - o) (seek dev fs k c o)
  unfolding seek
  seek-Sought zero c o xs big lt h = absurd (omega arith)
  seek-Sought (suc k) c o [] big lt h =
      let stop : (leb (cluster_size dev fs) o && not (c == end_of_chain)) ≡ false = ground arith in
      rw stop ([], h, inr refl, refl)
  seek-Sought (suc k) c o (x ∷ xs) big lt h = elim (Bool-cases (leb (cluster_size dev fs) o)) [
    | inl far ↦
        let on : (leb (cluster_size dev fs) o && not (c == end_of_chain)) ≡ true = ground arith in
        let e : cluster_size dev fs + capacity xs - o ≡ capacity xs - (o - cluster_size dev fs) =
          ground arith in
        let ih =
          seek-Sought k (next_cluster dev fs x) (o - cluster_size dev fs) xs big (ground arith)
            h.3 in
        rw (on, e, h.0) ih
    | inr near ↦ rw near (x ∷ xs, h, inl (ground arith), refl)
  ]

  count_bytes-min :
      (k c o b count : ℕ) (xs : List ℕ)
      → 0 < cluster_size dev fs
      → cluster_size dev fs ≤ cluster_buffer_size
      → count - b < k
      → b ≤ count
      → (o < cluster_size dev fs) ⊎ (xs ≡ [])
      → Linked c xs
      → count_bytes dev fs k c o b count ≡ some (to_int (b + min (count - b) (capacity xs - o)))
  unfolding count_bytes
  count_bytes-min zero c o b count xs big fit lt le near h = absurd (omega arith)
  count_bytes-min (suc k) c o b count [] big fit lt le near h =
      let stop : (not (c == end_of_chain) && ltb b count) ≡ false = ground arith in
      rw stop (ap (λ n. some (to_int n)) (omega arith))
  count_bytes-min (suc k) c o b count (x ∷ xs) big fit lt le near h =
      elim (Bool-cases (ltb b count)) [
        | inl more ↦
            let open_end : (x == end_of_chain) ≡ false = ground arith in
            let inside : o < cluster_size dev fs = elim near [ inl l ↦ l | inr e ↦ absurd (cc) ] in
            let room : ltb cluster_buffer_size (cluster_size dev fs) ≡ false = ground arith in
            let unread : b < count = ground arith in
            let step : ℕ = min (count - b) (cluster_size dev fs - o) in
            let ih =
              count_bytes-min k (next_cluster dev fs x) 0 (b + step) count xs big fit (omega arith)
                (omega arith) (inl big) h.3 in
            rw (h.0, open_end, more, room, h.2.1, h.0)
              (ih ∙ ap (λ n. some (to_int n)) (omega arith))
        | inr full ↦
            let stop : (not (c == end_of_chain) && ltb b count) ≡ false = ground arith in
            rw stop (ap (λ n. some (to_int n)) (ground arith))
      ]

  read_file-of-Sought :
      (c count o left : ℕ) (buf : Buffer)
      → 0 < cluster_size dev fs
      → cluster_size dev fs ≤ cluster_buffer_size
      → Sought left (seek dev fs (suc o) c o)
      → read_file dev fs c buf count o ≡ some (to_int (min count left), buf)
  unfolding read_file
  read_file-of-Sought c count o left buf big fit s = go (seek dev fs (suc o) c o) refl s
    where
      go :
          (r : Option (ℕ × ℕ))
          → seek dev fs (suc o) c o ≡ r
          → Sought left r
          → read_file dev fs c buf count o ≡ some (to_int (min count left), buf)
      go none e s = absurd s
      go (some (c', o')) e (ys, linked, near, size) =
          let counted =
            count_bytes-min (suc count) c' o' 0 count ys big fit (omega arith) (omega arith) near
              linked in
          ground (arith, counted, size)

  -- On a chain of readable clusters of at most 4096 bytes `fat32_read` ends, and returns, as an `int`, as
  -- many bytes as were asked for or lie behind the offset, whichever is fewer. But the caller's buffer is
  -- as it was before.
  pub read_file-untouched :
      (c : ℕ) (xs : List ℕ) (buf : Buffer) (count offset : ℕ)
      → 0 < cluster_size dev fs
      → cluster_size dev fs ≤ cluster_buffer_size
      → Linked c xs
      → read_file dev fs c buf count offset ≡ some (to_int (min count (capacity xs - offset)), buf)
  read_file-untouched c xs buf count offset big fit h =
      read_file-of-Sought c count offset (capacity xs - offset) buf big fit
        (seek-Sought (suc offset) c offset xs big (omega arith) h)
