-- ===== src/Vfs/Offsets.antt =====
-- The offsets of the descriptors of src/kernel/fs/vfs.c are not negative, as long as they stay below 2 ^ 31.
use os1_meaty_skeleton.Prelude.{
  ℕ, ◌+◌, ◌^◌, ◌<◌, ◌≡◌, refl, Bool, true, false, Option, none, some, arith, subst, sym, ◌==◌,
  Bool-cases, inl, inr,
}
use os1_meaty_skeleton.Prelude.Int.{ℤ, pos, pos_part, ltb_ℤ, word_of, ◌+int◌}
use os1_meaty_skeleton.Disk.{Buffer, error}
use os1_meaty_skeleton.Vfs.{Node, FileOperations, Allocator, FdEntry, Vfs}
use os1_meaty_skeleton.Vfs.Calls.{
  in_use, set_fd, advance_fd, new_offset, vfs_lseek, ops_of, vfs_read, vfs_write, vfs_close,
  is_negative, ebadf, seek_to, read_from, write_to, close_fd,
}
use os1_meaty_skeleton.Vfs.Bounds.{IsOffset, sum-IsOffset, to_int-small}

abbrev pub IsValid : {S H : Type 0} → Vfs S H → Type 0
IsValid v = (i : ℕ) → IsOffset (v.fds i).offset

-- The file system reads and writes no bytes from the offset 2 ^ 31 - 1 on.
abbrev pub ReadsBelow : {S : Type 0} → Option (Node → Buffer → ℕ → ℤ → S → ℤ × Buffer × S) → Type 0
ReadsBelow none = Unit
ReadsBelow {S} (some f) =
    (n : Node) (buf : Buffer) (count : ℕ) (off : ℤ) (s : S)
    → IsOffset off
    → pos_part off + pos_part (f n buf count off s).0 < 2 ^ 31

abbrev pub WritesBelow : {S : Type 0} → Option (Node → Buffer → ℕ → ℤ → S → ℤ × S) → Type 0
WritesBelow none = Unit
WritesBelow {S} (some f) =
    (n : Node) (buf : Buffer) (count : ℕ) (off : ℤ) (s : S)
    → IsOffset off
    → pos_part off + pos_part (f n buf count off s).0 < 2 ^ 31

module _ {S H : Type 0} where
  set_fd-IsValid :
      (i : ℕ) (e : FdEntry) (v : Vfs S H) → IsValid v → IsOffset e.offset → IsValid (set_fd i e v)
  set_fd-IsValid i e v h he =
      λ j. elim (Bool-cases (j == i)) [ inl y ↦ rw y he | inr n ↦ rw n (h j) ]

  advance_fd-IsValid :
      (i : ℕ) (r : ℤ) (v : Vfs S H)
      → IsValid v
      → pos_part (v.fds i).offset + pos_part r < 2 ^ 31
      → IsValid (advance_fd i r v)
  unfolding advance_fd
  advance_fd-IsValid i r v h small = elim (Bool-cases (ltb_ℤ (pos 0) r)) [
    | inl y ↦ rw y (
        set_fd-IsValid i (record (v.fds i) { offset = (v.fds i).offset +int r }) v h
          (sum-IsOffset (v.fds i).offset r (h i) y small))
    | inr n ↦ rw n h
  ]

  new_offset-small :
      (i : ℕ) (offset : ℤ) (origin : ℕ) (v : Vfs S H)
      → pos_part offset < 2 ^ 31
      → pos_part (new_offset i offset origin v).1 < 2 ^ 31
  unfolding ◌+int◌
  new_offset-small i offset origin v h = elim (Bool-cases (origin == 0)) [
    | inl a ↦ rw a h
    | inr a ↦ elim (Bool-cases (origin == 1)) [
      | inl b ↦ rw (a, b) (to_int-small (word_of (v.fds i).offset + word_of offset))
      | inr b ↦ elim (Bool-cases (origin == 2)) [
        | inl c ↦ rw (a, b, c) (omega arith)
        | inr c ↦ rw (a, b, c) (omega arith)
      ]
    ]
  ]

  seek_to-IsValid :
      (i : ℕ) (p : Bool × ℤ) (v : Vfs S H)
      → IsValid v
      → pos_part p.1 < 2 ^ 31
      → IsValid (seek_to i p v).1
  unfolding seek_to
  seek_to-IsValid i (false, new) v h small = h
  seek_to-IsValid i (true, new) v h small = elim (Bool-cases (is_negative new)) [
    | inl y ↦ rw y h
    | inr n ↦ rw n (set_fd-IsValid i (record (v.fds i) { offset = new }) v h (n, small))
  ]

  vfs_lseek-IsValid :
      (fd offset : ℤ) (origin : ℕ) (v : Vfs S H)
      → IsValid v
      → pos_part offset < 2 ^ 31
      → IsValid (vfs_lseek fd offset origin v).1
  unfolding vfs_lseek
  vfs_lseek-IsValid fd offset origin v h int = go (in_use fd v) refl
    where
      go : (r : Option ℕ) → in_use fd v ≡ r → IsValid (vfs_lseek fd offset origin v).1
      go none e =
          let at : vfs_lseek fd offset origin v ≡ (error ebadf, v) = rw (vfs_lseek, e) refl in
          subst (λ w. IsValid w.1) (sym at) h
      go (some i) e =
          let at : vfs_lseek fd offset origin v ≡ seek_to i (new_offset i offset origin v) v =
            rw (vfs_lseek, e) refl in
          subst (λ w. IsValid w.1) (sym at)
            (seek_to-IsValid i (new_offset i offset origin v) v h
              (new_offset-small i offset origin v int))

module _ {S H : Type 0} (ops_at : ℕ → FileOperations S) (al : Allocator H) where
  read_from-IsValid :
      (i : ℕ) (op : Option (Node → Buffer → ℕ → ℤ → S → ℤ × Buffer × S)) (buf : Buffer) (count : ℕ)
      (v : Vfs S H)
      → IsValid v
      → ReadsBelow op
      → IsValid (read_from ops_at al i op buf count v).2
  unfolding read_from
  read_from-IsValid i none buf count v h below = h
  read_from-IsValid i (some f) buf count v h below =
      elim (Bool-cases ((v.nodes (v.fds i).node).ops == 0)) [
        | inl y ↦ rw y h
        | inr n ↦
            let (ret, _, s) = f (v.nodes (v.fds i).node) buf count (v.fds i).offset v.fs in
            rw n (
              advance_fd-IsValid i ret (record v { fs = s }) h
                (below (v.nodes (v.fds i).node) buf count (v.fds i).offset v.fs (h i)))
      ]

  write_to-IsValid :
      (i : ℕ) (op : Option (Node → Buffer → ℕ → ℤ → S → ℤ × S)) (buf : Buffer) (count : ℕ)
      (v : Vfs S H)
      → IsValid v
      → WritesBelow op
      → IsValid (write_to ops_at al i op buf count v).1
  unfolding write_to
  write_to-IsValid i none buf count v h below = h
  write_to-IsValid i (some f) buf count v h below =
      elim (Bool-cases ((v.nodes (v.fds i).node).ops == 0)) [
        | inl y ↦ rw y h
        | inr n ↦
            let (ret, s) = f (v.nodes (v.fds i).node) buf count (v.fds i).offset v.fs in
            rw n (
              advance_fd-IsValid i ret (record v { fs = s }) h
                (below (v.nodes (v.fds i).node) buf count (v.fds i).offset v.fs (h i)))
      ]

  close_fd-IsValid :
      (i : ℕ) (op : Option (Node → S → ℤ × S)) (v : Vfs S H)
      → IsValid v
      → IsValid (close_fd ops_at al i op v).1
  unfolding close_fd
  close_fd-IsValid i none v h = h
  close_fd-IsValid i (some f) v h = elim (Bool-cases ((v.nodes (v.fds i).node).ops == 0)) [
    | inl y ↦ rw y h
    | inr n ↦
        let (ret, s) = f (v.nodes (v.fds i).node) v.fs in
        rw n (set_fd-IsValid i (record (v.fds i) { node = 0 }) (record v { fs = s }) h (h i))
  ]

  vfs_read-IsValid :
      (fd : ℤ) (buf : Buffer) (count : ℕ) (v : Vfs S H)
      → IsValid v
      → ((k : ℕ) → ReadsBelow (ops_at k).read)
      → IsValid (vfs_read ops_at al fd buf count v).2
  unfolding vfs_read
  vfs_read-IsValid fd buf count v h below = go (in_use fd v) refl
    where
      go : (r : Option ℕ) → in_use fd v ≡ r → IsValid (vfs_read ops_at al fd buf count v).2
      go none e =
          let at : vfs_read ops_at al fd buf count v ≡ (error ebadf, buf, v) =
            rw (vfs_read, e) refl in
          subst (λ w. IsValid w.2) (sym at) h
      go (some i) e =
          let op = (ops_of ops_at al (v.fds i).node v).read in
          let at : vfs_read ops_at al fd buf count v ≡ read_from ops_at al i op buf count v =
            rw (vfs_read, e) refl in
          subst (λ w. IsValid w.2) (sym at)
            (read_from-IsValid i op buf count v h (below (v.nodes (v.fds i).node).ops))

  vfs_write-IsValid :
      (fd : ℤ) (buf : Buffer) (count : ℕ) (v : Vfs S H)
      → IsValid v
      → ((k : ℕ) → WritesBelow (ops_at k).write)
      → IsValid (vfs_write ops_at al fd buf count v).1
  unfolding vfs_write
  vfs_write-IsValid fd buf count v h below = go (in_use fd v) refl
    where
      go : (r : Option ℕ) → in_use fd v ≡ r → IsValid (vfs_write ops_at al fd buf count v).1
      go none e =
          let at : vfs_write ops_at al fd buf count v ≡ (error ebadf, v) = rw (vfs_write, e) refl in
          subst (λ w. IsValid w.1) (sym at) h
      go (some i) e =
          let op = (ops_of ops_at al (v.fds i).node v).write in
          let at : vfs_write ops_at al fd buf count v ≡ write_to ops_at al i op buf count v =
            rw (vfs_write, e) refl in
          subst (λ w. IsValid w.1) (sym at)
            (write_to-IsValid i op buf count v h (below (v.nodes (v.fds i).node).ops))

  vfs_close-IsValid : (fd : ℤ) (v : Vfs S H) → IsValid v → IsValid (vfs_close ops_at al fd v).1
  unfolding vfs_close
  vfs_close-IsValid fd v h = go (in_use fd v) refl
    where
      go : (r : Option ℕ) → in_use fd v ≡ r → IsValid (vfs_close ops_at al fd v).1
      go none e =
          let at : vfs_close ops_at al fd v ≡ (error ebadf, v) = rw (vfs_close, e) refl in
          subst (λ w. IsValid w.1) (sym at) h
      go (some i) e =
          let op = (ops_of ops_at al (v.fds i).node v).close in
          let at : vfs_close ops_at al fd v ≡ close_fd ops_at al i op v = rw (vfs_close, e) refl in
          subst (λ w. IsValid w.1) (sym at) (close_fd-IsValid i op v h)

  -- Seeking, reading, writing and closing keep the offset of every descriptor from being negative, whatever
  -- the arguments of 32 bits are, if the file system never goes past the offset 2 ^ 31 - 1.
  pub calls-IsValid :
      (fd offset : ℤ) (origin count : ℕ) (buf : Buffer) (v : Vfs S H)
      → IsValid v
      → pos_part offset < 2 ^ 31
      → ((k : ℕ) → ReadsBelow (ops_at k).read)
      → ((k : ℕ) → WritesBelow (ops_at k).write)
      → IsValid (vfs_lseek fd offset origin v).1
        × IsValid (vfs_read ops_at al fd buf count v).2
        × IsValid (vfs_write ops_at al fd buf count v).1
        × IsValid (vfs_close ops_at al fd v).1
  calls-IsValid fd offset origin count buf v h int reads writes = (
    vfs_lseek-IsValid fd offset origin v h int,
    vfs_read-IsValid fd buf count v h reads,
    vfs_write-IsValid fd buf count v h writes,
    vfs_close-IsValid fd v h,
  )
