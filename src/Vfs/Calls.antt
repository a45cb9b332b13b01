-- ===== src/Vfs/Calls.antt =====
-- The operations of src/kernel/fs/vfs.c on paths, descriptors and open directories.
use os1_meaty_skeleton.Prelude.{
  ℕ, zero, suc, ◌+◌, Bool, true, false, not, ◌&&◌, Option, none, some, List, ltb, ◌==◌,
  if◌then◌else◌,
}
use os1_meaty_skeleton.Prelude.Int.{ℤ, pos, negsuc, ltb_ℤ, ◌+int◌}
use os1_meaty_skeleton.Disk.{Buffer, error, eio, einval, enosys}
use os1_meaty_skeleton.Vfs.{Node, FileOperations, Allocator, FdEntry, Vfs, max_fds, set_at}
use os1_meaty_skeleton.Vfs.Path.{vfs_resolve_path}

abbrev pub enoent : ℕ
enoent = 2

abbrev pub ebadf : ℕ
ebadf = 9

abbrev pub emfile : ℕ
emfile = 24

abbrev pub is_negative : ℤ → Bool
is_negative r = ltb_ℤ r (pos 0)

module _ {S H : Type 0} where
  -- The descriptor's index, unless `fd < 0 || fd >= MAX_FDS || !fd_table[fd].node`.
  unfoldable pub in_use : ℤ → Vfs S H → Option ℕ
  in_use (negsuc n) v = none
  in_use (pos n) v = if ltb n max_fds && not ((v.fds n).node == 0) then some n else none

  -- The loop of `vfs_open`: the first descriptor from `i` on that is not in use.
  unfoldable pub free_fd : ℕ → ℕ → Vfs S H → Option ℕ
  free_fd zero i v = none
  free_fd (suc n) i v =
      let rest = free_fd n (i + 1) v in if (v.fds i).node == 0 then some i else rest

  abbrev pub set_fd : ℕ → FdEntry → Vfs S H → Vfs S H
  set_fd i e v = record v { fds = set_at v.fds i e }

  -- `if (ret > 0) fd_table[fd].offset += ret`
  unfoldable pub advance_fd : ℕ → ℤ → Vfs S H → Vfs S H
  advance_fd i ret v =
      if ltb_ℤ (pos 0) ret
      then set_fd i (record (v.fds i) { offset = (v.fds i).offset +int ret }) v
      else v

  -- `new_offset` of `vfs_lseek`, or the error: SEEK_SET is 0, SEEK_CUR 1 and SEEK_END 2.
  abbrev pub new_offset : ℕ → ℤ → ℕ → Vfs S H → Bool × ℤ
  new_offset i offset origin v =
      if origin == 0
      then (true, offset)
      else (if origin == 1
          then (true, (v.fds i).offset +int offset)
          else (if origin == 2 then (false, error enosys) else (false, error einval)))

  -- The new offset is refused when it is negative.
  unfoldable pub seek_to : ℕ → Bool × ℤ → Vfs S H → ℤ × Vfs S H
  seek_to i (ok, new) v =
      if not ok
      then (new, v)
      else (if is_negative new
          then (error einval, v)
          else (new, set_fd i (record (v.fds i) { offset = new }) v))

  unfoldable pub vfs_lseek : ℤ → ℤ → ℕ → Vfs S H → ℤ × Vfs S H
  vfs_lseek fd offset origin v = elim (in_use fd v) [
    | none ↦ (error ebadf, v)
    | some i ↦ seek_to i (new_offset i offset origin v) v
  ]

module _ {S H : Type 0} (ops_at : ℕ → FileOperations S) (al : Allocator H) where
  abbrev pub ops_of : ℕ → Vfs S H → FileOperations S
  ops_of a v = ops_at (v.nodes a).ops

  -- A path that names a node with operations, as the guards `!node || !node->ops` want it.
  abbrev pub usable : ℕ → Vfs S H → Bool
  usable a v = not (a == 0) && not ((v.nodes a).ops == 0)

  -- `kfree(node)`
  abbrev pub free_node : ℕ → Vfs S H → Vfs S H
  free_node a v = record v { heap = al.kfree v.heap a }

  -- What `vfs_open` does once the file system has opened the node.
  unfoldable pub take_fd : ℕ → ℕ → Vfs S H → ℤ × Vfs S H
  take_fd a flags v = elim (free_fd max_fds 0 v) [
    | none ↦ (error emfile, free_node a v)
    | some i ↦ (pos i, set_fd i (record { node = a; offset = pos 0; flags = flags }) v)
  ]

  unfoldable pub open_node : ℕ → ℕ → ℕ → Vfs S H → ℤ × Vfs S H
  open_node a flags mode v = elim (ops_of a v).open_file [
    | none ↦ (error enoent, v)
    | some f ↦
        if usable a v
        then (let (ret, n, s) = f (v.nodes a) flags mode v.fs in
            let v' = record v { nodes = set_at v.nodes a n; fs = s } in
            if is_negative ret then (ret, v') else take_fd a flags v')
        else (error enoent, v)
  ]

  -- `vfs_open`
  unfoldable pub vfs_open : List ℕ → ℕ → ℕ → Vfs S H → Option (ℤ × Vfs S H)
  vfs_open pathname flags mode v = elim (vfs_resolve_path ops_at al pathname v) [
    | none ↦ none
    | some (a, v') ↦ some (open_node a flags mode v')
  ]

  -- What `vfs_read` does at a descriptor in use.
  unfoldable pub read_from :
      ℕ
      → Option (Node → Buffer → ℕ → ℤ → S → ℤ × Buffer × S)
      → Buffer
      → ℕ
      → Vfs S H
      → ℤ × Buffer × Vfs S H
  read_from i none buf count v = (error eio, buf, v)
  read_from i (some f) buf count v =
      if (v.nodes (v.fds i).node).ops == 0
      then (error eio, buf, v)
      else (let (ret, buf', s) = f (v.nodes (v.fds i).node) buf count (v.fds i).offset v.fs in
          (ret, buf', advance_fd i ret (record v { fs = s })))

  -- `vfs_read`: the result and the caller's buffer.
  unfoldable pub vfs_read : ℤ → Buffer → ℕ → Vfs S H → ℤ × Buffer × Vfs S H
  vfs_read fd buf count v = elim (in_use fd v) [
    | none ↦ (error ebadf, buf, v)
    | some i ↦ read_from i (ops_of (v.fds i).node v).read buf count v
  ]

  unfoldable pub write_to :
      ℕ → Option (Node → Buffer → ℕ → ℤ → S → ℤ × S) → Buffer → ℕ → Vfs S H → ℤ × Vfs S H
  write_to i none buf count v = (error eio, v)
  write_to i (some f) buf count v =
      if (v.nodes (v.fds i).node).ops == 0
      then (error eio, v)
      else (let (ret, s) = f (v.nodes (v.fds i).node) buf count (v.fds i).offset v.fs in
          (ret, advance_fd i ret (record v { fs = s })))

  unfoldable pub vfs_write : ℤ → Buffer → ℕ → Vfs S H → ℤ × Vfs S H
  vfs_write fd buf count v = elim (in_use fd v) [
    | none ↦ (error ebadf, v)
    | some i ↦ write_to i (ops_of (v.fds i).node v).write buf count v
  ]

  unfoldable pub close_fd : ℕ → Option (Node → S → ℤ × S) → Vfs S H → ℤ × Vfs S H
  close_fd i none v = (error eio, v)
  close_fd i (some f) v =
      if (v.nodes (v.fds i).node).ops == 0
      then (error eio, v)
      else (let (ret, s) = f (v.nodes (v.fds i).node) v.fs in
          let v' = free_node (v.fds i).node (record v { fs = s }) in
          (ret, set_fd i (record (v.fds i) { node = 0 }) v'))

  unfoldable pub vfs_close : ℤ → Vfs S H → ℤ × Vfs S H
  vfs_close fd v = elim (in_use fd v) [
    | none ↦ (error ebadf, v)
    | some i ↦ close_fd i (ops_of (v.fds i).node v).close v
  ]

  -- What `vfs_unlink` and `vfs_access` share: the operation on the node, which is freed afterwards.
  unfoldable pub once : Option (Node → S → ℤ × S) → ℕ → Vfs S H → ℤ × Vfs S H
  once op a v = elim op [
    | none ↦ (error enoent, v)
    | some f ↦
        if usable a v
        then (let (ret, s) = f (v.nodes a) v.fs in (ret, free_node a (record v { fs = s })))
        else (error enoent, v)
  ]

  unfoldable pub vfs_unlink : List ℕ → Vfs S H → Option (ℤ × Vfs S H)
  vfs_unlink pathname v = elim (vfs_resolve_path ops_at al pathname v) [
    | none ↦ none
    | some (a, v') ↦ some (once (ops_of a v').unlink a v')
  ]

  abbrev pub with_mode : ℕ → Option (Node → ℕ → S → ℤ × S) → Option (Node → S → ℤ × S)
  with_mode mode none = none
  with_mode mode (some f) = some λ n s. f n mode s

  unfoldable pub vfs_access : List ℕ → ℕ → Vfs S H → Option (ℤ × Vfs S H)
  vfs_access pathname mode v = elim (vfs_resolve_path ops_at al pathname v) [
    | none ↦ none
    | some (a, v') ↦ some (once (with_mode mode (ops_of a v').access) a v')
  ]

  unfoldable pub stat_node : ℕ → Buffer → Vfs S H → ℤ × Buffer × Vfs S H
  stat_node a statbuf v = elim (ops_of a v).stat [
    | none ↦ (error enoent, statbuf, v)
    | some f ↦
        if usable a v
        then (let (ret, statbuf', s) = f (v.nodes a) statbuf v.fs in
            (ret, statbuf', free_node a (record v { fs = s })))
        else (error enoent, statbuf, v)
  ]

  unfoldable pub vfs_stat : List ℕ → Buffer → Vfs S H → Option (ℤ × Buffer × Vfs S H)
  vfs_stat pathname statbuf v = elim (vfs_resolve_path ops_at al pathname v) [
    | none ↦ none
    | some (a, v') ↦ some (stat_node a statbuf v')
  ]
