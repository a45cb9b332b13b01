-- ===== src/Vfs.antt =====
-- The virtual file system of src/kernel/fs/vfs.c: its node and descriptor tables. `Vfs/Path` finds a
-- node by its path, and `Vfs/Calls` has the operations. A mounted file system is a parameter, the
-- functions of its `struct file_operations` over a state of its own, and so is the kernel's heap.
pub mod Path
pub mod Calls
pub mod Dirs
pub mod Lookup
pub mod Files
pub mod Bounds
pub mod Offsets
pub mod Stream
pub mod Syscalls
mod Tests
use os1_meaty_skeleton.Prelude.{
  ℕ, zero, suc, ◌+◌, ◌-◌, Bool, true, false, not, ◌&&◌, Option, none, some, List, [], ◌∷◌, ltb,
  ◌==◌, if◌then◌else◌,
}
use os1_meaty_skeleton.Prelude.Int.{ℤ, pos}
use os1_meaty_skeleton.Disk.{Buffer, Dirent, error, einval}

-- `struct vfs_node`; `ops` and `private_data` are addresses, and 0 is NULL.
pub record Node : Type 0 where
  pub name : List ℕ
  pub cluster : ℕ
  pub is_dir : Bool
  pub ops : ℕ
  pub private_data : ℕ

-- `struct file_operations` of a file system with the state `S`; `none` is a NULL member. The
-- operation `open` may change the node. What `readdir` leaves in the entry and the index counts on every result.
pub record FileOperations (S : Type 0) : Type 0 where
  pub open_file : Option (Node → ℕ → ℕ → S → ℤ × Node × S)
  pub read : Option (Node → Buffer → ℕ → ℤ → S → ℤ × Buffer × S)
  pub write : Option (Node → Buffer → ℕ → ℤ → S → ℤ × S)
  pub readdir : Option (Node → Dirent → ℕ → S → ℤ × Dirent × ℕ × S)
  pub close : Option (Node → S → ℤ × S)
  pub unlink : Option (Node → S → ℤ × S)
  pub stat : Option (Node → Buffer → S → ℤ × Buffer × S)
  pub access : Option (Node → ℕ → S → ℤ × S)

-- The kernel's heap, `kmalloc` and `kfree`: an address, or 0 where there is no room. `stale` is what the
-- variable `entry` of `vfs_lookup`, which the source leaves uninitialised, holds of the stack.
pub record Allocator (H : Type 0) : Type 0 where
  pub kmalloc : H → ℕ → ℕ × H
  pub kfree : H → ℕ → H
  pub stale : H → Dirent

-- `struct fd_entry`; a descriptor is in use when its node is not NULL.
pub record FdEntry : Type 0 where
  pub node : ℕ
  pub offset : ℤ
  pub flags : ℕ

abbrev pub max_fds : ℕ
max_fds = 32

abbrev pub no_fd : FdEntry
no_fd = record { node = 0; offset = pos 0; flags = 0 }

-- `root`, the nodes at their addresses, `fd_table`, the heap, and the state of the file systems.
pub record Vfs (S H : Type 0) : Type 0 where
  pub root : ℕ
  pub nodes : ℕ → Node
  pub fds : ℕ → FdEntry
  pub heap : H
  pub fs : S

-- sizeof(struct vfs_node) and sizeof(struct vfs_dir)
abbrev pub node_size : ℕ
node_size = 272

abbrev pub dir_size : ℕ
dir_size = 12

abbrev pub enomem : ℕ
enomem = 12

-- Two strings are equal, which is `strcmp` of them.
abbrev pub same : List ℕ → List ℕ → Bool
same [] [] = true
same [] (d ∷ ds) = false
same (c ∷ cs) [] = false
same (c ∷ cs) (d ∷ ds) = let rest = same cs ds in c == d && rest

module _ {A : Type 0} where
  abbrev pub set_at : (ℕ → A) → ℕ → A → ℕ → A
  set_at f a x b = if b == a then x else f b

module _ {S H : Type 0} where
  -- `vfs_init`
  unfoldable pub vfs_init : Allocator H → Vfs S H → ℤ × Vfs S H
  vfs_init al v =
      let (root, heap) = al.kmalloc v.heap node_size in
      let v' = record v { root = root; heap = heap } in
      if root == 0 then (error enomem, v') else (
        pos 0,
        record v' {
          nodes =
              set_at v.nodes root
                (record { name = []; cluster = 0; is_dir = true; ops = 0; private_data = 0 });
          fds = λ _. no_fd;
        },
      )

  -- `vfs_mount`, at the root alone; FAT32's root cluster is 2.
  unfoldable pub vfs_mount : List ℕ → ℕ → ℕ → Vfs S H → ℤ × Vfs S H
  vfs_mount path ops private_data v =
      if same path (b'/' ∷ [])
      then (
        pos 0,
        record v {
          nodes =
              set_at v.nodes v.root
                (record (v.nodes v.root) { ops = ops; cluster = 2; private_data = private_data });
        },
      )
      else (error einval, v)
