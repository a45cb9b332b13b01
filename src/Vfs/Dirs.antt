-- ===== src/Vfs/Dirs.antt =====
-- The open directories of src/kernel/fs/vfs.c.
use os1_meaty_skeleton.Prelude.{ℕ, not, ◌&&◌, Option, none, some, List, ◌==◌, if◌then◌else◌}
use os1_meaty_skeleton.Prelude.Int.{ℤ, pos}
use os1_meaty_skeleton.Disk.{Dirent, error, eio}
use os1_meaty_skeleton.Vfs.{FileOperations, Allocator, Vfs, dir_size}
use os1_meaty_skeleton.Vfs.Path.{vfs_resolve_path, has_readdir}
use os1_meaty_skeleton.Vfs.Calls.{ebadf, ops_of, usable, free_node}

-- `struct vfs_dir`, with the address of its node; `address` is its own.
pub record VfsDir : Type 0 where
  pub address : ℕ
  pub node : ℕ
  pub index : ℕ

module _ {S H : Type 0} (ops_at : ℕ → FileOperations S) (al : Allocator H) where
  -- What `vfs_opendir` does with the node: `none` is NULL.
  unfoldable pub open_dir_node : ℕ → Vfs S H → Option VfsDir × Vfs S H
  open_dir_node a v =
      if not
        (usable ops_at al a v && has_readdir ops_at al (ops_of ops_at al a v) && (v.nodes a).is_dir)
      then (none, if a == 0 then v else free_node ops_at al a v)
      else (let (d, heap) = al.kmalloc v.heap dir_size in
          let v' = record v { heap = heap } in
          if d == 0
          then (none, free_node ops_at al a v')
          else (some (record { address = d; node = a; index = 0 }), v'))

  unfoldable pub vfs_opendir : List ℕ → Vfs S H → Option (Option VfsDir × Vfs S H)
  vfs_opendir pathname v = elim (vfs_resolve_path ops_at al pathname v) [
    | none ↦ none
    | some (a, v') ↦ some (open_dir_node a v')
  ]

  unfoldable pub vfs_readdir :
      Option VfsDir → Dirent → Vfs S H → ℤ × Dirent × Option VfsDir × Vfs S H
  vfs_readdir none entry v = (error ebadf, entry, none, v)
  vfs_readdir (some d) entry v =
      if d.node == 0
      then (error ebadf, entry, some d, v)
      else elim (ops_of ops_at al d.node v).readdir [
        | none ↦ (error eio, entry, some d, v)
        | some f ↦
            if (v.nodes d.node).ops == 0
            then (error eio, entry, some d, v)
            else (let (ret, entry', index', s) = f (v.nodes d.node) entry d.index v.fs in
                (ret, entry', some (record d { index = index' }), record v { fs = s }))
      ]

  unfoldable pub vfs_closedir : Option VfsDir → Vfs S H → ℤ × Vfs S H
  vfs_closedir none v = (error ebadf, v)
  vfs_closedir (some d) v =
      if d.node == 0
      then (error ebadf, v)
      else (pos 0, free_node ops_at al d.address (free_node ops_at al d.node v))
