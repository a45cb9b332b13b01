-- ===== src/Vfs/Syscalls.antt =====
-- The system calls of src/kernel/fs/syscalls.c, which call the virtual file system. A `long` has the
-- 32 bits of the `int` that they return.
use os1_meaty_skeleton.Prelude.{ℕ, Option, List}
use os1_meaty_skeleton.Prelude.Int.{ℤ, pos}
use os1_meaty_skeleton.Disk.{Buffer, error, enosys}
use os1_meaty_skeleton.Vfs.{FileOperations, Allocator, Vfs}
use os1_meaty_skeleton.Vfs.Calls.{
  vfs_open, vfs_read, vfs_write, vfs_unlink, vfs_close, vfs_lseek, vfs_access,
}

module _ {S H : Type 0} (ops_at : ℕ → FileOperations S) (al : Allocator H) where
  unfoldable pub sys_open : List ℕ → ℕ → ℕ → Vfs S H → Option (ℤ × Vfs S H)
  sys_open pathname flags mode v = vfs_open ops_at al pathname flags mode v

  unfoldable pub sys_read : ℤ → Buffer → ℕ → Vfs S H → ℤ × Buffer × Vfs S H
  sys_read fd buf count v = vfs_read ops_at al fd buf count v

  unfoldable pub sys_write : ℤ → Buffer → ℕ → Vfs S H → ℤ × Vfs S H
  sys_write fd buf count v = vfs_write ops_at al fd buf count v

  unfoldable pub sys_unlink : List ℕ → Vfs S H → Option (ℤ × Vfs S H)
  sys_unlink pathname v = vfs_unlink ops_at al pathname v

  unfoldable pub sys_close : ℤ → Vfs S H → ℤ × Vfs S H
  sys_close fd v = vfs_close ops_at al fd v

  unfoldable pub sys_access : List ℕ → ℕ → Vfs S H → Option (ℤ × Vfs S H)
  sys_access pathname mode v = vfs_access ops_at al pathname mode v

module _ {S H : Type 0} where
  unfoldable pub sys_lseek : ℤ → ℤ → ℕ → Vfs S H → ℤ × Vfs S H
  sys_lseek fd offset origin v = vfs_lseek fd offset origin v

-- What the calls without an implementation return, whatever their arguments: `sys_chdir`,
-- `sys_mkdir`, `sys_rmdir`, `sys_pipe`, `sys_dup`, `sys_dup2`, `sys_ftruncate`, `sys_fchmod`,
-- `sys_stat` and `sys_lstat`.
abbrev pub sys_unimplemented : ℤ
sys_unimplemented = error enosys

-- `sys_fstat` succeeds and fills in nothing.
abbrev pub sys_fstat : ℤ
sys_fstat = pos 0
