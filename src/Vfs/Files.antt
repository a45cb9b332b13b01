-- ===== src/Vfs/Files.antt =====
-- The descriptors of src/kernel/fs/vfs.c: which one an open takes, the offsets, and what is freed.
use os1_meaty_skeleton.Prelude.{
  ℕ, zero, suc, ◌+◌, ◌≤◌, ◌<◌, ◌≡◌, ◌≢◌, refl, ap, true, false, Option, none, some, List, [], ◌∷◌,
  arith, subst, sym, ◌==◌, Bool-cases, inl, inr,
}
use os1_meaty_skeleton.Prelude.Int.{ℤ, pos}
use os1_meaty_skeleton.Disk.{error}
use os1_meaty_skeleton.Vfs.{Node, FileOperations, Allocator, Vfs, max_fds, set_at}
use os1_meaty_skeleton.Vfs.Path.{vfs_resolve_path, has_readdir}
use os1_meaty_skeleton.Vfs.Calls.{
  emfile, free_fd, set_fd, ops_of, usable, take_fd, open_node, vfs_open, once, vfs_unlink,
  vfs_access, is_negative,
}

module _ {S H : Type 0} where
  -- The descriptor is the first one that is not in use; `none` says that all are in use.
  abbrev pub IsLowest : Vfs S H → Option ℕ → Type 0
  IsLowest v none = (j : ℕ) → j < max_fds → (v.fds j).node ≢ 0
  IsLowest v (some i) =
      (i < max_fds) × ((v.fds i).node ≡ 0) × ((j : ℕ) → j < i → (v.fds j).node ≢ 0)

  abbrev IsFirst : Vfs S H → ℕ → ℕ → Option ℕ → Type 0
  IsFirst v i n none = (j : ℕ) → i ≤ j → j < i + n → (v.fds j).node ≢ 0
  IsFirst v i n (some k) =
      (i ≤ k) × (k < i + n) × ((v.fds k).node ≡ 0) × ((j : ℕ) → i ≤ j → j < k → (v.fds j).node ≢ 0)

  IsFirst-suc :
      (v : Vfs S H) (i n : ℕ) (r : Option ℕ)
      → (v.fds i).node ≢ 0
      → IsFirst v (i + 1) n r
      → IsFirst v i (suc n) r
  IsFirst-suc v i n none used h = λ j le lt. elim (Bool-cases (j == i)) [
    | inl y ↦ let e : j ≡ i = ground arith in subst (λ k. (v.fds k).node ≢ 0) (sym e) used
    | inr n' ↦ h j (ground arith) (ground arith)
  ]
  IsFirst-suc v i n (some k) used h = (
    omega (arith, h.0),
    omega (arith, h.1),
    h.2,
    λ j le lt. elim (Bool-cases (j == i)) [
      | inl y ↦ let e : j ≡ i = ground arith in subst (λ k'. (v.fds k').node ≢ 0) (sym e) used
      | inr n' ↦ h.3 j (ground arith) lt
    ],
  )

  free_fd-IsFirst : (n i : ℕ) (v : Vfs S H) → IsFirst v i n (free_fd n i v)
  unfolding free_fd
  free_fd-IsFirst zero i v = λ j le lt. absurd (omega arith)
  free_fd-IsFirst (suc n) i v = elim (Bool-cases ((v.fds i).node == 0)) [
    | inl y ↦
        let e : (v.fds i).node ≡ 0 = ground arith in
        rw y (omega arith, omega arith, e, λ j le lt. absurd (omega arith))
    | inr n' ↦
        let ne : (v.fds i).node ≢ 0 = ground arith in
        rw n' (IsFirst-suc v i n (free_fd n (i + 1) v) ne (free_fd-IsFirst n (i + 1) v))
  ]

  free_fd-IsLowest : (v : Vfs S H) → IsLowest v (free_fd max_fds 0 v)
  free_fd-IsLowest v = lowest (free_fd max_fds 0 v) (free_fd-IsFirst max_fds 0 v)
    where
      lowest : (r : Option ℕ) → IsFirst v 0 max_fds r → IsLowest v r
      lowest none h = λ j lt. h j (omega arith) (omega arith)
      lowest (some i) h = (omega (arith, h.1), h.2, λ j lt. h.3 j (omega arith) lt)

-- The descriptor that an open of the node `a` returns, and the table afterwards.
abbrev pub opened : {S H : Type 0} → Allocator H → ℕ → ℕ → Option ℕ → Vfs S H → ℤ × Vfs S H
opened al a flags none v = (error emfile, record v { heap = al.kfree v.heap a })
opened al a flags (some i) v =
    (pos i, set_fd i (record { node = a; offset = pos 0; flags = flags }) v)

module _ {S H : Type 0} (ops_at : ℕ → FileOperations S) (al : Allocator H) where
  take_fd-opened :
      (a flags : ℕ) (v : Vfs S H)
      → take_fd ops_at al a flags v ≡ opened al a flags (free_fd max_fds 0 v) v
  unfolding take_fd
  take_fd-opened a flags v = go (free_fd max_fds 0 v) refl
    where
      go :
          (r : Option ℕ)
          → free_fd max_fds 0 v ≡ r
          → take_fd ops_at al a flags v ≡ opened al a flags (free_fd max_fds 0 v) v
      go none e = rw (take_fd, e) refl
      go (some i) e = rw (take_fd, e) refl

  -- The node that the file system has opened, with its state.
  abbrev pub after_open : ℕ → Node → S → Vfs S H → Vfs S H
  after_open a n s v = record v { nodes = set_at v.nodes a n; fs = s }

  -- If the path names a node and the file system opens it, `vfs_open` returns the lowest descriptor
  -- that is not in use, at the offset 0, and changes no other one. When all 32 are in use it fails
  -- and frees the node.
  pub vfs_open-IsLowest :
      (path : List ℕ) (flags mode a r : ℕ) (v v' : Vfs S H) (n : Node) (s : S)
      (f : Node → ℕ → ℕ → S → ℤ × Node × S)
      → vfs_resolve_path ops_at al path v ≡ some (a, v')
      → usable ops_at al a v' ≡ true
      → (ops_of ops_at al a v').open_file ≡ some f
      → f (v'.nodes a) flags mode v'.fs ≡ (pos r, n, s)
      → (i : Option ℕ) × IsLowest v' i
        × (vfs_open ops_at al path flags mode v ≡ some (opened al a flags i (after_open a n s v')))
  unfolding vfs_open open_node free_fd
  vfs_open-IsLowest path flags mode a r v v' n s f resolved ok o opens =
      let positive : is_negative (pos r) ≡ false = ground arith in
      (
        free_fd max_fds 0 v',
        free_fd-IsLowest v',
        rw (vfs_open, resolved, open_node, o, ok, opens, positive)
            (ap some (take_fd-opened a flags (after_open a n s v'))),
      )

  resolve_root :
      (v : Vfs S H)
      → (v.nodes v.root).ops ≢ 0
      → has_readdir ops_at al (ops_of ops_at al v.root v) ≡ true
      → vfs_resolve_path ops_at al (b'/' ∷ []) v ≡ some (v.root, v)
  unfolding vfs_resolve_path
  resolve_root v mounted listed =
      let m : ((v.nodes v.root).ops == 0) ≡ false = ground (arith, mounted) in rw (m, listed) refl

  -- The node that an operation frees, and the root that the next one starts at.
  abbrev pub freed : ℕ → S → Vfs S H → Vfs S H
  freed a s v = record v { heap = al.kfree v.heap a; fs = s }

  once-freed :
      (f : Node → S → ℤ × S) (a : ℕ) (v : Vfs S H)
      → usable ops_at al a v ≡ true
      → once ops_at al (some f) a v ≡ ((f (v.nodes a) v.fs).0, freed a (f (v.nodes a) v.fs).1 v)
  unfolding once
  once-freed f a v ok = rw ok refl

  -- On the path "/" both `vfs_access` and `vfs_unlink` free the root's own node, and leave `root`
  -- pointing at it.
  pub access_frees_root :
      (mode : ℕ) (v : Vfs S H) (f : Node → ℕ → S → ℤ × S) (g : Node → S → ℤ × S)
      → v.root ≢ 0
      → (v.nodes v.root).ops ≢ 0
      → has_readdir ops_at al (ops_of ops_at al v.root v) ≡ true
      → (ops_of ops_at al v.root v).access ≡ some f
      → (ops_of ops_at al v.root v).unlink ≡ some g
      → (vfs_access ops_at al (b'/' ∷ []) mode v
          ≡ some
              ((f (v.nodes v.root) mode v.fs).0, freed v.root (f (v.nodes v.root) mode v.fs).1 v))
        × (vfs_unlink ops_at al (b'/' ∷ []) v
            ≡ some ((g (v.nodes v.root) v.fs).0, freed v.root (g (v.nodes v.root) v.fs).1 v))
  unfolding vfs_access vfs_unlink
  access_frees_root mode v f g ne mounted listed has_access has_unlink =
      let ok : usable ops_at al v.root v ≡ true = ground (arith, ne, mounted) in
      let resolved = resolve_root v mounted listed in
      (
        rw (vfs_access, resolved, has_access)
            (ap some (once-freed (λ n s. f n mode s) v.root v ok)),
        rw (vfs_unlink, resolved, has_unlink) (ap some (once-freed g v.root v ok)),
      )
