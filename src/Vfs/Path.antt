-- ===== src/Vfs/Path.antt =====
-- `vfs_lookup` and `vfs_resolve_path` of src/kernel/fs/vfs.c. A string is the list of its characters.
use os1_meaty_skeleton.Prelude.{
  ℕ, zero, suc, ◌^◌, Bool, true, false, not, ◌||◌, Option, none, some, List, [], ◌∷◌, map, take,
  ◌==◌, if◌then◌else◌,
}
use os1_meaty_skeleton.Prelude.Int.{ℤ, pos, negsuc}
use os1_meaty_skeleton.Disk.{Dirent}
use os1_meaty_skeleton.Str.{tolower}
use os1_meaty_skeleton.Vfs.{Node, FileOperations, Allocator, Vfs, node_size, set_at, same}

-- `stricmp(a, b) == 0`
unfoldable pub same_name : List ℕ → List ℕ → Bool
same_name a b = same (map tolower a) (map tolower b)

abbrev pub is_zero : ℤ → Bool
is_zero (pos n) = n == 0
is_zero (negsuc n) = false

-- The loop's bound: an index has 32 bits.
abbrev pub rounds : ℕ
rounds = 2 ^ 32

-- "Isolate component": the characters before the first slash, and the components behind it. The last
-- component is the one that no slash follows.
unfoldable pub components : List ℕ → List ℕ × List (List ℕ)
components [] = ([], [])
components (c ∷ cs) =
    let (first, others) = components cs in
    if c == b'/' then ([], first ∷ others) else (c ∷ first, others)

-- "Skip leading /"
abbrev pub skip_slash : List ℕ → List ℕ
skip_slash [] = []
skip_slash (c ∷ cs) = if c == b'/' then cs else c ∷ cs

-- `strcmp(pathname, "/") == 0 || pathname[0] == '\0'`
abbrev pub names_root : List ℕ → Bool
names_root [] = true
names_root (c ∷ []) = c == b'/'
names_root (c ∷ d ∷ cs) = false

-- The node for an entry: it shares the directory's operations and private data. DT_DIR is 4.
abbrev pub node_of : Node → Dirent → Node
node_of dir entry = record {
  name = take 255 entry.d_name;
  cluster = entry.d_ino;
  is_dir = entry.d_type == 4;
  ops = dir.ops;
  private_data = dir.private_data;
}

module _ {S : Type 0} where
  -- The loop of `vfs_lookup`: the entry found, if there is one, and the file system afterwards.
  -- `none` is a loop that goes on for more rounds than its fuel.
  unfoldable pub find_entry :
      ℕ
      → (Node → Dirent → ℕ → S → ℤ × Dirent × ℕ × S)
      → Node
      → List ℕ
      → Dirent
      → ℕ
      → S
      → Option (Option Dirent × S)
  find_entry zero readdir dir name entry index s = none
  find_entry (suc k) readdir dir name entry index s =
      let (ret, entry', index', s') = readdir dir entry index s in
      let rest = find_entry k readdir dir name entry' index' s' in
      if is_zero ret
      then some (none, s')
      else (if same_name entry'.d_name name then some (some entry', s') else rest)

module _ {S H : Type 0} (ops_at : ℕ → FileOperations S) (al : Allocator H) where
  unfoldable pub add_node : Node → Vfs S H → ℕ × Vfs S H
  add_node n v =
      let (a, heap) = al.kmalloc v.heap node_size in
      if a == 0
      then (0, record v { heap = heap })
      else (a, record v { heap = heap; nodes = set_at v.nodes a n })

  -- What `vfs_lookup` does once its loop has ended.
  unfoldable pub node_found : ℕ → Vfs S H → Option (Option Dirent × S) → Option (ℕ × Vfs S H)
  node_found dir v none = none
  node_found dir v (some (none, s)) = some (0, record v { fs = s })
  node_found dir v (some (some entry, s)) =
      some (add_node (node_of (v.nodes dir) entry) (record v { fs = s }))

  -- `vfs_lookup`: the address of a new node, or NULL.
  unfoldable pub vfs_lookup : ℕ → List ℕ → Vfs S H → Option (ℕ × Vfs S H)
  vfs_lookup dir name v = elim (ops_at (v.nodes dir).ops).readdir [
    | none ↦ some (0, v)
    | some readdir ↦
        if (v.nodes dir).is_dir
        then node_found dir v
            (find_entry rounds readdir (v.nodes dir) name (al.stale v.heap) 0 v.fs)
        else some (0, v)
  ]

  -- The loop over the components, and the final one: an empty one is left out.
  unfoldable pub walk : ℕ → List ℕ → List (List ℕ) → Vfs S H → Option (ℕ × Vfs S H)
  walk current component [] v = elim component [
    | [] ↦ some (current, v)
    | c ∷ cs ↦ vfs_lookup current (c ∷ cs) v
  ]
  walk current component (next ∷ others) v = elim (vfs_lookup current component v) [
    | none ↦ none
    | some (node, v') ↦ if node == 0 then some (0, v') else walk node next others v'
  ]

  abbrev pub has_readdir : FileOperations S → Bool
  has_readdir o = elim o.readdir [ none ↦ false | some f ↦ true ]

  -- `vfs_resolve_path`: the address of the node, or NULL. MAX_PATH is 256.
  unfoldable pub vfs_resolve_path : List ℕ → Vfs S H → Option (ℕ × Vfs S H)
  vfs_resolve_path pathname v =
      if (v.nodes v.root).ops == 0 || not (has_readdir (ops_at (v.nodes v.root).ops))
      then some (0, v)
      else (if names_root pathname
          then some (v.root, v)
          else (let (first, others) = components (skip_slash (take 255 pathname)) in
              walk v.root first others v))
