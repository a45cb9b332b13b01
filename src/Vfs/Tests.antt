-- ===== src/Vfs/Tests.antt =====
-- The theorems on the virtual file system at a small one, and runs of the code.
use os1_meaty_skeleton.Prelude.{
  ℕ, suc, ◌+◌, ◌-◌, ◌≡◌, refl, Bool, true, false, Option, none, some, List, [], ◌∷◌, arith, min,
  ltb, ◌==◌, if◌then◌else◌,
}
use os1_meaty_skeleton.Prelude.Int.{◌+int◌, ℤ, pos, negsuc, pos_part}
use os1_meaty_skeleton.Disk.{Buffer, Dirent}
use os1_meaty_skeleton.Str.{tolower}
use os1_meaty_skeleton.Vfs.{Node, FileOperations, Allocator, Vfs}
use os1_meaty_skeleton.Vfs.Path.{
  same_name, node_of, add_node, find_entry, vfs_lookup, vfs_resolve_path,
}
use os1_meaty_skeleton.Vfs.Calls.{
  advance_fd, vfs_lseek, vfs_read, vfs_write, vfs_close, vfs_open, vfs_access, vfs_unlink,
}
use os1_meaty_skeleton.Vfs.Lookup.{first_named, found, vfs_lookup-first, vfs_lookup_stuck}
use os1_meaty_skeleton.Vfs.Files.{
  IsLowest, opened, after_open, vfs_open-IsLowest, freed, access_frees_root,
}
use os1_meaty_skeleton.Vfs.Offsets.{IsValid, ReadsBelow, calls-IsValid}
use os1_meaty_skeleton.Vfs.Stream.{reads, slices, Serves, reads-slices}

abbrev a_txt : Dirent
a_txt = record { d_ino = 3; d_name = b'A' ∷ b'.' ∷ b'T' ∷ []; d_type = 8 }

abbrev docs : Dirent
docs = record { d_ino = 4; d_name = b'D' ∷ b'O' ∷ b'C' ∷ []; d_type = 4 }

-- Ten bytes, of which the byte `k` is `k`.
abbrev content : ℕ → ℕ → Buffer → Buffer
content off n buf x = if ltb x n then off + x else buf x

abbrev list_two : Node → Dirent → ℕ → ℕ → ℤ × Dirent × ℕ × ℕ
list_two n entry i s =
    if i == 0
    then (pos 1, a_txt, 1, s)
    else (if i == 1 then (pos 1, docs, 2, s) else (pos 0, entry, i, s))

abbrev read_ten : Node → Buffer → ℕ → ℤ → ℕ → ℤ × Buffer × ℕ
read_ten n buf count off s = (
  pos (min count (10 - pos_part off)),
  content (pos_part off) (min count (10 - pos_part off)) buf,
  s,
)

abbrev fail : Node → Dirent → ℕ → ℕ → ℤ × Dirent × ℕ × ℕ
fail n entry i s = (negsuc 4, entry, i, s)

-- The operations 1 are those of a small file system, the operations 2 those of a broken disk.
abbrev table : ℕ → FileOperations ℕ
table k = record {
  open_file = some λ n flags mode s. (pos 0, n, s);
  read = some read_ten;
  write = none;
  readdir = some (if k == 1 then list_two else fail);
  close = some λ n s. (pos 0, s);
  unlink = some λ n s. (negsuc 37, s);
  stat = none;
  access = some λ n mode s. (pos 0, s);
}

abbrev bump : Allocator ℕ
bump = record { kmalloc = λ h n. (h, h + n); kfree = λ h a. a; stale = λ h. docs }

abbrev plain : ℕ → Bool → Node
plain ops is_dir = record { name = []; cluster = 2; is_dir = is_dir; ops = ops; private_data = 0 }

-- The root is at 100, and the descriptor 0 is open on the file at 200.
abbrev mounted : ℕ → Vfs ℕ ℕ
mounted ops = record {
  root = 100;
  nodes = λ a. plain ops (a == 100);
  fds = λ i. record { node = (if i == 0 then 200 else 0); offset = pos 0; flags = 0 };
  heap = 1000;
  fs = 7;
}

abbrev doc : List ℕ
doc = b'd' ∷ b'o' ∷ b'c' ∷ []

vfs_lookup-first_example :
    vfs_lookup table bump 100 doc (mounted 1)
    ≡ some (found table bump 100 (first_named doc (a_txt ∷ docs ∷ [])) (mounted 1))
vfs_lookup-first_example =
    vfs_lookup-first table bump 100 doc (mounted 1) (a_txt ∷ docs ∷ []) list_two refl refl
      ((λ entry. refl), ((λ entry. refl), λ entry. refl)) (omega arith)

found_docs : first_named doc (a_txt ∷ docs ∷ []) ≡ some docs
unfolding same_name tolower
found_docs = refl

-- The stack holds another entry than the one that is looked for.
abbrev a_doc : List ℕ
a_doc = b'a' ∷ doc

stale_other : same_name docs.d_name a_doc ≡ false
unfolding same_name tolower
stale_other = refl

vfs_lookup_stuck_example :
    ((k : ℕ)
      → find_entry (suc k) fail (plain 2 true) a_doc docs 0 7
        ≡ (if same_name docs.d_name a_doc then some (some docs, 7) else none))
    × (vfs_lookup table bump 100 a_doc (mounted 2) ≡ (
        if same_name docs.d_name a_doc
        then some (add_node table bump (node_of (plain 2 true) docs) (mounted 2))
        else none))
vfs_lookup_stuck_example =
    vfs_lookup_stuck table bump 100 a_doc (mounted 2) 4 fail refl refl λ entry i. refl

vfs_open-IsLowest_example :
    (i : Option ℕ) × IsLowest (mounted 1) i
    × (vfs_open table bump (b'/' ∷ []) 0 0 (mounted 1)
        ≡ some (opened bump 100 0 i (after_open table bump 100 (plain 1 true) 7 (mounted 1))))
unfolding vfs_resolve_path
vfs_open-IsLowest_example =
    vfs_open-IsLowest table bump (b'/' ∷ []) 0 0 100 0 (mounted 1) (mounted 1) (plain 1 true) 7
      (λ n flags mode s. (pos 0, n, s)) refl refl refl refl

access_frees_root_example :
    (vfs_access table bump (b'/' ∷ []) 0 (mounted 1)
      ≡ some (pos 0, freed table bump 100 7 (mounted 1)))
    × (vfs_unlink table bump (b'/' ∷ []) (mounted 1)
        ≡ some (negsuc 37, freed table bump 100 7 (mounted 1)))
access_frees_root_example =
    access_frees_root table bump 0 (mounted 1) (λ n mode s. (pos 0, s)) (λ n s. (negsuc 37, s))
      (omega arith) (omega arith) refl refl refl

table-ReadsBelow : (k : ℕ) → ReadsBelow (table k).read
table-ReadsBelow k = λ n buf count off s h. omega (arith, h.1)

calls-IsValid_example :
    IsValid (vfs_lseek (pos 0) (negsuc 2) 1 (mounted 1)).1
    × IsValid (vfs_read table bump (pos 0) (λ _. 0) 4 (mounted 1)).2
    × IsValid (vfs_write table bump (pos 0) (λ _. 0) 4 (mounted 1)).1
    × IsValid (vfs_close table bump (pos 0) (mounted 1)).1
calls-IsValid_example =
    calls-IsValid table bump (pos 0) (negsuc 2) 1 4 (λ _. 0) (mounted 1) (λ i. (refl, omega arith))
      (omega arith) table-ReadsBelow (λ k. tt)

-- An offset of 2 ^ 31 - 1 turns negative behind one byte more.
abbrev at_end : Vfs ℕ ℕ
at_end = record (mounted 1) { fds = λ i. record { node = 200; offset = pos 0x7fffffff; flags = 0 } }

offset_test : ((advance_fd 0 (pos 1) at_end).fds 0).offset ≡ negsuc 0x7fffffff
unfolding advance_fd ◌+int◌
offset_test = refl

file_open : Serves table bump content 10 0 200 (mounted 1)
file_open = record {
  small = omega arith;
  at = refl;
  used = omega arith;
  mounted = omega arith;
  read = read_ten;
  member = refl;
  reads_file = λ buf count off. refl;
}

reads-slices_example :
    reads table bump (pos 0) (λ _. 0) (4 ∷ 4 ∷ 4 ∷ 4 ∷ []) (mounted 1)
    ≡ slices content 10 0 (λ _. 0) (4 ∷ 4 ∷ 4 ∷ 4 ∷ [])
reads-slices_example =
    reads-slices table bump content 10 0 200 (4 ∷ 4 ∷ 4 ∷ 4 ∷ []) (λ _. 0) 0 (mounted 1) file_open
      refl (omega arith) (omega arith)
