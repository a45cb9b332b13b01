-- ===== src/Vfs/Stream.antt =====
-- Reading a file of src/kernel/fs/vfs.c through a descriptor, piece after piece.
use os1_meaty_skeleton.Prelude.{
  ℕ, ◌+◌, ◌-◌, ◌%◌, ◌^◌, ◌<◌, ◌≡◌, ◌≢◌, refl, ap, ap₂, ◌∙◌, true, false, some, List, [], ◌∷◌, arith,
  min, subst, sym, ltb, ◌==◌, Bool-cases, inl, inr,
}
use os1_meaty_skeleton.Prelude.Int.{ℤ, pos, ltb_ℤ, ◌+int◌}
use os1_meaty_skeleton.Disk.{Buffer}
use os1_meaty_skeleton.Vfs.{Node, FileOperations, Allocator, Vfs, max_fds}
use os1_meaty_skeleton.Vfs.Calls.{in_use, advance_fd, ops_of, vfs_read, read_from}

-- A client that reads `counts` bytes one time after another: the results and the buffers.
abbrev pub reads :
    {S H : Type 0}
    → (ℕ → FileOperations S)
    → Allocator H
    → ℤ
    → Buffer
    → List ℕ
    → Vfs S H
    → List (ℤ × Buffer)
reads ops_at al fd buf [] v = []
reads ops_at al fd buf (count ∷ counts) v =
    let (ret, buf', v') = vfs_read ops_at al fd buf count v in
    (ret, buf') ∷ reads ops_at al fd buf' counts v'

-- What it should get of a file of `size` bytes from `off` on, where `content off count buf` is the
-- buffer once `count` bytes from `off` on are in it.
abbrev pub slices : (ℕ → ℕ → Buffer → Buffer) → ℕ → ℕ → Buffer → List ℕ → List (ℤ × Buffer)
slices content size off buf [] = []
slices content size off buf (count ∷ counts) =
    let n = min count (size - off) in
    let buf' = content off n buf in (pos n, buf') ∷ slices content size (off + n) buf' counts

-- The descriptor `i` is open on the node `a` of a file system whose `read` is that of such a file.
pub record Serves {S H : Type 0} (ops_at : ℕ → FileOperations S) (al : Allocator H)
    (content : ℕ → ℕ → Buffer → Buffer) (size i a : ℕ) (v : Vfs S H) : Type 0 where
  pub small : i < max_fds
  pub at : (v.fds i).node ≡ a
  pub used : a ≢ 0
  pub mounted : (v.nodes a).ops ≢ 0
  pub read : Node → Buffer → ℕ → ℤ → S → ℤ × Buffer × S
  pub member : (ops_of ops_at al a v).read ≡ some read
  pub reads_file :
      (buf : Buffer) (count off : ℕ)
      → read (v.nodes a) buf count (pos off) v.fs
        ≡ (pos (min count (size - off)), content off (min count (size - off)) buf, v.fs)

module _ {S H : Type 0} where
  in_use-some :
      (i a : ℕ) (v : Vfs S H) → i < max_fds → (v.fds i).node ≡ a → a ≢ 0 → in_use (pos i) v ≡ some i
  unfolding in_use
  in_use-some i a v lt at ne =
      let small : ltb i max_fds ≡ true = ground arith in
      let used : ((v.fds i).node == 0) ≡ false = ground arith in rw (in_use, small, used) refl

  advance_fd-pos :
      (i n off : ℕ) (v : Vfs S H)
      → (v.fds i).offset ≡ pos off
      → off + n < 2 ^ 31
      → ((advance_fd i (pos n) v).fds i).offset ≡ pos (off + n)
  unfolding advance_fd ◌+int◌
  advance_fd-pos i n off v e small =
      let sum : (off % 2 ^ 32 + n % 2 ^ 32) % 2 ^ 32 ≡ off + n = omega arith in
      let low : ltb (off + n) (2 ^ 31) ≡ true = ground arith in
      let here : (i == i) ≡ true = ground arith in
      elim (Bool-cases (ltb 0 n)) [
        | inl y ↦
            let lit : ltb_ℤ (pos 0) (pos n) ≡ true = ground arith in
            rw (lit, here, e, sum, low) refl
        | inr no' ↦
            let lit : ltb_ℤ (pos 0) (pos n) ≡ false = ground arith in
            rw lit (e ∙ ap pos (ground arith))
      ]

  advance_fd-same :
      (i : ℕ) (r : ℤ) (v : Vfs S H)
      → (((advance_fd i r v).fds i).node ≡ (v.fds i).node)
        × ((advance_fd i r v).nodes ≡ v.nodes)
        × ((advance_fd i r v).fs ≡ v.fs)
  unfolding advance_fd
  advance_fd-same i r v =
      let here : (i == i) ≡ true = ground arith in
      elim (Bool-cases (ltb_ℤ (pos 0) r)) [
        | inl y ↦ rw (y, here) (refl, refl, refl)
        | inr no' ↦ rw no' (refl, refl, refl)
      ]

module _ {S H : Type 0} (ops_at : ℕ → FileOperations S) (al : Allocator H)
    (content : ℕ → ℕ → Buffer → Buffer) (size i a : ℕ) where
  advance_fd-Serves :
      (r : ℤ) (v : Vfs S H)
      → Serves ops_at al content size i a v
      → Serves ops_at al content size i a (advance_fd i r v)
  advance_fd-Serves r v h =
      let same = advance_fd-same i r v in
      record {
        small = h.small;
        at = same.0 ∙ h.at;
        used = h.used;
        mounted = subst (λ ns. (ns a).ops ≢ 0) (sym same.1) h.mounted;
        read = h.read;
        member = subst (λ ns. (ops_at (ns a).ops).read ≡ some h.read) (sym same.1) h.member;
        reads_file = λ buf count off.
            ap₂ (λ (ns : ℕ → Node) (s : S). h.read (ns a) buf count (pos off) s) same.1 same.2
            ∙ h.reads_file buf count off
            ∙ ap (λ s. (pos (min count (size - off)), content off (min count (size - off)) buf, s))
                (sym same.2);
      }

  vfs_read-slice :
      (buf : Buffer) (count off : ℕ) (v : Vfs S H)
      → Serves ops_at al content size i a v
      → (v.fds i).offset ≡ pos off
      → vfs_read ops_at al (pos i) buf count v ≡ (
        pos (min count (size - off)),
        content off (min count (size - off)) buf,
        advance_fd i (pos (min count (size - off))) v,
      )
  unfolding vfs_read read_from
  vfs_read-slice buf count off v h o =
      let opened = in_use-some i a v h.small h.at h.used in
      let mounted : ((v.nodes a).ops == 0) ≡ false = ground (arith, h.mounted) in
      rw (vfs_read, opened, h.at, h.member, h.at, mounted, o, h.reads_file buf count off) refl

  -- However a client cuts its reads of a file of fewer than 2 ^ 31 bytes, from an offset below 2 ^ 31 on, it
  -- gets the file's bytes in order: each call returns the bytes
  -- behind the last one's, as many as were asked for or are left, and then 0 at the end.
  pub reads-slices :
      (counts : List ℕ) (buf : Buffer) (off : ℕ) (v : Vfs S H)
      → Serves ops_at al content size i a v
      → (v.fds i).offset ≡ pos off
      → off < 2 ^ 31
      → size < 2 ^ 31
      → reads ops_at al (pos i) buf counts v ≡ slices content size off buf counts
  reads-slices [] buf off v h o low small = refl
  reads-slices (count ∷ counts) buf off v h o low small =
      let n : ℕ = min count (size - off) in
      rw (vfs_read-slice buf count off v h o) (
        ap (λ rs. (pos n, content off n buf) ∷ rs)
          (reads-slices counts (content off n buf) (off + n) (advance_fd i (pos n) v)
            (advance_fd-Serves (pos n) v h) (advance_fd-pos i n off v o (omega arith)) (omega arith)
            small))
