-- ===== src/Vfs/Lookup.antt =====
-- What `vfs_lookup` and the splitting of paths of src/kernel/fs/vfs.c find.
use os1_meaty_skeleton.Prelude.{
  ℕ, zero, suc, ◌+◌, ◌-◌, ◌^◌, ◌<◌, ◌≡◌, ◌∙◌, ◌≢◌, refl, true, false, Option, none, some, List, [],
  ◌∷◌, ◌++◌, arith, length, append-nil, subst, ◌==◌, if◌then◌else◌, Bool-cases, inl, inr,
}
use os1_meaty_skeleton.Prelude.Int.{ℤ, pos, negsuc}
use os1_meaty_skeleton.Disk.{Dirent}
use os1_meaty_skeleton.Vfs.{Node, FileOperations, Allocator, Vfs}
use os1_meaty_skeleton.Vfs.Path.{
  same_name, rounds, components, find_entry, node_of, add_node, node_found, vfs_lookup,
}

-- The first entry of that name, in whatever case.
abbrev pub first_named : List ℕ → List Dirent → Option Dirent
first_named name [] = none
first_named name (e ∷ es) =
    let rest = first_named name es in if same_name e.d_name name then some e else rest

module _ {S : Type 0} (readdir : Node → Dirent → ℕ → S → ℤ × Dirent × ℕ × S) (dir : Node)
    (s : S) where
  -- From the index `i` on, the directory has the entries `es`.
  abbrev pub Lists : ℕ → List Dirent → Type 0
  Lists i [] = (entry : Dirent) → readdir dir entry i s ≡ (pos 0, entry, i, s)
  Lists i (e ∷ es) =
      ((entry : Dirent) → readdir dir entry i s ≡ (pos 1, e, i + 1, s)) × Lists (i + 1) es

  find_entry-first :
      (k i : ℕ) (name : List ℕ) (entry : Dirent) (es : List Dirent)
      → length es < k
      → Lists i es
      → find_entry k readdir dir name entry i s ≡ some (first_named name es, s)
  unfolding find_entry
  find_entry-first zero i name entry es lt h = absurd (omega arith)
  find_entry-first (suc k) i name entry [] lt h = rw (h entry) refl
  find_entry-first (suc k) i name entry (e ∷ es) lt h =
      let ih = find_entry-first k (i + 1) name e es (omega arith) h.1 in
      rw (h.0 entry) (elim (Bool-cases (same_name e.d_name name)) [
        | inl y ↦ rw y refl
        | inr n ↦ rw (n, ih) refl
      ])

  -- A directory that cannot be read, and that leaves the entry and the index as they are.
  find_entry-stale :
      (k : ℕ) (name : List ℕ) (entry : Dirent) (i err : ℕ)
      → ((entry : Dirent) (i : ℕ) → readdir dir entry i s ≡ (negsuc err, entry, i, s))
      → find_entry (suc k) readdir dir name entry i s
        ≡ (if same_name entry.d_name name then some (some entry, s) else none)
  unfolding find_entry
  find_entry-stale zero name entry i err h = rw (h entry i) refl
  find_entry-stale (suc k) name entry i err h =
      let ih = find_entry-stale k name entry i err h in
      rw (h entry i) (elim (Bool-cases (same_name entry.d_name name)) [
        | inl y ↦ rw y refl
        | inr n ↦ rw n (ih ∙ rw n refl)
      ])

module _ {S H : Type 0} (ops_at : ℕ → FileOperations S) (al : Allocator H) where
  abbrev pub found : ℕ → Option Dirent → Vfs S H → ℕ × Vfs S H
  found dir none v = (0, v)
  found dir (some e) v = add_node ops_at al (node_of (v.nodes dir) e) v

  node_found-found :
      (dir : ℕ) (v : Vfs S H) (r : Option Dirent)
      → node_found ops_at al dir v (some (r, v.fs)) ≡ some (found dir r v)
  unfolding node_found
  node_found-found dir v none = refl
  node_found-found dir v (some e) = refl

  -- In a directory with the entries `es`, fewer than 2 ^ 32, `vfs_lookup` ends. It makes a node for
  -- the first entry that has the name, in whatever case, and returns NULL if there is none.
  pub vfs_lookup-first :
      (dir : ℕ) (name : List ℕ) (v : Vfs S H) (es : List Dirent)
      (readdir : Node → Dirent → ℕ → S → ℤ × Dirent × ℕ × S)
      → (v.nodes dir).is_dir ≡ true
      → (ops_at (v.nodes dir).ops).readdir ≡ some readdir
      → Lists readdir (v.nodes dir) v.fs 0 es
      → length es < rounds
      → vfs_lookup ops_at al dir name v ≡ some (found dir (first_named name es) v)
  unfolding vfs_lookup node_found
  vfs_lookup-first dir name v es readdir d o h lt =
      let e = find_entry-first readdir (v.nodes dir) v.fs rounds 0 name (al.stale v.heap) es lt h in
      rw (vfs_lookup, o, e, d) (node_found-found dir v (first_named name es))

  -- Where the directory cannot be read, the loop of `vfs_lookup` takes the error for an entry: what the
  -- uninitialised `entry` holds. If that has the name, in whatever case, `vfs_lookup` makes a node for it.
  -- Otherwise no number of turns ends the loop.
  pub vfs_lookup_stuck :
      (dir : ℕ) (name : List ℕ) (v : Vfs S H) (err : ℕ)
      (readdir : Node → Dirent → ℕ → S → ℤ × Dirent × ℕ × S)
      → (v.nodes dir).is_dir ≡ true
      → (ops_at (v.nodes dir).ops).readdir ≡ some readdir
      → ((entry : Dirent) (i : ℕ)
          → readdir (v.nodes dir) entry i v.fs ≡ (negsuc err, entry, i, v.fs))
      → ((k : ℕ)
          → find_entry (suc k) readdir (v.nodes dir) name (al.stale v.heap) 0 v.fs ≡ (
              if same_name (al.stale v.heap).d_name name
              then some (some (al.stale v.heap), v.fs)
              else none))
        × (vfs_lookup ops_at al dir name v ≡ (
            if same_name (al.stale v.heap).d_name name
            then some (add_node ops_at al (node_of (v.nodes dir) (al.stale v.heap)) v)
            else none))
  unfolding vfs_lookup node_found
  vfs_lookup_stuck dir name v err readdir d o h =
      let entry = al.stale v.heap in
      let e = λ (k : ℕ). find_entry-stale readdir (v.nodes dir) v.fs k name entry 0 err h in
      (
        e,
        rw (vfs_lookup, o, e (2 ^ 32 - 1), d)
            (elim (Bool-cases (same_name entry.d_name name)) [
              | inl y ↦ rw y refl
              | inr n ↦ rw n refl
            ]),
      )

-- The components joined by slashes.
abbrev pub joined : List ℕ → List (List ℕ) → List ℕ
joined p [] = p
joined p (q ∷ qs) = p ++ b'/' ∷ joined q qs

abbrev pub NoSlash : List ℕ → Type 0
NoSlash [] = Unit
NoSlash (c ∷ cs) = (c ≢ b'/') × NoSlash cs

abbrev pub AllNoSlash : List (List ℕ) → Type 0
AllNoSlash [] = Unit
AllNoSlash (p ∷ ps) = NoSlash p × AllNoSlash ps

components-append :
    (p : List ℕ) (cs first : List ℕ) (others : List (List ℕ))
    → NoSlash p
    → components cs ≡ (first, others)
    → components (p ++ cs) ≡ (p ++ first, others)
unfolding components
components-append [] cs first others h e = e
components-append (c ∷ p) cs first others h e =
    let n : (c == b'/') ≡ false = ground (arith, h.0) in
    rw (components-append p cs first others h.1 e, n) refl

-- Splitting a path gives back the components that were joined by slashes, the empty ones too, if
-- no component has a slash in it.
pub components-joined :
    (p : List ℕ) (ps : List (List ℕ))
    → NoSlash p
    → AllNoSlash ps
    → components (joined p ps) ≡ (p, ps)
unfolding components
components-joined p [] h hs =
    subst (λ k. components k ≡ (p, [])) (append-nil p)
      (subst (λ k. components (p ++ []) ≡ (k, [])) (append-nil p)
        (components-append p [] [] [] h refl))
components-joined p (q ∷ qs) h hs =
    let rest = components-joined q qs hs.0 hs.1 in
    subst (λ k. components (p ++ b'/' ∷ joined q qs) ≡ (k, q ∷ qs)) (append-nil p)
      (components-append p (b'/' ∷ joined q qs) [] (q ∷ qs) h (rw rest refl))
