-- ===== src/Paging/Fresh.antt =====
-- A page table that `get_free_pagetable` of src/kernel/arch/i386/paging.c hands out is cleared and
-- entered into the directory. No translation changes by that.
use os1_meaty_skeleton.Prelude.{
  ℕ, ◌+◌, ◌/◌, ◌%◌, ◌^◌, ◌≤◌, ◌<◌, ◌≡◌, ◌≢◌, ◌⊎◌, inl, inr, refl, ap, sym, ◌∙◌, Option, none, some,
  arith, ◌==◌, Bool-cases,
}
use os1_meaty_skeleton.Paging.{
  Memory, Paging, write, entry_at, table_at, take_table, flush_table, pagetables_maxsize,
}
use os1_meaty_skeleton.Paging.Words.{write_same, write_other, flush_table-IsFilled}
use os1_meaty_skeleton.Paging.Walk.{
  walk, entry_in, slot, slot_in, slot_of, slot_of_ext, slot_of-taken, slot_present, slot_absent,
  present, IsSpace,
}

-- The table that is handed out next, and memory when it is cleared and entered at `i`.
abbrev pub fresh_table : ℕ → Paging → ℕ
fresh_table pool s = table_at pool s.last_pagetable_idx

abbrev pub with_fresh : ℕ → ℕ → Paging → ℕ → Memory
with_fresh pool dir s i =
    let table = fresh_table pool s in write (flush_table table s.mem) (entry_at dir i) (table + 3)

module _ {pool dir : ℕ} (s : Paging) (i : ℕ) (sp : IsSpace pool dir s) (lt : i < 1024)
    (absent : s.mem (entry_at dir i) % 2 ≡ 0)
    (room : s.last_pagetable_idx < pagetables_maxsize) where
  abbrev table : ℕ
  table = fresh_table pool s

  pub entered-odd : with_fresh pool dir s i (entry_at dir i) % 2 ≡ 1
  entered-odd = omega (
    arith,
    write_same (flush_table (fresh_table pool s) s.mem) (entry_at dir i) (fresh_table pool s + 3),
    sp.layout.pool_aligned,
  )

  abbrev entered : Memory
  entered = with_fresh pool dir s i

  -- What is neither in the new table nor the entry has not changed.
  entered-outside :
      (x : ℕ) → (x < table) ⊎ (table + 4096 ≤ x) → x ≢ entry_at dir i → entered x ≡ s.mem x
  entered-outside x out ne =
      write_other (flush_table table s.mem) _ _ x ne
      ∙ (flush_table-IsFilled table s.mem).outside x (omega arith)

  entered-dir : (j : ℕ) → j < 1024 → j ≢ i → entered (entry_at dir j) ≡ s.mem (entry_at dir j)
  entered-dir j l ne =
      entered-outside (entry_at dir j) (omega (arith, sp.layout.apart)) (omega arith)

  entered-here : entered (entry_at dir i) ≡ table + 3
  entered-here = write_same (flush_table table s.mem) (entry_at dir i) (table + 3)

  pub entered-IsSpace : IsSpace pool dir (take_table s (with_fresh pool dir s i))
  entered-IsSpace = record {
    layout = sp.layout;
    taken = omega arith;
    tables = λ j l odd. elim (Bool-cases (j == i)) [
      | inl e ↦
          let here : j ≡ i = ground arith in
          (
            s.last_pagetable_idx,
            omega arith,
            omega (
              arith,
              ap (λ (n : ℕ). entered (entry_at dir n)) here,
              entered-here,
              sp.layout.pool_aligned,
            ),
          )
      | inr e ↦
          let there = entered-dir j l (ground arith) in
          let (k, below, at) = sp.tables j l (omega (arith, there)) in
          (k, omega arith, omega (arith, there))
    ];
  }

  entered-same :
      (o : Option ℕ)
      → ((q : ℕ) → o ≡ some q → entered q ≡ s.mem q)
      → entry_in entered o ≡ entry_in s.mem o
  unfolding entry_in
  entered-same none h = refl
  entered-same (some q) h = ap present (h q refl)

  pub entered-walk :
      (page : ℕ) → page < 2 ^ 20 → walk (with_fresh pool dir s i) dir page ≡ walk s.mem dir page
  unfolding entry_in present
  entered-walk page l = elim (Bool-cases (page / 1024 == i)) [
    | inl e ↦
        let here : page / 1024 ≡ i = ground arith in
        let pde : entered (entry_at dir (page / 1024)) ≡ table + 3 =
          ap (λ (n : ℕ). entered (entry_at dir n)) here ∙ entered-here in
        let before : s.mem (entry_at dir (page / 1024)) % 2 ≡ 0 =
          ap (λ (n : ℕ). s.mem (entry_at dir n) % 2) here ∙ absent in
        let at : slot_of entered dir page ≡ some (slot (table + 3) page) =
          ap (λ (w : ℕ). slot_in w page) pde
          ∙ slot_present (table + 3) page (omega (arith, sp.layout.pool_aligned)) in
        let cleared : entered (slot (table + 3) page) ≡ 0 =
          write_other (flush_table table s.mem) _ _ (slot (table + 3) page)
            (omega (arith, sp.layout.pool_aligned, sp.layout.apart))
          ∙ (ap (flush_table table s.mem) (omega (arith, sp.layout.pool_aligned))
              ∙ (flush_table-IsFilled table s.mem).inside (page % 1024) (omega arith)) in
        ap (entry_in entered) at
        ∙ (ap present cleared ∙ sym (ap (entry_in s.mem) (slot_absent _ page before)))
    | inr e ↦
        let ne : page / 1024 ≢ i = ground arith in
        ap (entry_in entered)
          (slot_of_ext s.mem entered dir page (entered-dir (page / 1024) (omega arith) ne))
        ∙ entered-same (slot_of s.mem dir page) (λ q o.
          let (k, below, at) = slot_of-taken s page q sp l o in
          entered-outside q (omega arith) (omega (arith, sp.layout.apart)))
  ]
