-- ===== src/Paging/Mapping.antt =====
-- What `map_phys_to_virt` of src/kernel/arch/i386/paging.c does to the translation of pages.
use os1_meaty_skeleton.Prelude.{
  ℕ, ◌+◌, ◌*◌, ◌/◌, ◌%◌, ◌^◌, ◌≤◌, ◌<◌, ◌≡◌, ◌≢◌, ◌⊎◌, inl, inr, refl, ap, sym, ◌∙◌, bit_or, Option,
  none, some, arith, ◌==◌, true, false, Bool-cases, ltb, leb,
}
use os1_meaty_skeleton.Prelude.Int.{pos}
use os1_meaty_skeleton.Paging.{
  Memory, Paging, u32, write, entry_at, table_at, bitmap_max_size, bitmap_index,
  set_phys_page_mapped, set_entry, enter_table, get_free_pagetable, take_table, pagetables_maxsize,
}
use os1_meaty_skeleton.Paging.Words.{write_same, write_other}
use os1_meaty_skeleton.Paging.Fresh.{with_fresh, entered-odd, entered-IsSpace, entered-walk}
use os1_meaty_skeleton.Paging.Walk.{
  walk, entry_in, slot, slot_of, slot_of_ext, slot_of-taken, slot_present, present, IsSpace,
  with_flags, with_present_write, frame_bits,
}

-- In `m'` the page `virt`, and every page that shares its entry, has the entry `entry`; every other
-- page has what it had in `m`.
pub record IsMapped (dir virt entry : ℕ) (m m' : Memory) : Type 0 where
  pub mapped :
      (page : ℕ)
      → page < 2 ^ 20
      → slot_of m' dir page ≡ slot_of m' dir virt
      → walk m' dir page ≡ present entry
  pub kept :
      (page : ℕ)
      → page < 2 ^ 20
      → slot_of m' dir page ≢ slot_of m' dir virt
      → walk m' dir page ≡ walk m dir page

-- A word outside the directory does not matter for the slots.
slot_of-write :
    (m : Memory) (dir page p v : ℕ)
    → page < 2 ^ 20
    → (p < dir) ⊎ (dir + 4096 ≤ p)
    → slot_of (write m p v) dir page ≡ slot_of m dir page
slot_of-write m dir page p v lt out =
    slot_of_ext m (write m p v) dir page (write_other m p v _ (omega arith))

entry_in-write :
    (m : Memory) (p v : ℕ) (o : Option ℕ) → o ≢ some p → entry_in (write m p v) o ≡ entry_in m o
unfolding entry_in
entry_in-write m p v none ne = refl
entry_in-write m p v (some q) ne = ap present (write_other m p v q (λ e. ne (ap some e)))

-- One write to the slot of `virt`.
write-IsMapped :
    {pool dir : ℕ} (s : Paging) (virt p entry : ℕ)
    → IsSpace pool dir s
    → virt < 2 ^ 20
    → slot_of s.mem dir virt ≡ some p
    → IsMapped dir virt entry s.mem (write s.mem p entry)
unfolding entry_in
write-IsMapped {dir} s virt p entry sp lt e =
    let (k, below, at) = slot_of-taken s virt p sp lt e in
    let out : (p < dir) ⊎ (dir + 4096 ≤ p) = omega (arith, sp.layout.apart, sp.taken) in
    let same : (page : ℕ)
        → page < 2 ^ 20
        → slot_of (write s.mem p entry) dir page ≡ slot_of s.mem dir page =
      λ page l. slot_of-write s.mem dir page p entry l out in
    record {
      mapped = λ page l shared.
          ap (entry_in (write s.mem p entry)) (shared ∙ (same virt lt ∙ e))
          ∙ ap present (write_same s.mem p entry);
      kept = λ page l apart.
          ap (entry_in (write s.mem p entry)) (same page l)
          ∙ entry_in-write s.mem p entry (slot_of s.mem dir page)
              (λ q. apart (same page l ∙ (q ∙ sym (same virt lt ∙ e))));
    }

-- The entries of the directory decide whether a later state is one of the kernel.
IsSpace-grown :
    {pool dir : ℕ} (s s' : Paging)
    → IsSpace pool dir s
    → ((i : ℕ) → i < 1024 → s'.mem (entry_at dir i) ≡ s.mem (entry_at dir i))
    → s'.last_pagetable_idx ≡ s.last_pagetable_idx
    → IsSpace pool dir s'
IsSpace-grown {pool} {dir} s s' sp same last = record {
  layout = sp.layout;
  taken = omega (arith, sp.taken);
  tables = λ i lt odd.
      let (k, below, table) = sp.tables i lt (omega (arith, same i lt)) in
      (k, omega arith, omega (arith, same i lt));
}

set_phys_page_mapped-mem :
    (s : Paging) (page : ℕ)
    → ((set_phys_page_mapped s page).mem ≡ s.mem)
      × ((set_phys_page_mapped s page).last_pagetable_idx ≡ s.last_pagetable_idx)
unfolding set_phys_page_mapped
set_phys_page_mapped-mem s page = elim (Bool-cases (ltb bitmap_max_size (bitmap_index page))) [
  | inl h ↦ rw h (refl, refl)
  | inr h ↦ rw h (refl, refl)
]

-- The second half of the code, where the directory has a table for the page.
pub set_entry-IsMapped :
    {pool dir : ℕ} (s : Paging) (phys virt flags : ℕ)
    → IsSpace pool dir s
    → phys < 2 ^ 20
    → virt < 2 ^ 20
    → flags < 4096
    → s.mem (entry_at dir (virt / 1024)) % 2 ≡ 1
    → let out = set_entry s (entry_at dir (virt / 1024)) phys (virt % 1024) flags in
      (out.1 ≡ pos 0)
      × IsSpace pool dir out.0
      × IsMapped dir virt (phys * 4096 + flags) s.mem out.0.mem
unfolding set_entry
set_entry-IsMapped {pool} {dir} s phys virt flags sp plt vlt flt odd =
    let pde = s.mem (entry_at dir (virt / 1024)) in
    let (k, below, table) = sp.tables (virt / 1024) (omega arith) odd in
    let small : pde < u32 = omega (arith, sp.layout.fits, sp.taken) in
    let word : bit_or (phys * 4096 % u32) flags ≡ phys * 4096 + flags =
      with_flags (phys * 4096 % u32) flags (omega arith) flt ∙ omega arith in
    let (same, last) = set_phys_page_mapped-mem s phys in
    let mapped =
      write-IsMapped s virt (slot pde virt) (phys * 4096 + flags) sp vlt
        (slot_present pde virt odd) in
    let out : (slot pde virt < dir) ⊎ (dir + 4096 ≤ slot pde virt) =
      omega (arith, sp.layout.apart, sp.taken) in
    rw (same, frame_bits pde small, word)
      (refl, IsSpace-grown s _ sp (λ i lt. write_other s.mem _ _ _ (omega arith)) last, mapped)

-- The first half, where the directory has none but the pool has.
pub enter_table-IsMapped :
    {pool dir : ℕ} (s : Paging) (phys virt flags : ℕ)
    → IsSpace pool dir s
    → phys < 2 ^ 20
    → virt < 2 ^ 20
    → flags < 4096
    → s.mem (entry_at dir (virt / 1024)) % 2 ≡ 0
    → s.last_pagetable_idx < pagetables_maxsize
    → let fresh = get_free_pagetable pool s true in
      let out = enter_table fresh.0 fresh.1 (entry_at dir (virt / 1024)) phys (virt % 1024) flags in
      (out.1 ≡ pos 0)
      × IsSpace pool dir out.0
      × IsMapped dir virt (phys * 4096 + flags) s.mem out.0.mem
unfolding get_free_pagetable enter_table
enter_table-IsMapped {pool} {dir} s phys virt flags sp plt vlt flt absent room =
    let i = virt / 1024 in
    let ilt : i < 1024 = omega arith in
    let t = table_at pool s.last_pagetable_idx in
    let some_left : leb pagetables_maxsize s.last_pagetable_idx ≡ false = ground arith in
    let valid : (t == 0xffffffff) ≡ false = ground (arith, sp.layout.fits) in
    let word = with_present_write t (omega (arith, sp.layout.pool_aligned)) in
    let s1 = take_table s (with_fresh pool dir s i) in
    let odd : s1.mem (entry_at dir i) % 2 ≡ 1 = entered-odd s i sp ilt absent room in
    let (code, sp1, mapped) =
      set_entry-IsMapped s1 phys virt flags (entered-IsSpace s i sp ilt absent room) plt vlt flt
        odd in
    let kept = entered-walk s i sp ilt absent room in
    rw (some_left, valid, word)
      (
        code,
        sp1,
        record { mapped = mapped.mapped; kept = λ page l ne. mapped.kept page l ne ∙ kept page l },
      )
