-- ===== src/Paging/Walk.antt =====
-- How the processor translates a page through a directory and a page table that
-- src/kernel/arch/i386/paging.c has written: an entry is present when its lowest bit is set, and its
-- upper 20 bits are the address of what it refers to.
use os1_meaty_skeleton.Prelude.{
  ℕ, ◌+◌, ◌*◌, ◌/◌, ◌%◌, ◌^◌, ◌≤◌, ◌<◌, ◌≡◌, ◌⊎◌, refl, ap, ◌∙◌, bit_and, bit_or, Option, none,
  some, arith, ◌==◌, if◌then◌else◌, true, false,
}
use os1_meaty_skeleton.Prelude.Bits.{bit_or_sum, bit_or_parts, bit_and_remainder, bit_and_shift}
use os1_meaty_skeleton.Paging.{Memory, Paging, u32, pagetables_maxsize, entry_at, table_at}

-- The entry, when it is present.
unfoldable pub present : ℕ → Option ℕ
present entry = if entry % 2 == 1 then some entry else none

-- Where the entry of the page is, in the table that the entry `pde` of the directory refers to.
abbrev pub slot : ℕ → ℕ → ℕ
slot pde page = entry_at (pde / 4096 * 4096) (page % 1024)

-- The same, when the entry of the directory is present.
unfoldable pub slot_in : ℕ → ℕ → Option ℕ
slot_in pde page = if pde % 2 == 1 then some (slot pde page) else none

abbrev pub slot_of : Memory → ℕ → ℕ → Option ℕ
slot_of m dir page = slot_in (m (entry_at dir (page / 1024))) page

unfoldable pub entry_in : Memory → Option ℕ → Option ℕ
entry_in m none = none
entry_in m (some p) = present (m p)

-- The entry of the page table for a page: both levels have to be present.
abbrev pub walk : Memory → ℕ → ℕ → Option ℕ
walk m dir page = entry_in m (slot_of m dir page)

-- The directory and the pool of tables are aligned, apart, and within the address space.
pub record IsLayout (pool dir : ℕ) : Type 0 where
  pub pool_aligned : pool % 4096 ≡ 0
  pub dir_aligned : dir % 4096 ≡ 0
  pub fits : table_at pool pagetables_maxsize ≤ u32
  pub apart : (dir + 4096 ≤ pool) ⊎ (table_at pool pagetables_maxsize ≤ dir)
  pub below : dir + 4096 ≤ u32

-- What the masks of the source are.
pub low_bits : (x : ℕ) → bit_and x 0xfff ≡ x % 4096
low_bits x = bit_and_remainder 12 x

pub lowest_bit : (x : ℕ) → bit_and x 1 ≡ x % 2
lowest_bit x = bit_and_remainder 1 x

pub frame_bits : (x : ℕ) → x < u32 → bit_and x 0xfffff000 ≡ x / 4096 * 4096
frame_bits x h =
    bit_and_shift 12 x 0xfffff
    ∙ ap (λ (t : ℕ). t * 4096) (bit_and_remainder 20 (x / 4096) ∙ omega arith)

pub with_flags : (x flags : ℕ) → x % 4096 ≡ 0 → flags < 4096 → bit_or x flags ≡ x + flags
with_flags x flags h lt =
    let q : x ≡ x / 4096 * 4096 = omega arith in
    ap (λ (t : ℕ). bit_or t flags) q ∙ (bit_or_sum 12 (x / 4096) flags lt ∙ omega arith)

-- `| PAGE_PRESENT | PAGE_WRITE`
pub with_present_write : (x : ℕ) → x % 4096 ≡ 0 → bit_or (bit_or x 1) 2 ≡ x + 3
with_present_write x h =
    let q : x + 1 ≡ x / 4 * 2 ^ 2 + 1 = omega arith in
    ap (λ (t : ℕ). bit_or t 2) (with_flags x 1 h (omega arith) ∙ q)
    ∙ (bit_or_parts 2 (x / 4) 1 2 (omega arith) (omega arith) ∙ omega arith)

pub slot_present : (pde page : ℕ) → pde % 2 ≡ 1 → slot_in pde page ≡ some (slot pde page)
unfolding slot_in
slot_present pde page odd = let h : (pde % 2 == 1) ≡ true = ground arith in rw h refl

pub slot_absent : (pde page : ℕ) → pde % 2 ≡ 0 → slot_in pde page ≡ none
unfolding slot_in
slot_absent pde page even = let h : (pde % 2 == 1) ≡ false = ground arith in rw h refl

-- A state of the kernel: the pool has tables left or none, and the present entries of the directory
-- refer to tables that are taken.
pub record IsSpace (pool dir : ℕ) (s : Paging) : Type 0 where
  pub layout : IsLayout pool dir
  pub taken : s.last_pagetable_idx ≤ pagetables_maxsize
  pub tables :
      (i : ℕ)
      → i < 1024
      → s.mem (entry_at dir i) % 2 ≡ 1
      → (k : ℕ) × (k < s.last_pagetable_idx)
        × (s.mem (entry_at dir i) / 4096 * 4096 ≡ table_at pool k)

-- Two memories with the same words in the directory have the same slots.
pub slot_of_ext :
    (m m' : Memory) (dir page : ℕ)
    → m' (entry_at dir (page / 1024)) ≡ m (entry_at dir (page / 1024))
    → slot_of m' dir page ≡ slot_of m dir page
slot_of_ext m m' dir page e = ap (λ (w : ℕ). slot_in w page) e

pub slot_in-some :
    (pde page q : ℕ) → slot_in pde page ≡ some q → (pde % 2 ≡ 1) × (q ≡ slot pde page)
unfolding slot_in
slot_in-some pde page q e = ground arith

-- A present slot lies in a table that is taken.
pub slot_of-taken :
    {pool dir : ℕ} (s : Paging) (page q : ℕ)
    → IsSpace pool dir s
    → page < 2 ^ 20
    → slot_of s.mem dir page ≡ some q
    → (k : ℕ) × (k < s.last_pagetable_idx) × (q ≡ entry_at (table_at pool k) (page % 1024))
slot_of-taken {dir} s page q sp lt e =
    let (odd, at) = slot_in-some (s.mem (entry_at dir (page / 1024))) page q e in
    let (k, below, table) = sp.tables (page / 1024) (omega arith) odd in (k, below, omega arith)
