-- ===== src/Paging/Answers.antt =====
-- Every way `map_phys_to_virt` of src/kernel/arch/i386/paging.c can end.
use os1_meaty_skeleton.Prelude.{
  ℕ, zero, suc, ◌+◌, ◌*◌, ◌/◌, ◌%◌, ◌^◌, ◌≤◌, ◌<◌, ◌≡◌, ◌≢◌, ◌⊎◌, inl, inr, refl, sym, ◌∙◌, subst,
  bit_and, Bool, true, false, false≢true, not, ◌&&◌, arith, ◌==◌, if◌then◌else◌, ltb, leb,
  Bool-cases,
}
use os1_meaty_skeleton.Prelude.Bits.{bit_and_digit, mul_double}
use os1_meaty_skeleton.Prelude.Int.{ℤ, pos, negsuc}
use os1_meaty_skeleton.Paging.{
  Paging, u32, entry_at, pagetables_maxsize, bitmap_max_size, bitmap_index, to_int, is_one,
  phys_page_already_mapped, get_free_pagetable, set_entry, enter_table, mappage_phys_to_virt,
  map_phys_to_virt,
}
use os1_meaty_skeleton.Paging.Walk.{IsSpace, low_bits, lowest_bit}
use os1_meaty_skeleton.Paging.Mapping.{IsMapped, set_entry-IsMapped, enter_table-IsMapped}

-- The test of the code for a physical page that is mapped already.
abbrev pub is_taken : Paging → ℕ → Bool
is_taken s page = is_one (phys_page_already_mapped s page)

digit-one : (k w : ℕ) → w / 2 ^ k % 2 * 2 ^ k ≡ 1 → k ≡ 0
digit-one zero w h = refl
digit-one (suc k) w h = absurd (omega (arith, mul_double (w / 2 ^ suc k % 2) k))

is_one-to_int : (w : ℕ) → is_one (to_int w) ≡ true → w ≡ 1
unfolding is_one
is_one-to_int w h = elim (Bool-cases (ltb w 0x80000000)) [
  | inl e ↦ ground (arith, rw e at h)
  | inr e ↦ absurd (false≢true (rw e at h))
]

-- The test sees the lowest digit of a word of the bitmap only.
is_taken-multiple : (s : Paging) (page : ℕ) → is_taken s page ≡ true → page % 32 ≡ 0
unfolding phys_page_already_mapped is_one
is_taken-multiple s page h = elim (Bool-cases (ltb bitmap_max_size (bitmap_index page))) [
  | inl e ↦ absurd (false≢true (rw e at h))
  | inr e ↦
      let one =
        is_one-to_int (bit_and (s.bitmap (bitmap_index page)) (2 ^ (page % 32))) (rw e at h) in
      digit-one (page % 32) (s.bitmap (bitmap_index page)) (sym (bit_and_digit (page % 32) _) ∙ one)
]

-- The result `out` of a call, in the four cases.
pub data IsAnswer (pool dir : ℕ) (s : Paging) (phys virt flags : ℕ) (force : Bool)
    (out : Paging × ℤ) : Type 0 where
  unaligned :
      (phys % 4096 ≢ 0) ⊎ (virt % 4096 ≢ 0)
      → out ≡ (s, negsuc 1)
      → IsAnswer pool dir s phys virt flags force out
  refused :
      force ≡ false
      → is_taken s (phys / 4096) ≡ true
      → phys / 4096 % 32 ≡ 0
      → out ≡ (s, negsuc 0)
      → IsAnswer pool dir s phys virt flags force out
  exhausted :
      s.mem (entry_at dir (virt / 4096 / 1024)) % 2 ≡ 0
      → s.last_pagetable_idx ≡ pagetables_maxsize
      → out ≡ (s, negsuc 1)
      → IsAnswer pool dir s phys virt flags force out
  mapped :
      (phys % 4096 ≡ 0) × (virt % 4096 ≡ 0)
      → (force ≡ true) ⊎ (is_taken s (phys / 4096) ≡ false)
      → (s.mem (entry_at dir (virt / 4096 / 1024)) % 2 ≡ 1)
        ⊎ (s.last_pagetable_idx < pagetables_maxsize)
      → out.1 ≡ pos 0
      → IsSpace pool dir out.0
      → IsMapped dir (virt / 4096) (phys + flags) s.mem out.0.mem
      → IsAnswer pool dir s phys virt flags force out

mapped-IsAnswer :
    {pool dir : ℕ} (s : Paging) (phys virt flags : ℕ) (force : Bool) (out : Paging × ℤ)
    → (phys % 4096 ≡ 0) × (virt % 4096 ≡ 0)
    → (force ≡ true) ⊎ (is_taken s (phys / 4096) ≡ false)
    → (s.mem (entry_at dir (virt / 4096 / 1024)) % 2 ≡ 1)
      ⊎ (s.last_pagetable_idx < pagetables_maxsize)
    → (out.1 ≡ pos 0)
      × IsSpace pool dir out.0
      × IsMapped dir (virt / 4096) (phys / 4096 * 4096 + flags) s.mem out.0.mem
    → IsAnswer pool dir s phys virt flags force out
mapped-IsAnswer {dir} s phys virt flags force out aligned free room (code, sp, m) =
    let whole : phys / 4096 * 4096 + flags ≡ phys + flags = omega arith in
    mapped aligned free room code sp
      (subst (λ w. IsMapped dir (virt / 4096) w s.mem out.0.mem) whole m)

enter_table-full :
    (pool : ℕ) (s : Paging) (pde phys idx flags : ℕ)
    → pagetables_maxsize ≤ s.last_pagetable_idx
    → let fresh = get_free_pagetable pool s true in
      enter_table fresh.0 fresh.1 pde phys idx flags ≡ (s, negsuc 1)
unfolding get_free_pagetable enter_table
enter_table-full pool s pde phys idx flags full =
    let h : leb pagetables_maxsize s.last_pagetable_idx ≡ true = ground arith in rw h refl

-- The two ways to a new entry, once the page is not refused.
enter-IsAnswer :
    {pool dir : ℕ} (s : Paging) (phys virt flags : ℕ) (force : Bool)
    → IsSpace pool dir s
    → phys < u32
    → virt < u32
    → flags < 4096
    → (phys % 4096 ≡ 0) × (virt % 4096 ≡ 0)
    → (force ≡ true) ⊎ (is_taken s (phys / 4096) ≡ false)
    → let pde = entry_at dir (virt / 4096 / 1024) in
      let fresh = get_free_pagetable pool s true in
      IsAnswer pool dir s phys virt flags force (
        if s.mem pde % 2 == 0
        then enter_table fresh.0 fresh.1 pde (phys / 4096) (virt / 4096 % 1024) flags
        else set_entry s pde (phys / 4096) (virt / 4096 % 1024) flags)
enter-IsAnswer {pool} {dir} s phys virt flags force sp plt vlt flt aligned free =
    let pde = entry_at dir (virt / 4096 / 1024) in
    elim (Bool-cases (s.mem pde % 2 == 0)) [
      | inl e ↦ elim (Bool-cases (ltb s.last_pagetable_idx pagetables_maxsize)) [
        | inl room ↦
            let new =
              enter_table-IsMapped s (phys / 4096) (virt / 4096) flags sp (omega arith)
                (omega arith) flt (ground arith) (ground arith) in
            rw e (mapped-IsAnswer s phys virt flags force _ aligned free (inr (ground arith)) new)
        | inr full ↦ rw e (
            exhausted (ground arith) (ground (arith, sp.taken))
              (enter_table-full pool s _ _ _ _ (ground arith)))
      ]
      | inr e ↦
          let odd : s.mem pde % 2 ≡ 1 = ground arith in
          let entry =
            set_entry-IsMapped s (phys / 4096) (virt / 4096) flags sp (omega arith) (omega arith)
              flt odd in
          rw e (mapped-IsAnswer s phys virt flags force _ aligned free (inl odd) entry)
    ]

refusal : (force taken : Bool) → not force && taken ≡ true → (force ≡ false) × (taken ≡ true)
refusal true taken h = absurd (false≢true h)
refusal false taken h = (refl, h)

no_refusal : (force taken : Bool) → not force && taken ≡ false → (force ≡ true) ⊎ (taken ≡ false)
no_refusal true taken h = inl refl
no_refusal false taken h = inr h

-- A call on addresses of 32 bits maps the page, and no other that has another entry, or changes
-- nothing: the address is not aligned, the page is refused, or there is no page table left.
pub map_phys_to_virt-IsAnswer :
    (pool dir : ℕ) (s : Paging) (phys virt flags : ℕ) (force : Bool)
    → IsSpace pool dir s
    → phys < u32
    → virt < u32
    → flags < 4096
    → IsAnswer pool dir s phys virt flags force (map_phys_to_virt pool s dir phys virt flags force)
unfolding map_phys_to_virt mappage_phys_to_virt
map_phys_to_virt-IsAnswer pool dir s phys virt flags force sp plt vlt flt =
    let idx : virt / 4096 / 1024 % 0x10000 ≡ virt / 4096 / 1024 = omega arith in
    rw (low_bits phys, low_bits virt, lowest_bit, idx)
      (elim (Bool-cases (phys % 4096 == 0)) [
        | inl p ↦ elim (Bool-cases (virt % 4096 == 0)) [
          | inl v ↦ elim (Bool-cases (not force && is_taken s (phys / 4096))) [
            | inl r ↦
                let (unforced, taken) = refusal force _ r in
                rw (p, v, r) (refused unforced taken (is_taken-multiple s (phys / 4096) taken) refl)
            | inr r ↦
                rw (p, v, r)
                  (enter-IsAnswer s phys virt flags force sp plt vlt flt (ground arith)
                    (no_refusal force _ r))
          ]
          | inr v ↦ rw (p, v) (unaligned (inr (ground arith)) refl)
        ]
        | inr p ↦ rw p (unaligned (inl (ground arith)) refl)
      ])
