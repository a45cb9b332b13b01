-- ===== src/Str/Move.antt =====
-- The block copies of src/libc/string: memcpy, memmove, memset and memcmp.
use os1_meaty_skeleton.Prelude.{
  ℕ, zero, suc, ◌+◌, ◌-◌, ◌%◌, ◌≤◌, ◌<◌, ◌≡◌, ◌⊎◌, inl, inr, refl, sym, ◌↔◌, ◌∙◌, ◌&&◌, arith, ltb,
  leb, if◌then◌else◌, Bool-cases,
}
use os1_meaty_skeleton.Str.{
  Bytes, store, copy_up, copy_down, memcpy, memmove, memset, memset_loop, memcmp, memcmp_loop,
}
use native.Mathlib.Decide.{ℕ_discrete}
use os1_meaty_skeleton.Prelude.Int.{pos}

-- The bytes from `dst + lo` up to `dst + hi` hold what stood at the same distance from `src`.
abbrev pub moved : Bytes → ℕ → ℕ → ℕ → ℕ → Bytes
moved m dst src lo hi x = if leb (dst + lo) x && ltb x (dst + hi) then m (src + (x - dst)) else m x

copy_up-moved :
    (n : ℕ) (m : Bytes) (dst src i : ℕ)
    → (dst < src) ⊎ (src + (i + n) ≤ dst)
    → (x : ℕ) → copy_up m dst src i n x ≡ moved m dst src i (i + n) x
unfolding copy_up
copy_up-moved zero m dst src i apart x = ground arith
copy_up-moved (suc n) m dst src i apart x =
    copy_up-moved n (store m (dst + i) (m (src + i))) dst src (i + 1) (omega arith) x ∙ ground arith

copy_down-moved :
    (n : ℕ) (m : Bytes) (dst src : ℕ)
    → src ≤ dst
    → (x : ℕ) → copy_down m dst src n x ≡ moved m dst src 0 n x
unfolding copy_down
copy_down-moved zero m dst src le x = ground arith
copy_down-moved (suc n) m dst src le x =
    copy_down-moved n (store m (dst + n) (m (src + n))) dst src le x ∙ ground arith

-- `memmove` copies, however the two regions overlap: afterwards the target holds the bytes that the
-- source held before, and no other byte has changed.
pub memmove-moved : (m : Bytes) (dst src n x : ℕ) → memmove m dst src n x ≡ moved m dst src 0 n x
unfolding memmove
memmove-moved m dst src n x = elim (Bool-cases (ltb dst src)) [
  | inl up ↦ rw up (copy_up-moved n m dst src 0 (inl (ground arith)) x ∙ ground arith)
  | inr down ↦ rw down (copy_down-moved n m dst src (ground arith) x)
]

-- `memcpy` does what `memmove` does when the regions do not overlap.
pub memcpy-memmove :
    (m : Bytes) (dst src n : ℕ)
    → (dst + n ≤ src) ⊎ (src + n ≤ dst)
    → (x : ℕ) → memcpy m dst src n x ≡ memmove m dst src n x
unfolding memcpy
memcpy-memmove m dst src zero apart x = sym (memmove-moved m dst src 0 x ∙ ground arith)
memcpy-memmove m dst src (suc n) apart x =
    copy_up-moved (suc n) m dst src 0 (omega arith) x
    ∙ (ground arith ∙ sym (memmove-moved m dst src (suc n) x))

memset_loop-filled :
    (n : ℕ) (m : Bytes) (buf v i x : ℕ)
    → memset_loop m buf v i n x
      ≡ (if leb (buf + i) x && ltb x (buf + (i + n)) then v % 256 else m x)
unfolding memset_loop
memset_loop-filled zero m buf v i x = ground arith
memset_loop-filled (suc n) m buf v i x =
    memset_loop-filled n (store m (buf + i) (v % 256)) buf v (i + 1) x ∙ ground arith

-- `memset` fills exactly the `n` bytes from `buf` on with the low byte of the value.
pub memset-filled :
    (m : Bytes) (buf v n x : ℕ)
    → memset m buf v n x ≡ (if leb buf x && ltb x (buf + n) then v % 256 else m x)
unfolding memset
memset-filled m buf v n x = memset_loop-filled n m buf v 0 x ∙ ground arith

memcmp_loop-zero :
    (n : ℕ) (m : Bytes) (a b i : ℕ)
    → (memcmp_loop m a b i n ≡ pos 0) ↔ ((k : ℕ) → i ≤ k → k < i + n → m (a + k) ≡ m (b + k))
unfolding memcmp_loop
memcmp_loop-zero zero m a b i = (λ e k lo hi. absurd (omega arith), λ h. refl)
memcmp_loop-zero (suc n) m a b i =
    let (to, from) = memcmp_loop-zero n m a b (i + 1) in
    (
      λ e k lo hi. elim (ℕ_discrete k i) [
        | yes same ↦ ground arith
        | no other ↦ to (ground arith) k (omega arith) (omega arith)
      ],
      λ h. ground (arith, h i, from (λ k lo hi. h k (omega arith) (omega arith))),
    )

-- `memcmp` returns 0 exactly when the two regions hold the same bytes.
pub memcmp-zero :
    (m : Bytes) (a b n : ℕ) → (memcmp m a b n ≡ pos 0) ↔ ((k : ℕ) → k < n → m (a + k) ≡ m (b + k))
unfolding memcmp
memcmp-zero m a b n =
    let (to, from) = memcmp_loop-zero n m a b 0 in
    (λ e k lt. to e k (omega arith) (omega arith), λ h. from λ k lo hi. h k (omega arith))
