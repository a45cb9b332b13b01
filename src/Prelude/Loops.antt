-- ===== src/Prelude/Loops.antt =====
-- The counted loop of the source, and the rule for its invariants.
use Prim.Native.Nat.{ℕ, zero, suc, ◌+◌, ◌<◌}
use mathlib.Core.Path.{subst}
use native.Mathlib.Omega.{arith}

-- `for (i = first; n times; i++) state = body(i, state)`
unfoldable pub for {ℓ} : {S : Type ℓ} → ℕ → ℕ → (ℕ → S → S) → S → S
for zero first body s = s
for (suc n) first body s = for n (suc first) body (body first s)

-- What a turn keeps holds after the last one. `P k` is about the state before turn `k`, counted
-- from 0.
pub for-invariant {ℓ κ} :
    {S : Type ℓ} (P : ℕ → S → Type κ) (n first : ℕ) (body : ℕ → S → S) (s : S)
    → P 0 s
    → ((k : ℕ) (t : S) → k < n → P k t → P (suc k) (body (first + k) t))
    → P n (for n first body s)
unfolding for
for-invariant P zero first body s start turn = start
for-invariant P (suc n) first body s start turn =
    for-invariant (λ k. P (suc k)) n (suc first) body (body first s)
      (subst (λ i. P 1 (body i s)) (omega arith) (turn 0 s (omega arith) start))
      (λ k t h p.
        subst (λ i. P (suc (suc k)) (body i t)) (omega arith) (turn (suc k) t (omega arith) p))

-- The rule for a loop that counts from 0.
pub for-invariant_zero {ℓ κ} :
    {S : Type ℓ} (P : ℕ → S → Type κ) (n : ℕ) (body : ℕ → S → S) (s : S)
    → P 0 s
    → ((k : ℕ) (t : S) → k < n → P k t → P (suc k) (body k t))
    → P n (for n 0 body s)
for-invariant_zero P n body s start turn =
    for-invariant P n 0 body s start
      (λ k t h p. subst (λ i. P (suc k) (body i t)) (omega arith) (turn k t h p))
