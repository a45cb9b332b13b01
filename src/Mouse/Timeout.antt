-- ===== src/Mouse/Timeout.antt =====
-- When the waiting functions of src/kernel/drivers/mouse.c report a timeout.
use os1_meaty_skeleton.Prelude.{
  ℕ, zero, suc, ◌<◌, ◌≡◌, ◌↔◌, refl, sym, ◌∙◌, ◌+◌, [], ◌∷◌, Bool, true, false, not, ◌==◌,
  false≢true, Bool-cases, inl, inr, arith,
}
use os1_meaty_skeleton.Mouse.{
  mouse_timeout, countdown, timed_out, mouse_wait_read, mouse_wait_write, mouse_write, polls,
  no_data, input_full,
}

-- The controller is ready for the first time at the poll `n`.
abbrev pub IsReadyAt : (ℕ → Bool) → ℕ → Type 0
IsReadyAt busy n = ((k : ℕ) → k < n → busy k ≡ true) × (busy n ≡ false)

abbrev shift : (ℕ → Bool) → ℕ → Bool
shift busy k = busy (suc k)

ready_later :
    (busy : ℕ → Bool) (n : ℕ) → busy 0 ≡ true → IsReadyAt (shift busy) n → IsReadyAt busy (suc n)
ready_later busy n first (before, now) = (go, now)
  where
    go : (k : ℕ) → k < suc n → busy k ≡ true
    go zero h = first
    go (suc k) h = before k (omega arith)

countdown-ready : (busy : ℕ → Bool) (n : ℕ) → timed_out (countdown busy n) ≡ true → IsReadyAt busy n
unfolding countdown timed_out
countdown-ready busy zero e = elim (Bool-cases (busy 0)) [
  | inl y ↦ absurd (false≢true (rw (timed_out, y) at e))
  | inr y ↦ (λ k h. absurd (omega arith), y)
]
countdown-ready busy (suc n) e = elim (Bool-cases (busy 0)) [
  | inl y ↦ ready_later busy n y (countdown-ready (shift busy) n (rw (timed_out, y) at e))
  | inr y ↦
      let used_up : (suc n == 0) ≡ true = rw (timed_out, y) at e in absurd (ground (arith, used_up))
]

ready-countdown : (busy : ℕ → Bool) (n : ℕ) → IsReadyAt busy n → timed_out (countdown busy n) ≡ true
unfolding countdown timed_out
ready-countdown busy zero (before, now) = rw (timed_out, now) refl
ready-countdown busy (suc n) (before, now) =
    rw (timed_out, before 0 (omega arith))
      (ready-countdown (shift busy) n (λ k h. before (suc k) (omega arith), now))

reports :
    (busy : ℕ → Bool) (n : ℕ) → (not (timed_out (countdown busy n)) ≡ false) ↔ IsReadyAt busy n
reports busy n = (
  λ e. countdown-ready busy n (ground (arith, Bool-cases (timed_out (countdown busy n)), e)),
  λ ready. rw (ready-countdown busy n ready) refl,
)

-- The two waiting functions report a timeout exactly when the controller becomes ready at the very
-- last poll, the one that finds the count used up.
pub mouse_wait-reports :
    (status : ℕ → ℕ)
    → ((mouse_wait_read status ≡ false) ↔ IsReadyAt (no_data status) mouse_timeout)
      × ((mouse_wait_write status ≡ false) ↔ IsReadyAt (input_full status) mouse_timeout)
unfolding mouse_wait_read mouse_wait_write
mouse_wait-reports status =
    (reports (no_data status) mouse_timeout, reports (input_full status) mouse_timeout)

-- The answer of a wait is `true` when the controller never gets ready.
never-true :
    (busy : ℕ → Bool) (n : ℕ)
    → ((k : ℕ) → busy k ≡ true)
    → not (timed_out (countdown busy n)) ≡ true
never-true busy n always = elim (Bool-cases (not (timed_out (countdown busy n)))) [
  | inl y ↦ y
  | inr y ↦ absurd (false≢true (sym ((reports busy n).0 y).1 ∙ always n))
]

-- A controller that stays busy gets the two bytes of a command all the same.
mouse_write_busy :
    (status : ℕ → ℕ) (value : ℕ)
    → ((k : ℕ) → input_full status k ≡ true)
    → mouse_write status value
      ≡ record { port = 0x64; value = 0xd4 } ∷ record { port = 0x60; value = value } ∷ []
unfolding mouse_write mouse_wait_write
mouse_write_busy status value always =
    let first = polls (countdown (input_full status) mouse_timeout) in
    rw
      (
        never-true (input_full status) mouse_timeout always,
        never-true (input_full (λ k. status (first + k))) mouse_timeout (λ k. always (first + k)),
      )
      refl
