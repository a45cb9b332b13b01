-- ===== src/Mouse.antt =====
-- The waiting for the controller of src/kernel/drivers/mouse.c. `status` gives the results of the
-- reads of port 0x64, from the call on.
pub mod Timeout
mod Tests
use os1_meaty_skeleton.Prelude.{
  ℕ, zero, suc, ◌+◌, ◌-◌, List, [], ◌∷◌, if◌then◌else◌, Bool, true, false, not, ◌==◌, bit_and,
  Option, none, some,
}

-- MOUSE_TIMEOUT
abbrev pub mouse_timeout : ℕ
mouse_timeout = 20000000

-- The loop that counts `timeout` down while the controller is busy: `timeout` behind it, where `none`
-- is -1, the value after the test of `timeout--` has failed.
unfoldable pub countdown : (ℕ → Bool) → ℕ → Option ℕ
countdown busy zero = elim (busy 0) [ true ↦ none | false ↦ some 0 ]
countdown busy (suc timeout) = elim (busy 0) [
  | true ↦ countdown (λ k. busy (suc k)) timeout
  | false ↦ some (suc timeout)
]

-- The test `timeout == 0`.
unfoldable pub timed_out : Option ℕ → Bool
timed_out none = false
timed_out (some timeout) = timeout == 0

-- The conditions of the two loops.
abbrev pub no_data : (ℕ → ℕ) → ℕ → Bool
no_data status k = bit_and (status k) 1 == 0

abbrev pub input_full : (ℕ → ℕ) → ℕ → Bool
input_full status k = not (bit_and (status k) 2 == 0)

-- `mouse_wait_read` and `mouse_wait_write`; the message is left out.
unfoldable pub mouse_wait_read : (ℕ → ℕ) → Bool
mouse_wait_read status = not (timed_out (countdown (no_data status) mouse_timeout))

unfoldable pub mouse_wait_write : (ℕ → ℕ) → Bool
mouse_wait_write status = not (timed_out (countdown (input_full status) mouse_timeout))

-- The number of reads of port 0x64 by a wait.
unfoldable pub polls : Option ℕ → ℕ
polls none = suc mouse_timeout
polls (some timeout) = suc (mouse_timeout - timeout)

pub record Write : Type 0 where
  pub port : ℕ
  pub value : ℕ

-- `mouse_write`: the writes to ports, in their order.
unfoldable pub mouse_write : (ℕ → ℕ) → ℕ → List Write
mouse_write status value =
    let first = polls (countdown (input_full status) mouse_timeout) in
    let data_byte =
      if mouse_wait_write (λ k. status (first + k))
      then record { port = 0x60; value = value } ∷ []
      else [] in
    if mouse_wait_write status then record { port = 0x64; value = 0xd4 } ∷ data_byte else []

-- `mouse_read`, where `value` is what port 0x60 gives.
unfoldable pub mouse_read : (ℕ → ℕ) → ℕ → ℕ
mouse_read status value = if mouse_wait_read status then value else 0
