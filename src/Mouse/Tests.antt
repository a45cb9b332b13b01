-- ===== src/Mouse/Tests.antt =====
-- Runs of the waiting for the mouse, and the theorem at a concrete input.
use os1_meaty_skeleton.Prelude.{ℕ, ◌≡◌, ◌↔◌, refl, false, ◌==◌, if◌then◌else◌, [], ◌∷◌}
use os1_meaty_skeleton.Mouse.{
  mouse_timeout, countdown, timed_out, mouse_wait_read, mouse_wait_write, mouse_read, mouse_write,
  no_data, input_full, polls,
}
use os1_meaty_skeleton.Mouse.Timeout.{IsReadyAt, mouse_wait-reports}

-- A controller that has data at the last poll and can take a byte until then.
abbrev late : ℕ → ℕ
late k = if k == mouse_timeout then 3 else 0

mouse_wait-reports_example :
    ((mouse_wait_read late ≡ false) ↔ IsReadyAt (no_data late) mouse_timeout)
    × ((mouse_wait_write late ≡ false) ↔ IsReadyAt (input_full late) mouse_timeout)
mouse_wait-reports_example = mouse_wait-reports late

-- A controller that is ready from the second poll on.
abbrev soon : ℕ → ℕ
soon k = if k == 0 then 2 else 1

mouse_test :
    (mouse_read soon 0xfa ≡ 0xfa)
    × (mouse_write soon 0xf4
        ≡ record { port = 0x64; value = 0xd4 } ∷ record { port = 0x60; value = 0xf4 } ∷ [])
unfolding mouse_read mouse_write mouse_wait_read mouse_wait_write countdown timed_out polls
mouse_test = (refl, refl)
