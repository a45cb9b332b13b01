-- ===== src/Keyboard/Tests.antt =====
-- The keyboard theorems at concrete drivers, and runs of the code.
use os1_meaty_skeleton.Prelude.{
  Bool, true, ◌==◌, ◌&&◌, ◌||◌, ℕ, ◌≡◌, refl, false, none, some, List, [], ◌∷◌, arith,
}
use os1_meaty_skeleton.Keyboard.{
  KeyEvent, EventType, key_press, key_release, Driver, handle_scancode, scancode_to_keycode,
  extended_keycode, handle_keycode, queue_event, get_event,
}
use os1_meaty_skeleton.Keyboard.Tables.{scancode_table, keycodes, entry}
use os1_meaty_skeleton.Keyboard.Queue.{IsValid}
use os1_meaty_skeleton.Keyboard.Handle.{Action, scan, ask, run, run_model, view, run-run_model}
use os1_meaty_skeleton.Keyboard.Ascii.{AnswersAll, marks, numbers, shift_reads_past_end}

abbrev event : ℕ → EventType → ℕ → KeyEvent
event code type mods = record { code = code; type = type; modifiers = mods }

abbrev quiet : Driver
quiet = record {
  buffer = λ _. event 0 key_press 0;
  head = 62;
  tail = 62;
  modifiers = 0;
  extended = false;
}

-- Left Shift, A pressed and released, the prefix and Up, Shift released.
abbrev typing : List Action
typing =
    scan 0x2a
    ∷ scan 0x1e
    ∷ scan 0x9e
    ∷ scan 0xe0
    ∷ scan 0x48
    ∷ scan 0xaa
    ∷ ask
    ∷ ask
    ∷ ask
    ∷ ask
    ∷ []

typed :
    run quiet typing
    ≡ some (event 0x1e key_press 1)
      ∷ some (event 0x1e key_release 1)
      ∷ some (event 0xe048 key_press 1)
      ∷ none
      ∷ []
unfolding run handle_scancode scancode_to_keycode extended_keycode entry handle_keycode queue_event
    get_event
typed = refl

quiet-IsValid : IsValid quiet
quiet-IsValid = omega arith

run-run_model_example : run quiet typing ≡ run_model (view quiet) typing
run-run_model_example = run-run_model typing quiet quiet-IsValid

-- Shift alone.
shift_reads_past_end_example : AnswersAll none 1 marks × AnswersAll (some 0) 1 numbers
shift_reads_past_end_example = shift_reads_past_end 1 refl

-- Every value in the scancode table is a keycode of the enumeration.
abbrev occurs : ℕ → List ℕ → Bool
occurs k [] = false
occurs k (c ∷ cs) = let rest = occurs k cs in k == c || rest

abbrev all_occur : List ℕ → List ℕ → Bool
all_occur [] cs = true
all_occur (k ∷ ks) cs = let rest = all_occur ks cs in occurs k cs && rest

table_named : all_occur scancode_table keycodes ≡ true
table_named = refl
