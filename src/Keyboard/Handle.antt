-- ===== src/Keyboard/Handle.antt =====
-- `keyboard_handle_scancode` and `keyboard_get_event` of src/kernel/drivers/keyboard.c against a
-- machine with a bounded queue.
use os1_meaty_skeleton.Prelude.{
  ℕ, ◌%◌, ◌≡◌, refl, ap, ap₂, ◌∙◌, Bool, true, false, ◌||◌, inl, inr, Option, List, [], ◌∷◌, arith,
  leb, ◌==◌, if◌then◌else◌, Bool-cases,
}
use os1_meaty_skeleton.Keyboard.{
  KeyEvent, EventType, key_press, key_release, Driver, queue_event, scancode_to_keycode, held,
  toggled, handle_keycode, handle_scancode, get_event,
}
use os1_meaty_skeleton.Keyboard.Queue.{
  IsValid, pending, enqueue, dequeue, event_of, queue_event-IsValid, queue_event-enqueue,
  get_event-dequeue, get_event-IsValid,
}

-- What the keys that are no modifiers leave alone, and the modifiers.
pub data Kind : Type 0 where
  hold : ℕ → Kind
  toggle : ℕ → Kind
  plain : Kind

abbrev pub kind_of : ℕ → Kind
kind_of code =
    if code == 0x2a || code == 0x36
    then hold 1
    else (if code == 0x1d
        then hold 2
        else (if code == 0x38
            then hold 4
            else (if code == 0x3a then toggle 8 else (if code == 0x45 then toggle 16 else plain))))

-- A driver, seen from outside.
pub record Model : Type 0 where
  pub queue : List KeyEvent
  pub modifiers : ℕ
  pub extended : Bool

abbrev pub view : Driver → Model
view d = record { queue = pending d; modifiers = d.modifiers; extended = d.extended }

abbrev pub strike : Model → Bool → ℕ → Kind → Model
strike m released code (hold mask) = record m { modifiers = held released m.modifiers mask }
strike m released code (toggle mask) = record m { modifiers = toggled released m.modifiers mask }
strike m released code plain = record m {
  queue = enqueue m.queue (record {
    code = code;
    type = if released then key_release else key_press;
    modifiers = m.modifiers;
  });
}

-- The prefix 0xE0 only sets the flag; any other scancode clears it, and one that is mapped to a key
-- strikes that key.
abbrev pub receive : Model → ℕ → Model
receive m scancode =
    if scancode == 0xe0
    then record m { extended = true }
    else (let code = (scancode_to_keycode m.extended (scancode % 0x80)).0 in
        let m' = record m { extended = false } in
        if code == 0 then m' else strike m' (leb 0x80 scancode) code (kind_of code))

queue_event_keeps :
    (d : Driver) (code : ℕ) (type : EventType)
    → ((queue_event d code type).modifiers ≡ d.modifiers)
      × ((queue_event d code type).extended ≡ d.extended)
unfolding queue_event
queue_event_keeps d code type = ground arith

queue_event-view :
    (d : Driver) (code : ℕ) (type : EventType)
    → IsValid d
    → view (queue_event d code type)
      ≡ record (view d) { queue = enqueue (pending d) (event_of d code type) }
queue_event-view d code type v =
    let (mods, ext) = queue_event_keeps d code type in
    λ i. record {
      queue = queue_event-enqueue d code type v i;
      modifiers = mods i;
      extended = ext i;
    }

handle_keycode-strike :
    (d : Driver) (released : Bool) (code : ℕ)
    → IsValid d
    → view (handle_keycode d released code) ≡ strike (view d) released code (kind_of code)
unfolding handle_keycode
handle_keycode-strike d released code v =
    ground (arith, queue_event-view d code (if released then key_release else key_press) v)

handle_keycode-IsValid :
    (d : Driver) (released : Bool) (code : ℕ) → IsValid d → IsValid (handle_keycode d released code)
unfolding handle_keycode
handle_keycode-IsValid d released code v =
    ground (arith, queue_event-IsValid d code (if released then key_release else key_press) v)

-- The flag never survives the scancode that follows it.
scancode_clears : (e : Bool) (scancode : ℕ) → (scancode_to_keycode e scancode).1 ≡ false
unfolding scancode_to_keycode
scancode_clears true scancode = refl
scancode_clears false scancode = refl

-- `keyboard_handle_scancode` keeps the buffer's indices valid.
handle_scancode-IsValid :
    (d : Driver) (scancode : ℕ) → IsValid d → IsValid (handle_scancode d scancode)
unfolding handle_scancode
handle_scancode-IsValid d scancode v =
    let (code, ext) = scancode_to_keycode d.extended (scancode % 0x80) in
    ground (
      arith,
      handle_keycode-IsValid (record d { extended = ext }) (leb 0x80 scancode) code
          (record { head_in = v.head_in; tail_in = v.tail_in }),
    )

pub handle_scancode-receive :
    (d : Driver) (scancode : ℕ)
    → IsValid d
    → view (handle_scancode d scancode) ≡ receive (view d) scancode
unfolding handle_scancode
handle_scancode-receive d scancode v = elim (Bool-cases (scancode == 0xe0)) [
  | inl prefix ↦ rw prefix refl
  | inr other ↦
      rw (other, scancode_clears d.extended (scancode % 0x80))
        (elim (Bool-cases ((scancode_to_keycode d.extended (scancode % 0x80)).0 == 0)) [
          | inl unknown ↦ rw unknown refl
          | inr known ↦ rw known (
              handle_keycode-strike (record d { extended = false }) (leb 0x80 scancode)
                (scancode_to_keycode d.extended (scancode % 0x80)).0
                (record { head_in = v.head_in; tail_in = v.tail_in }))
        ])
]

-- What can happen to the driver: a scancode arrives, or a client asks for an event.
pub data Action : Type 0 where
  scan : ℕ → Action
  ask : Action

unfoldable pub run : Driver → List Action → List (Option KeyEvent)
run d [] = []
run d (scan s ∷ acts) = run (handle_scancode d s) acts
run d (ask ∷ acts) = let (e, d') = get_event d in e ∷ run d' acts

unfoldable pub run_model : Model → List Action → List (Option KeyEvent)
run_model m [] = []
run_model m (scan s ∷ acts) = run_model (receive m s) acts
run_model m (ask ∷ acts) =
    let (e, q) = dequeue m.queue in e ∷ run_model (record m { queue = q }) acts

get_event_keeps :
    (d : Driver)
    → ((get_event d).1.modifiers ≡ d.modifiers) × ((get_event d).1.extended ≡ d.extended)
unfolding get_event
get_event_keeps d = ground arith

get_event-view :
    (d : Driver)
    → IsValid d
    → view (get_event d).1 ≡ record (view d) { queue = (dequeue (pending d)).1 }
get_event-view d v =
    let (mods, ext) = get_event_keeps d in
    λ i. record { queue = (get_event-dequeue d v i).1; modifiers = mods i; extended = ext i }

-- Whatever scancodes arrive and whenever a client asks, the driver answers as a queue of at most
-- 63 events does, which keeps the events in order, drops those that come when it is full, and
-- stamps each with the modifiers held at that time.
pub run-run_model :
    (acts : List Action) (d : Driver) → IsValid d → run d acts ≡ run_model (view d) acts
unfolding run run_model
run-run_model [] d v = refl
run-run_model (scan s ∷ acts) d v =
    run-run_model acts (handle_scancode d s) (handle_scancode-IsValid d s v)
    ∙ ap (λ m. run_model m acts) (handle_scancode-receive d s v)
run-run_model (ask ∷ acts) d v = ap₂ ◌∷◌ (ap (λ r. r.0) (get_event-dequeue d v)) (
    run-run_model acts (get_event d).1 (get_event-IsValid d v)
    ∙ ap (λ m. run_model m acts) (get_event-view d v))
