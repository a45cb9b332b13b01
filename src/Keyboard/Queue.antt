-- ===== src/Keyboard/Queue.antt =====
-- The circular buffer of src/kernel/drivers/keyboard.c as a queue of at most 63 events.
use os1_meaty_skeleton.Prelude.{
  ℕ, zero, suc, ◌+◌, ◌-◌, ◌%◌, ◌<◌, ◌≡◌, ◌≢◌, refl, ap, ap₂, true, false, inl, inr, Option, none,
  some, List, [], ◌∷◌, ◌++◌, arith, length, ltb, ◌==◌, if◌then◌else◌, Bool-cases,
}
use os1_meaty_skeleton.Keyboard.{
  KeyEvent, EventType, Driver, buffer_size, put, queue_event, get_event, clear_buffer, init,
}

pub record IsValid (d : Driver) : Type 0 where
  pub head_in : d.head < buffer_size
  pub tail_in : d.tail < buffer_size

-- The number of events that wait.
abbrev pub waiting : Driver → ℕ
waiting d = (d.head + buffer_size - d.tail) % buffer_size

-- The `n` events from index `i` on, round the end of the buffer.
abbrev pub events_from : (ℕ → KeyEvent) → ℕ → ℕ → List KeyEvent
events_from buffer i zero = []
events_from buffer i (suc n) = buffer i ∷ events_from buffer ((i + 1) % buffer_size) n

-- The events that wait, the oldest first.
abbrev pub pending : Driver → List KeyEvent
pending d = events_from d.buffer d.tail (waiting d)

length-events_from : (b : ℕ → KeyEvent) (i n : ℕ) → length (events_from b i n) ≡ n
length-events_from b i zero = refl
length-events_from b i (suc n) = ap suc (length-events_from b ((i + 1) % buffer_size) n)

pub length-pending : (d : Driver) → length (pending d) ≡ waiting d
length-pending d = length-events_from d.buffer d.tail (waiting d)

-- A write behind the events extends them.
events_from-put :
    (n : ℕ) (b : ℕ → KeyEvent) (i j : ℕ) (e : KeyEvent)
    → i < buffer_size
    → n < buffer_size
    → j ≡ (i + n) % buffer_size
    → events_from (put b j e) i (suc n) ≡ events_from b i n ++ e ∷ []
events_from-put zero b i j e lt small at = let h : j ≡ i = omega arith in rw h (ground arith)
events_from-put (suc n) b i j e lt small at =
    let keep : put b j e i ≡ b i = ground arith in
    ap₂ ◌∷◌ keep
      (events_from-put n b ((i + 1) % buffer_size) j e (omega arith) (omega arith) (omega arith))

-- What the queue promises: an event is put behind the others if fewer than 63 wait, and is dropped
-- otherwise.
abbrev pub enqueue : List KeyEvent → KeyEvent → List KeyEvent
enqueue q e = if ltb (length q) 63 then q ++ e ∷ [] else q

abbrev pub dequeue : List KeyEvent → Option KeyEvent × List KeyEvent
dequeue [] = (none, [])
dequeue (e ∷ q) = (some e, q)

abbrev pub event_of : Driver → ℕ → EventType → KeyEvent
event_of d code type = record { code = code; type = type; modifiers = d.modifiers }

pub queue_event-IsValid :
    (d : Driver) (code : ℕ) (type : EventType) → IsValid d → IsValid (queue_event d code type)
unfolding queue_event
queue_event-IsValid d code type v = ground arith

module _ (d : Driver) (code : ℕ) (type : EventType) (v : IsValid d) where
  queue_event-full :
      ((d.head + 1) % buffer_size == d.tail) ≡ true
      → pending (queue_event d code type) ≡ enqueue (pending d) (event_of d code type)
  unfolding queue_event
  queue_event-full full =
      let many : ltb (length (pending d)) 63 ≡ false = ground (arith, length-pending d) in
      rw (full, many) refl

  queue_event-room :
      ((d.head + 1) % buffer_size == d.tail) ≡ false
      → pending (queue_event d code type) ≡ enqueue (pending d) (event_of d code type)
  unfolding queue_event
  queue_event-room room =
      let few : ltb (length (pending d)) 63 ≡ true = ground (arith, length-pending d) in
      let more : ((d.head + 1) % buffer_size + buffer_size - d.tail) % buffer_size
          ≡ suc (waiting d) =
        ground arith in
      rw (room, few, more)
        (events_from-put (waiting d) d.buffer d.tail d.head (event_of d code type) v.tail_in
          (omega arith) (ground arith))

  -- `queue_event` on a valid driver is `enqueue`.
  pub queue_event-enqueue :
      pending (queue_event d code type) ≡ enqueue (pending d) (event_of d code type)
  queue_event-enqueue = elim (Bool-cases ((d.head + 1) % buffer_size == d.tail)) [
    | inl full ↦ queue_event-full full
    | inr room ↦ queue_event-room room
  ]

waiting-zero : (d : Driver) → IsValid d → d.head ≡ d.tail → pending d ≡ []
waiting-zero d v e = let none_wait : waiting d ≡ 0 = omega arith in rw none_wait refl

waiting-suc :
    (d : Driver)
    → IsValid d
    → d.head ≢ d.tail
    → waiting d ≡ suc ((d.head + buffer_size - (d.tail + 1) % buffer_size) % buffer_size)
waiting-suc d v ne = omega arith

-- `keyboard_get_event` on a valid driver takes the oldest event, and says so when none waits.
pub get_event-dequeue :
    (d : Driver) → IsValid d → ((get_event d).0, pending (get_event d).1) ≡ dequeue (pending d)
unfolding get_event
get_event-dequeue d v = elim (Bool-cases (d.head == d.tail)) [
  | inl same ↦ rw (same, waiting-zero d v (ground arith)) refl
  | inr other ↦ rw (other, waiting-suc d v (ground arith)) refl
]

pub get_event-IsValid : (d : Driver) → IsValid d → IsValid (get_event d).1
unfolding get_event
get_event-IsValid d v = ground arith

-- After `keyboard_init` and after `keyboard_clear_buffer` the driver is valid and no event waits.
pub init-empty :
    (d : Driver)
    → IsValid (init d)
      × (pending (init d) ≡ [])
      × IsValid (clear_buffer d)
      × (pending (clear_buffer d) ≡ [])
unfolding init clear_buffer
init-empty d = (omega arith, refl, omega arith, refl)
