-- ===== src/Timer/Examples.antt =====
-- A timer wheel with two sleeps, and the theorems at it.
use wasm_kernel.Base.{
  ◌<◌, ◌≡◌, refl, true, false, List, [], ◌∷◌, arith, Outcome, returned, Yields, sum,
}
use mathlib.Core.Option.{Option, none, some}
use wasm_kernel.Memory.Math.{bit_length}
use wasm_kernel.Timer.Bitmap.{is_zero, trailing_zeros, next_set_bit}
use wasm_kernel.Timer.Wheel
use wasm_kernel.Timer.Wheel.{Entry, Wheel, Deadline, is_empty}
use wasm_kernel.Timer.Core
use wasm_kernel.Timer.Core.{Core, new, insert_sleep_at, register_sleep, cancel_sleep, turn_to}
use wasm_kernel.Timer.Total.{weigh, total, Marked}
use wasm_kernel.Timer.Moved.{insert_lem}
use wasm_kernel.Timer.Conserved.{Conserves, turn_to-Conserves}

abbrev soon : Entry
soon = record { sleep = 1; deadline = 5 }

abbrev late : Entry
late = record { sleep = 2; deadline = 100 }

new-Marked : Marked (new.wheels)
new-Marked l s hl hs = refl

-- Both sleeps, registered at time 0.
abbrev armed : Core
armed = insert_sleep_at late (insert_sleep_at soon new)

armed-Marked : Marked (armed.wheels)
armed-Marked = (insert_lem late (insert_sleep_at soon new) (insert_lem soon new new-Marked).0).0

total_new : total (λ _. 1) (new.wheels) ≡ 0
unfolding weigh sum
total_new = refl

total_armed : total (λ _. 1) (armed.wheels) < 4
total_armed = omega (
  arith,
  (insert_lem late (insert_sleep_at soon new) (insert_lem soon new new-Marked).0).1 (λ _. 1),
  (insert_lem soon new new-Marked).1 (λ _. 1),
  total_new,
)

turn_to-Conserves_example : Yields (turn_to false 4 70 armed) (Conserves 70 armed)
turn_to-Conserves_example = turn_to-Conserves 4 70 armed armed-Marked total_armed

-- At time 70 the first sleep has been fired, and the wheels wait for the second at its deadline.
abbrev outcome :
    Outcome (Option (Core × List Entry × Option Deadline)) → List Entry × Option Deadline
outcome (returned (some (c, fired, next))) = (fired, next)
outcome _ = ([], none)

turned_70 :
    outcome (turn_to true 4 70 armed)
    ≡ (soon ∷ [], some (record { ticks = 100; slot = 36; wheel = 0 }))
unfolding turn_to Core.turn_loop Core.find_deadline Wheel.next_deadline Wheel.next_slot_distance
    is_zero insert_sleep_at Core.wheel_index bit_length Wheel.insert Wheel.slot_index
    Wheel.ticks_per_slot next_set_bit trailing_zeros Wheel.deadline_at Wheel.ticks_per_wheel
    Wheel.take Core.fire_entries Core.reschedule Core.unlink
turned_70 = refl
