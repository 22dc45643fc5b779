-- ===== src/Timer/Core.antt =====
-- `Core`: the wheels and the time, and the operations on them.
use Prim.Native.Nat.{bit_or, bit_xor}
use wasm_kernel.Base.{
  ℕ, zero, suc, ◌-◌, ◌/◌, ◌^◌, Bool, true, false, not, ◌||◌, ◌==◌, ltb, leb, if◌then◌else◌, List,
  [], ◌∷◌, ◌++◌, update, Outcome, returned, ◌>>=◌, ◌>>◌, debug_assert,
}
use mathlib.Core.Option.{Option, none, some}
use wasm_kernel.Memory.Math.{bit_length}
use wasm_kernel.Timer.Wheel
use wasm_kernel.Timer.Wheel.{
  Entry, Wheel, Deadline, new_wheel, wheels_per_core, wheel_bits, is_empty,
}

-- `linked` has the flags of the sleeps' entries.
pub record Core : Type 0 where
  pub now : ℕ
  pub wheels : ℕ → Wheel
  pub linked : ℕ → Bool

abbrev pub new : Core
new = record { now = 0; wheels = λ _. new_wheel; linked = λ _. false }

-- `MAX_SLEEP_TICKS`
abbrev pub max_sleep_ticks : ℕ
max_sleep_ticks = 2 ^ 36 - 1

unfoldable pub wheel_index : ℕ → ℕ → ℕ
wheel_index now ticks =
    let masked = bit_or (bit_xor now ticks) 63 in
    let wheel_indices = if leb max_sleep_ticks masked then max_sleep_ticks - 1 else masked in
    (bit_length 64 wheel_indices - 1) / wheels_per_core

unfoldable pub insert_sleep_at : Entry → Core → Core
insert_sleep_at e c =
    let wheel = wheel_index c.now e.deadline in
    record c { wheels = update c.wheels wheel (Wheel.insert wheel e (c.wheels wheel)) }

-- The first wheel of the `left` ones from `level` on that has a deadline.
unfoldable pub find_deadline : Bool → ℕ → ℕ → Core → Outcome (Option Deadline)
find_deadline debug zero level c = returned none
find_deadline debug (suc left) level c =
    Wheel.next_deadline debug level c.now (c.wheels level) >>= λ found. elim found [
      | none ↦ find_deadline debug left (suc level) c
      | some d ↦ returned (some d)
    ]

abbrev pub next_deadline : Bool → Core → Outcome (Option Deadline)
next_deadline debug c = find_deadline debug wheels_per_core 0 c

-- `register_sleep`: whether the sleep is over already; else it is linked.
unfoldable pub register_sleep : Bool → Entry → Core → Outcome (Core × Bool)
register_sleep debug e c =
    if leb e.deadline c.now
    then returned (record c { linked = update c.linked e.sleep false }, true)
    else (debug_assert debug (not (c.linked e.sleep))
        >> returned (insert_sleep_at e (record c { linked = update c.linked e.sleep true }), false))

unfoldable pub has_entry : ℕ → List Entry → Bool
has_entry sleep [] = false
has_entry sleep (e ∷ list) = e.sleep == sleep || has_entry sleep list

-- `cancel_sleep`: the sleep is unlinked if its slot had it.
unfoldable pub cancel_sleep : Entry → Core → Core
cancel_sleep e c =
    let wheel = wheel_index c.now e.deadline in
    let found = has_entry e.sleep ((c.wheels wheel).slots (Wheel.slot_index wheel e.deadline)) in
    record c {
      wheels = update c.wheels wheel (Wheel.remove wheel e (c.wheels wheel));
      linked = if found then update c.linked e.sleep false else c.linked;
    }

-- The entries of a slot: those that are due are fired, in order, and the others are pending, the last
-- first.
unfoldable pub fire_entries :
    Bool → ℕ → ℕ → List Entry → List Entry → List Entry → Outcome (List Entry × List Entry)
fire_entries debug wheel now [] fired pending = returned (fired, pending)
fire_entries debug wheel now (e ∷ entries) fired pending =
    let late = ltb now e.deadline in
    debug_assert debug (not late || not (wheel == 0))
    >> fire_entries debug wheel now entries (if late then fired else fired ++ e ∷ [])
        (if late then e ∷ pending else pending)

unfoldable pub unlink : List Entry → (ℕ → Bool) → ℕ → Bool
unlink [] linked = linked
unlink (e ∷ fired) linked = unlink fired (update linked e.sleep false)

-- What the loop of `turn_to` leaves: the wheels, the entries that were fired and those that are
-- pending, and the deadline at which it stopped.
pub record Turn : Type 0 where
  pub core : Core
  pub fired : List Entry
  pub pending : List Entry
  pub next : Option Deadline

-- The loop, on fuel; `none` says that the fuel ran out.
unfoldable pub turn_loop : Bool → ℕ → ℕ → Core → List Entry → List Entry → Outcome (Option Turn)
turn_loop debug zero now c fired pending = returned none
turn_loop debug (suc fuel) now c fired pending = next_deadline debug c >>= λ found. elim found [
  | none ↦ returned (some (record { core = c; fired = fired; pending = pending; next = none }))
  | some d ↦
      if ltb now d.ticks
      then returned (some (record { core = c; fired = fired; pending = pending; next = some d }))
      else (Wheel.take debug d.slot (c.wheels d.wheel) >>= λ (wheel, entries).
          fire_entries debug d.wheel now entries fired pending >>= λ (fired', pending').
          turn_loop debug fuel now
            (record c { wheels = update c.wheels d.wheel wheel; now = d.ticks }) fired' pending')
]

unfoldable pub reschedule : Bool → List Entry → Core → Outcome Core
reschedule debug [] c = returned c
reschedule debug (e ∷ pending) c =
    debug_assert debug (ltb c.now e.deadline)
    >> debug_assert debug (not (e.deadline == 0))
    >> reschedule debug pending (insert_sleep_at e c)

-- `turn_to`: the core, the entries that were fired, and the next deadline.
unfoldable pub turn_to :
    Bool → ℕ → ℕ → Core → Outcome (Option (Core × List Entry × Option Deadline))
turn_to debug fuel now c = turn_loop debug fuel now c [] [] >>= λ found. elim found [
  | none ↦ returned none
  | some t ↦
      (reschedule debug t.pending (record (t.core) { now = now; linked = unlink t.fired c.linked })
        >>= λ c'.
            (if is_empty t.pending then returned t.next else next_deadline debug c') >>= λ next.
            returned (some (c', t.fired, next)))
]
