-- ===== src/Timer/Wheel.antt =====
-- `Wheel`: the slots of one level, and the next slot that expires. `level` is the wheel's level, of
-- which its tick counts are functions. `debug` says whether the build has debug assertions.
use wasm_kernel.Base.{
  ℕ, ◌+◌, ◌-◌, ◌*◌, ◌/◌, ◌%◌, ◌^◌, Bool, true, false, not, ◌||◌, ◌==◌, ltb, if◌then◌else◌, List, [],
  ◌∷◌, update, Outcome, returned, ◌>>=◌, ◌>>◌, debug_assert,
}
use mathlib.Core.Option.{Option, none, some}
use wasm_kernel.Timer.Bitmap.{is_zero, next_set_bit}

-- A `sleep::Entry`, known by its number; its deadline is fixed.
pub record Entry : Type 0 where
  pub sleep : ℕ
  pub deadline : ℕ

pub record Wheel : Type 0 where
  pub occupied_slots : ℕ → Bool
  pub slots : ℕ → List Entry

pub record Deadline : Type 0 where
  pub ticks : ℕ
  pub slot : ℕ
  pub wheel : ℕ

abbrev pub slots_per_wheel : ℕ
slots_per_wheel = 64

abbrev pub wheel_bits : ℕ
wheel_bits = 6

-- The number of wheels, `Core::WHEELS`
abbrev pub wheels_per_core : ℕ
wheels_per_core = 6

abbrev pub u64_mod : ℕ
u64_mod = 2 ^ 64

unfoldable pub ticks_per_slot : ℕ → ℕ
ticks_per_slot level = 64 ^ level

unfoldable pub ticks_per_wheel : ℕ → ℕ
ticks_per_wheel level = 64 ^ level * 64

abbrev pub new_wheel : Wheel
new_wheel = record { occupied_slots = λ _. false; slots = λ _. [] }

unfoldable pub slot_index : ℕ → ℕ → ℕ
slot_index level ticks = ticks / ticks_per_slot level % slots_per_wheel

abbrev pub is_empty {ℓ} : {A : Type ℓ} → List A → Bool
is_empty [] = true
is_empty (x ∷ xs) = false

unfoldable pub insert : ℕ → Entry → Wheel → Wheel
insert level e w =
    let slot = slot_index level e.deadline in
    record w {
      slots = update w.slots slot (e ∷ w.slots slot);
      occupied_slots = update w.occupied_slots slot true;
    }

-- `List::remove` of the entry of a sleep
unfoldable pub remove_entry : ℕ → List Entry → List Entry
remove_entry sleep [] = []
remove_entry sleep (e ∷ list) = if e.sleep == sleep then list else e ∷ remove_entry sleep list

unfoldable pub remove : ℕ → Entry → Wheel → Wheel
remove level e w =
    let slot = slot_index level e.deadline in
    let list = remove_entry e.sleep (w.slots slot) in
    record w {
      slots = update w.slots slot list;
      occupied_slots =
          if is_empty list then update w.occupied_slots slot false else w.occupied_slots;
    }

unfoldable pub take : Bool → ℕ → Wheel → Outcome (Wheel × List Entry)
take debug slot w =
    debug_assert debug (w.occupied_slots slot)
    >> debug_assert debug (not (is_empty (w.slots slot)))
    >> returned (
      record w {
        slots = update w.slots slot [];
        occupied_slots = update w.occupied_slots slot false;
      },
      w.slots slot,
    )

unfoldable pub next_slot_distance : Bool → ℕ → ℕ → Wheel → Outcome (Option ℕ)
next_slot_distance debug level now w =
    if is_zero 64 w.occupied_slots
    then returned none
    else next_set_bit debug w.occupied_slots (now / ticks_per_slot level % slots_per_wheel)

-- The slot at a distance, and the ticks at which it expires.
unfoldable pub deadline_at : ℕ → ℕ → ℕ → Deadline
deadline_at level now distance =
    let slot = distance % slots_per_wheel in
    let skipped = distance - slots_per_wheel in
    let rotation_start = now / ticks_per_wheel level * ticks_per_wheel level in
    record {
      ticks =
          (rotation_start + slot * ticks_per_slot level + skipped * ticks_per_wheel level)
          % u64_mod;
      slot = slot;
      wheel = level;
    }

unfoldable pub next_deadline : Bool → ℕ → ℕ → Wheel → Outcome (Option Deadline)
next_deadline debug level now w = next_slot_distance debug level now w >>= λ found. elim found [
  | none ↦ returned none
  | some distance ↦
      (debug_assert debug (ltb distance (slots_per_wheel * 2))
        >> debug_assert debug (distance - slots_per_wheel == 0 || level == wheels_per_core - 1)
        >> returned (some (deadline_at level now distance)))
]
