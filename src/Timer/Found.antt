-- ===== src/Timer/Found.antt =====
-- What `next_deadline` finds: an occupied slot, or that no slot has an entry.
use wasm_kernel.Base.{
  ℕ, zero, suc, ◌+◌, ◌/◌, ◌%◌, ◌≤◌, ◌<◌, ◌≡◌, refl, sym, ◌∙◌, true, false, not, List, [], ◌∷◌,
  arith, Bool-cases, inl, inr, returned, Yields, Yields->>=, Yields-imp, dec_lt,
}
use mathlib.Core.Option.{Option, none, some}
use mathlib.Core.Path.{subst}
use wasm_kernel.Timer.Bitmap.{is_zero, is_zero-clear, next_set_bit-set}
use wasm_kernel.Timer.Wheel
use wasm_kernel.Timer.Wheel.{
  Entry, Wheel, Deadline, is_empty, next_slot_distance, deadline_at, ticks_per_slot,
}
use wasm_kernel.Timer.Core.{Core, find_deadline}
use wasm_kernel.Timer.Total.{Marked}

abbrev pub Next : ℕ → Wheel → Option Deadline → Type 0
Next level w none = is_zero 64 w.occupied_slots ≡ true
Next level w (some d) = (d.wheel ≡ level) × (d.slot < 64) × (w.occupied_slots d.slot ≡ true)

next_deadline-Next :
    (level now : ℕ) (w : Wheel)
    → Yields (Wheel.next_deadline false level now w) (λ found. Next level w found)
unfolding Wheel.next_deadline next_slot_distance deadline_at
next_deadline-Next level now w = elim (Bool-cases (is_zero 64 w.occupied_slots)) [
  | inl e ↦ rw e e
  | inr e ↦
      let (d, p, q) =
        next_set_bit-set w.occupied_slots (now / ticks_per_slot level % 64) (omega arith) e in
      rw (e, p) (refl, omega arith, q)
]

abbrev pub Found : ℕ → (ℕ → Wheel) → Option Deadline → Type 0
Found level wheels none = (l s : ℕ) → level ≤ l → l < 6 → s < 64 → (wheels l).slots s ≡ []
Found level wheels (some d) =
    (d.wheel < 6) × (d.slot < 64) × ((wheels d.wheel).occupied_slots d.slot ≡ true)

empty_list : {A : Type 0} (list : List A) → not (is_empty list) ≡ false → list ≡ []
empty_list [] h = refl
empty_list (x ∷ list) h = cc

pub find_deadline-Found :
    (left level : ℕ) (c : Core)
    → level + left ≡ 6
    → Marked c.wheels
    → Yields (find_deadline false left level c) (λ found. Found level c.wheels found)
unfolding find_deadline
find_deadline-Found zero level c h m = λ l s lo hi hs. absurd (omega arith)
find_deadline-Found (suc left) level c h m =
    Yields->>= (λ found. Next level (c.wheels level) found) (λ found. Found level c.wheels found)
      (Wheel.next_deadline false level c.now (c.wheels level)) _
      (next_deadline-Next level c.now (c.wheels level))
      (step (find_deadline-Found left (suc level) c (omega arith) m))
  where
    deeper :
        is_zero 64 ((c.wheels level).occupied_slots) ≡ true
        → (found : Option Deadline) → Found (suc level) c.wheels found
        → Found level c.wheels found
    deeper z none f = λ l s lo hi hs. elim (dec_lt level l) [
      | yes p ↦ f l s p hi hs
      | no p ↦
          let same : l ≡ level = omega arith in
          rw same (
            empty_list ((c.wheels level).slots s) (
              sym (m level s (omega arith) hs)
              ∙ is_zero-clear 64 ((c.wheels level).occupied_slots) s z hs))
    ]
    deeper z (some d) f = f

    step :
        Yields (find_deadline false left (suc level) c) (λ r. Found (suc level) c.wheels r)
        → (found : Option Deadline) → Next level (c.wheels level) found
        → Yields
            (elim found [
              | none ↦ find_deadline false left (suc level) c
              | some d ↦ returned (some d)
            ])
            (λ r. Found level c.wheels r)
    step ih none z =
        Yields-imp (λ r. Found (suc level) c.wheels r) (λ r. Found level c.wheels r)
          (find_deadline false left (suc level) c) (deeper z) ih
    step ih (some d) n =
        let up : d.wheel ≡ level = n.0 in
        (omega arith, n.1, subst (λ l. (c.wheels l).occupied_slots d.slot ≡ true) (sym up) n.2)
