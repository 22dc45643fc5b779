-- ===== src/Timer/Cancelled.antt =====
-- Registering a sleep, and canceling it again.
use wasm_kernel.Base.{
  ℕ, ◌+◌, ◌<◌, ◌≡◌, refl, Bool, true, false, not, leb, List, ◌∷◌, arith, Yields, update,
  debug_assert-true, ap,
}
use wasm_kernel.Timer.Wheel
use wasm_kernel.Timer.Wheel.{Entry, Wheel, remove_entry}
use wasm_kernel.Timer.Core.{Core, insert_sleep_at, wheel_index, register_sleep, cancel_sleep}
use wasm_kernel.Timer.Total.{total, Marked}
use wasm_kernel.Timer.Moved.{insert_lem}

remove_first : (e : Entry) (list : List Entry) → remove_entry e.sleep (e ∷ list) ≡ list
unfolding remove_entry
remove_first e list = ground arith

cancel-insert :
    (e : Entry) (c : Core) (linked : ℕ → Bool) (l s : ℕ)
    → ((cancel_sleep e (insert_sleep_at e (record c { linked = linked }))).wheels l).slots s
      ≡ ((c.wheels l).slots s)
unfolding cancel_sleep insert_sleep_at Wheel.insert Wheel.remove
cancel-insert e c linked l s =
    let i = wheel_index c.now e.deadline in
    let j = Wheel.slot_index i e.deadline in ground (arith, remove_first e ((c.wheels i).slots j))

-- A sleep that is not linked and whose deadline is past the time is registered in both builds: it is
-- not over, the wheels have its entry beside those that they had, and each slot's bit is right.
-- Canceling it at the same time gives every slot the entries that it had.
pub register_sleep-cancel_sleep :
    (debug : Bool) (e : Entry) (c : Core)
    → Marked c.wheels
    → c.linked e.sleep ≡ false
    → c.now < e.deadline
    → Yields (register_sleep debug e c) (λ (c', over).
      (over ≡ false)
      × ((w : Entry → ℕ) → total w c'.wheels ≡ total w c.wheels + w e)
      × Marked c'.wheels
      × ((l s : ℕ) → ((cancel_sleep e c').wheels l).slots s ≡ (c.wheels l).slots s))
unfolding register_sleep
register_sleep-cancel_sleep debug e c m free later =
    let linked = update c.linked e.sleep true in
    let (marked, more) = insert_lem e (record c { linked = linked }) m in
    let early : leb e.deadline c.now ≡ false = ground arith in
    let fine = debug_assert-true debug (not (c.linked e.sleep)) (ap not free) in
    rw (early, fine) (refl, more, marked, cancel-insert e c linked)
