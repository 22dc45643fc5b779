-- ===== src/Timer/Moved.antt =====
-- Entries that leave a slot, and entries that are put back.
use wasm_kernel.Base.{
  ℕ, ◌+◌, ◌-◌, ◌/◌, ◌≤◌, ◌<◌, ◌≡◌, refl, ◌∙◌, true, false, ltb, leb, if◌then◌else◌, List, [], ◌∷◌,
  ◌++◌, arith, Bool-cases, inl, inr, Yields, Yields-imp, dec_lt, update, All,
}
use Prim.Native.Nat.{bit_or, bit_xor}
use wasm_kernel.Memory.Math.{pow2, pow2-lt, pow2-lt_lt, bit_length, bit_length_bounds}
use wasm_kernel.Timer.Wheel
use wasm_kernel.Timer.Wheel.{Entry, Wheel, Deadline, is_empty}
use wasm_kernel.Timer.Core.{
  Core, fire_entries, reschedule, insert_sleep_at, wheel_index, max_sleep_ticks,
}
use wasm_kernel.Timer.Total.{weigh, weigh-append, total, total-change, Marked, Marked-change}

-- Every entry of the list is due.
abbrev pub Due : ℕ → List Entry → Type 0
Due now = All (λ e. e.deadline ≤ now)

Due-append :
    (now : ℕ) (list : List Entry) (e : Entry)
    → Due now list
    → e.deadline ≤ now
    → Due now (list ++ e ∷ [])
Due-append now [] e h d = (d, tt)
Due-append now (x ∷ list) e h d = (h.0, Due-append now list e h.1 d)

-- Entries are fired or pending, none is lost, and those that are fired are due.
pub fire_entries_lem :
    (wheel now : ℕ) (entries fired pending : List Entry)
    → Due now fired
    → Yields (fire_entries false wheel now entries fired pending) (λ (f, p).
      Due now f
      × ((w : Entry → ℕ)
          → weigh w f + weigh w p ≡ weigh w fired + weigh w pending + weigh w entries))
unfolding fire_entries weigh
fire_entries_lem wheel now [] fired pending h = (h, λ w. omega arith)
fire_entries_lem wheel now (e ∷ entries) fired pending h = elim (Bool-cases (ltb now e.deadline)) [
  | inl late ↦ rw late (
      Yields-imp
        (λ (f, p).
          Due now f
          × ((w : Entry → ℕ)
              → weigh w f + weigh w p ≡ weigh w fired + weigh w (e ∷ pending) + weigh w entries))
        (λ (f, p).
          Due now f
          × ((w : Entry → ℕ)
              → weigh w f + weigh w p ≡ weigh w fired + weigh w pending + weigh w (e ∷ entries)))
        (fire_entries false wheel now entries fired (e ∷ pending))
        (λ (f, p) (due, same). (due, λ w. omega (arith, same w)))
        (fire_entries_lem wheel now entries fired (e ∷ pending) h))
  | inr early ↦ rw early (
      Yields-imp
        (λ (f, p).
          Due now f
          × ((w : Entry → ℕ)
              → weigh w f + weigh w p
                ≡ weigh w (fired ++ e ∷ []) + weigh w pending + weigh w entries))
        (λ (f, p).
          Due now f
          × ((w : Entry → ℕ)
              → weigh w f + weigh w p ≡ weigh w fired + weigh w pending + weigh w (e ∷ entries)))
        (fire_entries false wheel now entries (fired ++ e ∷ []) pending)
        (λ (f, p) (due, same). (due, λ w. omega (arith, same w, weigh-append w fired (e ∷ []))))
        (fire_entries_lem wheel now entries (fired ++ e ∷ []) pending
          (Due-append now fired e h (ground arith))))
]

pow2_37 : pow2 37 ≡ 137438953472
unfolding pow2
pow2_37 = refl

level-lt : (x : ℕ) → x < 68719476736 → (bit_length 64 x - 1) / 6 < 6
level-lt x h = elim (dec_lt 0 x) [
  | yes p ↦
      let b = bit_length_bounds 64 x (omega (arith, pow2_37, pow2-lt 37 64 (omega arith))) in
      let small = pow2-lt_lt (bit_length 64 x) 37 (omega (arith, b.1 p, pow2_37)) in omega arith
  | no p ↦ let none_left : x ≡ 0 = omega arith in rw none_left (unfold bit_length in omega arith)
]

wheel_index-lt : (now ticks : ℕ) → wheel_index now ticks < 6
unfolding wheel_index
wheel_index-lt now ticks =
    let masked = bit_or (bit_xor now ticks) 63 in
    level-lt (if leb max_sleep_ticks masked then max_sleep_ticks - 1 else masked) (ground arith)

-- An entry is put into a slot whose bit is then set.
pub insert_lem :
    (e : Entry) (c : Core)
    → Marked c.wheels
    → Marked ((insert_sleep_at e c).wheels)
      × ((w : Entry → ℕ) → total w ((insert_sleep_at e c).wheels) ≡ total w c.wheels + w e)
unfolding insert_sleep_at Wheel.insert
insert_lem e c m =
    let l = wheel_index c.now e.deadline in
    let s = Wheel.slot_index l e.deadline in
    let list = e ∷ (c.wheels l).slots s in
    let low = wheel_index-lt c.now e.deadline in
    let slot : s < 64 = unfold Wheel.slot_index in omega arith in
    (
      Marked-change c.wheels l s list m,
      λ w.
          let change =
            total-change w c.wheels l s list (update ((c.wheels l).occupied_slots) s true) low
              slot in
          unfold weigh in omega (arith, change),
    )

now-insert_sleep_at : (e : Entry) (c : Core) → (insert_sleep_at e c).now ≡ c.now
unfolding insert_sleep_at
now-insert_sleep_at e c = refl

pub reschedule_lem :
    (pending : List Entry) (c : Core)
    → Marked c.wheels
    → Yields (reschedule false pending c) (λ c'.
      Marked c'.wheels
      × (c'.now ≡ c.now)
      × ((w : Entry → ℕ) → total w c'.wheels ≡ total w c.wheels + weigh w pending))
unfolding reschedule weigh
reschedule_lem [] c m = (m, refl, λ w. omega arith)
reschedule_lem (e ∷ pending) c m =
    let (m', more) = insert_lem e c m in
    Yields-imp
      (λ c'.
        Marked c'.wheels
        × (c'.now ≡ (insert_sleep_at e c).now)
        × ((w : Entry → ℕ)
            → total w c'.wheels ≡ total w ((insert_sleep_at e c).wheels) + weigh w pending))
      (λ c'.
        Marked c'.wheels
        × (c'.now ≡ c.now)
        × ((w : Entry → ℕ) → total w c'.wheels ≡ total w c.wheels + weigh w (e ∷ pending)))
      (reschedule false pending (insert_sleep_at e c))
      (λ c' (k, n, same). (k, n ∙ now-insert_sleep_at e c, λ w. omega (arith, same w, more w)))
      (reschedule_lem pending (insert_sleep_at e c) m')
