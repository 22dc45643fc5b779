-- ===== src/Timer/Conserved.antt =====
-- What `turn_to` does with the entries, once its loop has ended.
use wasm_kernel.Base.{
  ℕ, ◌+◌, ◌<◌, ◌≡◌, refl, true, false, if◌then◌else◌, List, [], ◌∷◌, arith, Bool-cases, inl, inr,
  returned, ◌>>=◌, Yields, Yields->>=, Yields-imp,
}
use mathlib.Core.Option.{Option, none, some}
use wasm_kernel.Timer.Wheel.{Entry, Deadline, is_empty}
use wasm_kernel.Timer.Core.{Core, Turn, next_deadline, turn_loop, turn_to, reschedule, unlink}
use wasm_kernel.Timer.Total.{weigh, total, Marked, total_zero}
use wasm_kernel.Timer.Found.{Found, find_deadline-Found}
use wasm_kernel.Timer.Moved.{Due, reschedule_lem}
use wasm_kernel.Timer.Turned.{Turns, Ends, turn_loop-Ends}

-- What a call of `turn_to` comes to: `fired` are due, the others are left.
abbrev pub Conserves : ℕ → Core → Option (Core × List Entry × Option Deadline) → Type 0
Conserves now c none = ⊥
Conserves now c (some (c', fired, next)) =
    Due now fired
    × ((w : Entry → ℕ) → total w c'.wheels + weigh w fired ≡ total w c.wheels)
    × (c'.now ≡ now)
    × Marked c'.wheels
    × (next ≡ none → (w : Entry → ℕ) → total w c'.wheels ≡ 0)

empty_weigh : (w : Entry → ℕ) (list : List Entry) → is_empty list ≡ true → weigh w list ≡ 0
unfolding weigh
empty_weigh w [] h = refl
empty_weigh w (e ∷ list) h = cc

-- The deadline that is returned: if there is none, no entry is left.
last_deadline :
    (now : ℕ) (c c' : Core) (t : Turn)
    → Turns now c [] [] t
    → Marked c'.wheels
    → ((w : Entry → ℕ) → total w c'.wheels ≡ total w t.core.wheels + weigh w t.pending)
    → Yields
        (if is_empty t.pending then returned t.next else next_deadline false c')
        (λ next. next ≡ none → (w : Entry → ℕ) → total w c'.wheels ≡ 0)
last_deadline now c c' t e m same = elim (Bool-cases (is_empty t.pending)) [
  | inl z ↦ rw z (λ n w. omega (arith, same w, e.ended n w, empty_weigh w t.pending z))
  | inr z ↦ rw z (
      Yields-imp (λ found. Found 0 c'.wheels found)
        (λ next. next ≡ none → (w : Entry → ℕ) → total w c'.wheels ≡ 0) (next_deadline false c')
        found (find_deadline-Found 6 0 c' (omega arith) m))
]
  where
    found :
        (next : Option Deadline)
        → Found 0 c'.wheels next
        → next ≡ none
        → (w : Entry → ℕ) → total w c'.wheels ≡ 0
    found none f n w = total_zero w c'.wheels (λ l s hl hs. f l s (omega arith) hl hs)
    found (some d) f n w = absurd (cc)

finish :
    (now : ℕ) (c : Core) (r : Option Turn)
    → Ends now c [] [] r
    → Yields
        (elim r [
          | none ↦ returned none
          | some t ↦
              (reschedule false t.pending
                  (record (t.core) { now = now; linked = unlink t.fired c.linked })
                >>= λ c'.
                    (if is_empty t.pending then returned t.next else next_deadline false c')
                    >>= λ next. returned (some (c', t.fired, next)))
        ])
        (Conserves now c)
finish now c none e = e
finish now c (some t) e =
    let c1 : Core = record (t.core) { now = now; linked = unlink t.fired c.linked } in
    Yields->>=
      (λ c'.
        Marked c'.wheels
        × (c'.now ≡ now)
        × ((w : Entry → ℕ) → total w c'.wheels ≡ total w t.core.wheels + weigh w t.pending))
      (Conserves now c) (reschedule false t.pending c1) _ (reschedule_lem t.pending c1 e.marked)
      (λ c' (m, n, same).
        Yields->>= (λ next. next ≡ none → (w : Entry → ℕ) → total w c'.wheels ≡ 0) (Conserves now c)
          (if is_empty t.pending then returned t.next else next_deadline false c') _
          (last_deadline now c c' t e m same)
          (λ next over. (e.due, λ w. unfold weigh in omega (arith, same w, e.same w), n, m, over)))

-- With more fuel than there are entries, and each slot's bit set exactly if it has an entry, turning
-- the wheels to `now` returns in a build without debug assertions. Every entry that is fired is due;
-- whatever the entries are weighed by, the fired ones and those left in the wheels weigh as much as
-- the entries before, so none is lost, fired twice or made up; the time is `now`, each slot's bit is
-- right again, and if no deadline is returned then no entry is left.
pub turn_to-Conserves :
    (fuel now : ℕ) (c : Core)
    → Marked c.wheels
    → total (λ _. 1) c.wheels < fuel
    → Yields (turn_to false fuel now c) (Conserves now c)
unfolding turn_to
turn_to-Conserves fuel now c m h =
    Yields->>= (λ r. Ends now c [] [] r) (Conserves now c) (turn_loop false fuel now c [] []) _
      (turn_loop-Ends fuel now c [] [] m tt h) (finish now c)
