-- ===== src/Timer/Turned.antt =====
-- What `turn_to` does with the entries.
use wasm_kernel.Base.{
  ℕ, zero, suc, ◌+◌, ◌<◌, ◌≡◌, refl, sym, ◌∙◌, true, false, not, ltb, if◌then◌else◌, List, [], ◌∷◌,
  arith, Bool-cases, inl, inr, returned, ◌>>=◌, Yields, Yields->>=, Yields-imp, update,
}
use mathlib.Core.Option.{Option, none, some}
use wasm_kernel.Timer.Wheel
use wasm_kernel.Timer.Wheel.{Entry, Wheel, Deadline, is_empty}
use wasm_kernel.Timer.Core.{Core, Turn, find_deadline, fire_entries, turn_loop}
use wasm_kernel.Timer.Total.{weigh, total, total-change, Marked, Marked-change, total_zero}
use wasm_kernel.Timer.Found.{Found, find_deadline-Found}
use wasm_kernel.Timer.Moved.{Due, fire_entries_lem}

-- The state of `turn_to`'s loop when it ends, from the core `c` with `fired` and `pending` entries.
pub record Turns (now : ℕ) (c : Core) (fired pending : List Entry) (t : Turn) : Type 0 where
  pub due : Due now t.fired
  pub same :
      (w : Entry → ℕ)
      → total w t.core.wheels + weigh w t.fired + weigh w t.pending
        ≡ total w c.wheels + weigh w fired + weigh w pending
  pub marked : Marked t.core.wheels
  pub ended : t.next ≡ none → (w : Entry → ℕ) → total w t.core.wheels ≡ 0
  pub later : (d : Deadline) → t.next ≡ some d → now < d.ticks

abbrev pub Ends : ℕ → Core → List Entry → List Entry → Option Turn → Type 0
Ends now c fired pending none = ⊥
Ends now c fired pending (some t) = Turns now c fired pending t

nonempty_weigh : (list : List Entry) → not (is_empty list) ≡ true → 0 < weigh (λ _. 1) list
unfolding weigh
nonempty_weigh [] h = cc
nonempty_weigh (e ∷ list) h = omega arith

-- A turn that goes on: what holds of the rest of the loop holds of the whole.
Turns-after :
    (now : ℕ) (c c' : Core) (fired pending fired' pending' entries : List Entry) (r : Option Turn)
    → ((w : Entry → ℕ) → total w c'.wheels + weigh w entries ≡ total w c.wheels)
    → ((w : Entry → ℕ)
        → weigh w fired' + weigh w pending' ≡ weigh w fired + weigh w pending + weigh w entries)
    → Ends now c' fired' pending' r
    → Ends now c fired pending r
Turns-after now c c' fired pending fired' pending' entries none p q h = h
Turns-after now c c' fired pending fired' pending' entries (some t) p q h = record {
  due = h.due;
  same = λ w. omega (arith, h.same w, p w, q w);
  marked = h.marked;
  ended = h.ended;
  later = h.later;
}

-- The core after a slot was taken.
abbrev taken : Core → Deadline → Core
taken c d = record c {
  wheels = update c.wheels d.wheel (record {
    slots = update ((c.wheels d.wheel).slots) d.slot [];
    occupied_slots = update ((c.wheels d.wheel).occupied_slots) d.slot false;
  });
  now = d.ticks;
}

total-taken :
    (w : Entry → ℕ) (c : Core) (d : Deadline)
    → d.wheel < 6
    → d.slot < 64
    → total w ((taken c d).wheels) + weigh w ((c.wheels d.wheel).slots d.slot) ≡ total w c.wheels
unfolding weigh
total-taken w c d hl hs = omega (
  arith,
  total-change w c.wheels d.wheel d.slot []
      (update ((c.wheels d.wheel).occupied_slots) d.slot false) hl hs,
)

pub turn_loop-Ends :
    (fuel now : ℕ) (c : Core) (fired pending : List Entry)
    → Marked c.wheels
    → Due now fired
    → total (λ _. 1) c.wheels < fuel
    → Yields (turn_loop false fuel now c fired pending) (λ r. Ends now c fired pending r)
unfolding turn_loop Wheel.take
turn_loop-Ends zero now c fired pending m due h = absurd (omega arith)
turn_loop-Ends (suc fuel) now c fired pending m due h =
    Yields->>= (λ found. Found 0 c.wheels found) (λ r. Ends now c fired pending r)
      (find_deadline false 6 0 c) _ (find_deadline-Found 6 0 c (omega arith) m)
      (step (λ c' f p m' d l. turn_loop-Ends fuel now c' f p m' d l))
  where
    step :
        ((c' : Core) (f p : List Entry)
          → Marked c'.wheels
          → Due now f
          → total (λ _. 1) c'.wheels < fuel
          → Yields (turn_loop false fuel now c' f p) (λ r. Ends now c' f p r))
        → (found : Option Deadline) → Found 0 c.wheels found
        → Yields
            (elim found [
              | none ↦
                  returned
                    (some (record { core = c; fired = fired; pending = pending; next = none }))
              | some d ↦
                  if ltb now d.ticks
                  then returned
                      (some (record { core = c; fired = fired; pending = pending; next = some d }))
                  else (Wheel.take false d.slot (c.wheels d.wheel) >>= λ (wheel, entries).
                      fire_entries false d.wheel now entries fired pending >>= λ (fired', pending').
                      turn_loop false fuel now
                        (record c { wheels = update c.wheels d.wheel wheel; now = d.ticks })
                        fired'
                        pending')
            ])
            (λ r. Ends now c fired pending r)
    step ih none f = record {
      due = due;
      same = λ w. refl;
      marked = m;
      ended = λ e w. total_zero w c.wheels (λ l s hl hs. f l s (omega arith) hl hs);
      later = λ d e. absurd (cc);
    }
    step ih (some d) (hl, hs, occupied) = elim (Bool-cases (ltb now d.ticks)) [
      | inl late ↦ rw late (record {
        due = due;
        same = λ w. refl;
        marked = m;
        ended = λ e. absurd (cc);
        later = λ d' e. ground arith;
      })
      | inr early ↦
          let entries = (c.wheels d.wheel).slots d.slot in
          let some_entry = nonempty_weigh entries (sym (m d.wheel d.slot hl hs) ∙ occupied) in
          let gone = λ (w : Entry → ℕ). total-taken w c d hl hs in
          rw early (
            Yields->>=
              (λ (f, p).
                Due now f
                × ((w : Entry → ℕ)
                    → weigh w f + weigh w p ≡ weigh w fired + weigh w pending + weigh w entries))
              (λ r. Ends now c fired pending r)
              (fire_entries false d.wheel now entries fired pending) _
              (fire_entries_lem d.wheel now entries fired pending due)
              (λ (f, p) (due', same).
                Yields-imp (λ r. Ends now (taken c d) f p r) (λ r. Ends now c fired pending r)
                  (turn_loop false fuel now (taken c d) f p)
                  (λ r e. Turns-after now c (taken c d) fired pending f p entries r gone same e)
                  (ih (taken c d) f p (Marked-change c.wheels d.wheel d.slot [] m) due'
                    (omega (arith, gone (λ _. 1))))))
    ]
