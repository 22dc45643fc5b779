-- ===== src/Task/Cell/Linear.antt =====
-- `transition` takes effect at one moment: its result is the closure's on a value that the loop
-- read from the cell.
use wasm_kernel.Base.{
  ◌==◌, ==_iff, if◌then◌else◌, ◌≡◌, refl, sym, ap, ◌∙◌, ◌⊎◌, inl, inr, Bool-cases, List, [], ◌∷◌,
  Outcome, returned, >>=-eq-returned,
}
use wasm_kernel.Task.Word.{State, to_word, from_word, from_word-to_word}
use wasm_kernel.Task.Cell.{transition, capture_none}

-- One of the values that the loop read.
abbrev pub Read : State → State → List State → Type 0
Read v current [] = v ≡ current
Read v current (actual ∷ failures) = (v ≡ current) ⊎ Read v actual failures

to_word-injective : (s t : State) → to_word s ≡ to_word t → s ≡ t
to_word-injective s t e = sym (from_word-to_word s) ∙ ap from_word e ∙ from_word-to_word t

module _ {C A : Type 0} (step : State → C → Outcome (State × C × A)) where
  -- The closure's own result at a value that was read, for what it had captured by then.
  abbrev pub Linear : State → List State → State × C × A → Type 0
  Linear current failures out =
      (v : State) × (c : C) × Read v current failures × (step v c ≡ returned out)

  -- One round: either the state is unchanged and the loop returns, or it goes on.
  round-Linear :
      (c : C) (current actual : State) (failures : List State) {next : State} {c' : C} {res : A}
      {out : State × C × A}
      → step current c ≡ returned (next, c', res)
      → (if to_word current == to_word next
          then returned (current, c', res)
          else transition step c' actual failures)
        ≡ returned out
      → (transition step c' actual failures ≡ returned out → Linear actual failures out)
      → Linear current (actual ∷ failures) out
  round-Linear c current actual failures {next} {c'} {res} {out} e h rest =
      elim (Bool-cases (to_word current == to_word next)) [
        | inl same ↦
            let kept : next ≡ current =
              sym (to_word-injective current next ((==_iff _ _).0 same)) in
            let ended : returned (current, c', res) ≡ returned out = rw same at h in
            (current, c, inl refl, e ∙ ap (λ x. returned (x, c', res)) kept ∙ ended)
        | inr moved ↦ let (v, c'', r, q) = rest (rw moved at h) in (v, c'', inr r, q)
      ]

  pub transition-Linear :
      (c : C) (current : State) (failures : List State) {out : State × C × A}
      → transition step c current failures ≡ returned out
      → Linear current failures out
  unfolding transition
  transition-Linear c current [] h = (current, c, refl, h)
  transition-Linear c current (actual ∷ failures) h =
      let (mid, e, k) = >>=-eq-returned (step current c) _ h in
      round-Linear c current actual failures e k (λ q. transition-Linear mid.1 actual failures q)

-- Where the compare-exchange loop returns, for a closure that captures nothing, its result and the
-- new state are the closure's own on one value that the loop read from the cell, whatever other
-- threads wrote in between: no result is made of two readings.
transition-capture_none :
    {A : Type 0} (step : State → Outcome (State × A)) (current : State) (failures : List State)
    {s : State} {a : A}
    → transition (capture_none step) tt current failures ≡ returned (s, tt, a)
    → (v : State) × Read v current failures × (step v ≡ returned (s, a))
unfolding capture_none
transition-capture_none step current failures h =
    let (v, c, r, e) = transition-Linear (capture_none step) tt current failures h in
    let (mid, p, q) = >>=-eq-returned (step v) _ e in (v, r, p ∙ cc)
