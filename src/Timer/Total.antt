-- ===== src/Timer/Total.antt =====
-- The entries in the wheels, weighed by any function, and how the wheels' operations change the sum.
use wasm_kernel.Base.{
  ℕ, ◌+◌, ◌<◌, ◌≡◌, ◌≢◌, refl, ap, Bool, not, ◌==◌, ==_iff, List, [], ◌∷◌, ◌++◌, arith, update, sum,
  sum-change, sum_zero, Bool-cases, inl, inr,
}
use wasm_kernel.Timer.Wheel.{Entry, Wheel, is_empty}

unfoldable pub weigh : (Entry → ℕ) → List Entry → ℕ
weigh w [] = 0
weigh w (e ∷ list) = w e + weigh w list

pub weigh-append :
    (w : Entry → ℕ) (xs ys : List Entry) → weigh w (xs ++ ys) ≡ weigh w xs + weigh w ys
unfolding weigh
weigh-append w [] ys = omega arith
weigh-append w (x ∷ xs) ys = omega (arith, weigh-append w xs ys)

abbrev pub slots_total : (Entry → ℕ) → Wheel → ℕ
slots_total w wheel = sum 64 (λ s. weigh w (wheel.slots s))

abbrev pub total : (Entry → ℕ) → (ℕ → Wheel) → ℕ
total w wheels = sum 6 (λ l. slots_total w (wheels l))

update_other : {A : Type 0} (f : ℕ → A) (i j : ℕ) (a : A) → j ≢ i → update f i a j ≡ f j
update_other f i j a h = ground arith

update_same : {A : Type 0} (f : ℕ → A) (i : ℕ) (a : A) → update f i a i ≡ a
update_same f i a = ground arith

-- A wheel replaced by one that differs in one slot.
pub total-change :
    (w : Entry → ℕ) (wheels : ℕ → Wheel) (l s : ℕ) (list : List Entry) (occupied : ℕ → Bool)
    → l < 6
    → s < 64
    → total w (
          update wheels l
            (record { occupied_slots = occupied; slots = update ((wheels l).slots) s list }))
        + weigh w ((wheels l).slots s)
      ≡ total w wheels + weigh w list
total-change w wheels l s list occupied hl hs =
    let old = (wheels l).slots in
    let new : Wheel = record { occupied_slots = occupied; slots = update old s list } in
    let inner =
      sum-change 64 s (λ i. weigh w (old i)) (λ i. weigh w (update old s list i))
        (λ j h. ap (weigh w) (update_other old s j list h)) hs in
    let outer =
      sum-change 6 l (λ i. slots_total w (wheels i)) (λ i. slots_total w (update wheels l new i))
        (λ j h. ap (slots_total w) (update_other wheels l j new h)) hl in
    omega (
      arith,
      inner,
      outer,
      ap (weigh w) (update_same old s list),
      ap (slots_total w) (update_same wheels l new),
    )

-- A slot's bit is set exactly if the slot has an entry.
abbrev pub Marked : (ℕ → Wheel) → Type 0
Marked wheels =
    (l s : ℕ) → l < 6 → s < 64 → (wheels l).occupied_slots s ≡ not (is_empty ((wheels l).slots s))

pub Marked-change :
    (wheels : ℕ → Wheel) (l s : ℕ) (list : List Entry)
    → Marked wheels
    → Marked (
        update wheels l (record {
          occupied_slots = update ((wheels l).occupied_slots) s (not (is_empty list));
          slots = update ((wheels l).slots) s list;
        }))
Marked-change wheels l s list m i j hi hj = elim (Bool-cases (l == i)) [
  | inl e ↦
      let same : l ≡ i = (==_iff l i).0 e in
      elim (Bool-cases (s == j)) [
        | inl f ↦ rw (e, f) refl
        | inr f ↦ rw (e, f) (rw same (m i j hi hj))
      ]
  | inr e ↦ rw e (m i j hi hj)
]

-- With no bit set there is no entry.
pub total_zero :
    (w : Entry → ℕ) (wheels : ℕ → Wheel)
    → ((l s : ℕ) → l < 6 → s < 64 → (wheels l).slots s ≡ [])
    → total w wheels ≡ 0
unfolding weigh
total_zero w wheels h =
    sum_zero 6 (λ l. slots_total w (wheels l))
      (λ l hl. sum_zero 64 (λ s. weigh w ((wheels l).slots s)) (λ s hs. ap (weigh w) (h l s hl hs)))
