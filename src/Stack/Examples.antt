-- ===== src/Stack/Examples.antt =====
-- Two threads push at once, and what they pushed is taken.
use mathlib.Core.Option.{none, some}
use wasm_kernel.Base.{ℕ, ◌≡◌, refl, update, [], ◌∷◌}
use wasm_kernel.Stack.Node.{set_link, exchange, pop}
use wasm_kernel.Stack.Threads.{Place, World, first_of, loaded, Step, new, Reach}
use wasm_kernel.Stack.Linked.{Linked, Held}
use wasm_kernel.Stack.Popping.{Reach-Linked}

-- Both read that the stack is empty; node 1 comes first.
abbrev both : World
both = loaded (loaded new 1) 2

abbrev first : World
first = record both {
  stack = record both.stack { head = some 1 };
  contents = 1 ∷ [];
  place = update both.place 1 Place.shared;
}

-- The exchange for node 2 fails, and then not.
too_late : exchange 2 (first.expected 2) first.stack ≡ none
unfolding exchange set_link
too_late = refl

abbrev again : World
again = loaded first 2

abbrev second : World
second = record again {
  stack = record again.stack { head = some 2 };
  contents = 2 ∷ 1 ∷ [];
  place = update again.place 2 Place.shared;
}

Reach-second : Reach second
unfolding exchange set_link
Reach-second =
    Reach.next
      (Reach.next
        (Reach.next
          (Reach.next (Reach.next Reach.here (Step.load 1 refl refl)) (Step.load 2 refl refl))
          (Step.exchanged 1 first.stack refl refl refl))
        (Step.fail 2 refl refl))
      (Step.exchanged 2 second.stack refl refl refl)

Reach-Linked_example :
    Linked second.stack.next second.stack.head (2 ∷ 1 ∷ [])
    × Held second.place Place.shared (2 ∷ 1 ∷ [])
    × ((j : ℕ)
        → Linked second.stack.next (second.stacks j) (second.taken j)
          × Held second.place (Place.local j) (second.taken j)
          × ((pop second.stack.next (second.stacks j)).2 ≡ first_of (second.taken j)))
    × ((i : ℕ) → second.place i ≡ Place.outside → second.stack.next i ≡ none)
Reach-Linked_example = Reach-Linked second Reach-second
