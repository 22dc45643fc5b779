-- ===== src/Stack/Threads.antt =====
-- Threads that push to a stack, take all of it, and pop from what they have taken.
use mathlib.Core.Option.{Option, none, some}
use wasm_kernel.Base.{ℕ, ◌≡◌, ◌==◌, update, if◌then◌else◌, List, [], ◌∷◌}
use wasm_kernel.Stack.Node.{Link, TransferStack, set_link, exchange, take_all, push, pop}

-- Who has a node: a caller, a call of `push`, the stack, or a stack that was taken from it.
pub data Place : Type 0 where
  outside : Place
  pushing : Place
  shared : Place
  local : ℕ → Place

-- `expected i` is the head that a call of `push` with node `i` has read last, and `stacks j` the head
-- of a stack that was taken. `contents` and `taken j` are the stacks as lists, the last one pushed
-- first, and `place` says who has a node.
pub record World : Type 0 where
  pub stack : TransferStack
  pub expected : ℕ → Link
  pub stacks : ℕ → Link
  pub contents : List ℕ
  pub taken : ℕ → List ℕ
  pub place : ℕ → Place

abbrev pub rest_of : List ℕ → List ℕ
rest_of [] = []
rest_of (x ∷ l) = l

abbrev pub first_of : List ℕ → Option ℕ
first_of [] = none
first_of (x ∷ l) = some x

-- After a pop from stack `j`.
abbrev pub popped : World → ℕ → (ℕ → Link) × Link × Option ℕ → World
popped w j (next, head, none) = w
popped w j (next, head, some i) = record w {
  stack = record w.stack { next = next };
  stacks = update w.stacks j head;
  taken = λ k. if j == k then rest_of (w.taken k) else w.taken k;
  place = update w.place i outside;
}

-- The stack's nodes go to stack `j`.
abbrev pub moved : ℕ → Place → Place
moved j shared = local j
moved j outside = outside
moved j pushing = pushing
moved j (local k) = local k

abbrev pub loaded : World → ℕ → World
loaded w i = record w {
  stack = set_link i w.stack.head w.stack;
  expected = update w.expected i w.stack.head;
  place = update w.place i pushing;
}

-- `push` reads the head first, and again where its exchange fails, for a reason or not.
pub data Step (w w' : World) : Type 0 where
  load : (i : ℕ) → w.place i ≡ outside → w' ≡ loaded w i → Step w w'
  fail : (i : ℕ) → w.place i ≡ pushing → w' ≡ loaded w i → Step w w'
  exchanged :
      (i : ℕ) (s : TransferStack)
      → w.place i ≡ pushing
      → exchange i (w.expected i) w.stack ≡ some s
      → w' ≡ record w { stack = s; contents = i ∷ w.contents; place = update w.place i shared }
      → Step w w'
  take :
      (j : ℕ)
      → w.taken j ≡ []
      → w' ≡ record w {
        stack = (take_all w.stack).0;
        stacks = update w.stacks j (take_all w.stack).1;
        contents = [];
        taken = λ k. if j == k then w.contents else w.taken k;
        place = λ i. moved j (w.place i);
      }
      → Step w w'
  pop_local : (j : ℕ) → w' ≡ popped w j (pop w.stack.next (w.stacks j)) → Step w w'
  push_local :
      (i j : ℕ)
      → w.place i ≡ outside
      → w' ≡ record w {
        stack = record w.stack { next = (push i w.stack.next (w.stacks j)).0 };
        stacks = update w.stacks j (push i w.stack.next (w.stacks j)).1;
        taken = λ k. if j == k then i ∷ w.taken k else w.taken k;
        place = update w.place i (local j);
      }
      → Step w w'

abbrev pub new : World
new = record {
  stack = record { next = λ i. none; head = none };
  expected = λ i. none;
  stacks = λ j. none;
  contents = [];
  taken = λ j. [];
  place = λ i. outside;
}

pub data Reach : World → Type 0 where
  here : Reach new
  next : {w w' : World} → Reach w → Step w w' → Reach w'
