-- ===== src/LinkedList/Ops.antt =====
-- The operations of a list at its ends, and `remove`. Each takes the store and the list, and returns
-- them with its result.
use mathlib.Core.Option.{none, some}
use wasm_kernel.Base.{
  ℕ, ◌==◌, Bool, true, false, not, ◌||◌, if◌then◌else◌, Outcome, ◌>>=◌, ◌>>◌, returned, assert,
  debug_assert,
}
use wasm_kernel.LinkedList.Store.{
  Link, Store, LinkedList, set_next, set_prev, unlink, next_of, prev_of, is_none, same, is_linked,
  or, grow, shrink,
}

abbrev pub Popped : Type 0
Popped = Outcome (Store × LinkedList × Link)

unfoldable pub is_empty : Bool → LinkedList → Outcome Bool
is_empty debug l =
    if is_none l.head
    then debug_assert debug (is_none l.tail) >> debug_assert debug (l.len == 0) >> returned true
    else debug_assert debug (not (l.len == 0)) >> returned false

unfoldable pub push_back : Bool → ℕ → Store → LinkedList → Outcome (Store × LinkedList)
push_back debug item s l = do
  assert (not (same l.tail (some item)))
  let s1 = set_prev item l.tail (set_next item none s)
  len ← grow debug l.len 1
  returned (
    next_of l.tail (some item) s1,
    record { head = or l.head (some item); tail = some item; len = len },
  )

unfoldable pub push_front : Bool → ℕ → Store → LinkedList → Outcome (Store × LinkedList)
push_front debug item s l = do
  assert (not (same l.head (some item)))
  let s1 = set_prev item none (set_next item l.head s)
  len ← grow debug l.len 1
  returned (
    prev_of l.head (some item) s1,
    record { head = some item; tail = or l.tail (some item); len = len },
  )

pop_back_at : Bool → ℕ → Store → LinkedList → Popped
pop_back_at debug tail s l = do
  len ← shrink debug l.len
  debug_assert debug (is_none (s tail).next)
  let prev = (s tail).prev
  returned (
    unlink tail (next_of prev none s),
    record { head = if is_none prev then none else l.head; tail = prev; len = len },
    some tail,
  )

unfoldable pub pop_back : Bool → Store → LinkedList → Popped
unfolding pop_back_at
pop_back debug s l = elim l.tail [
  | none ↦ returned (s, l, none)
  | some tail ↦ pop_back_at debug tail s l
]

pop_front_at : Bool → ℕ → Store → LinkedList → Popped
pop_front_at debug head s l = do
  len ← shrink debug l.len
  let next = (s head).next
  returned (
    unlink head (prev_of next none s),
    record { head = next; tail = if is_none next then none else l.tail; len = len },
    some head,
  )

unfoldable pub pop_front : Bool → Store → LinkedList → Popped
unfolding pop_front_at
pop_front debug s l = elim l.head [
  | none ↦ returned (s, l, none)
  | some head ↦ pop_front_at debug head s l
]

-- `remove` once the node before `item` is mended: `prev` and `next` are its old links.
remove_next : Bool → ℕ → (prev next : Link) → Store → LinkedList → Popped
remove_next debug item prev next s l =
    if is_none next
    then (if same l.tail (some item)
        then debug_assert debug (not (same (some item) prev)) >> (do
          len ← shrink debug l.len
          returned (s, record l { tail = prev; len = len }, some item))
        else returned (s, l, none))
    else do
      len ← shrink debug l.len
      returned (prev_of next prev s, record l { len = len }, some item)

remove_prev : Bool → ℕ → (prev next : Link) → Store → LinkedList → Popped
unfolding remove_next
remove_prev debug item prev next s l =
    if is_none prev
    then (if same l.head (some item)
        then debug_assert debug (not (same (some item) next))
          >> remove_next debug item prev next s (record l { head = next })
        else returned (s, l, none))
    else remove_next debug item prev next (next_of prev next s) l

unfoldable pub remove : Bool → ℕ → Store → LinkedList → Popped
unfolding is_empty remove_prev
remove debug item s l = do
  empty ← (if debug then is_empty debug l else returned true)
  debug_assert debug (not empty || not (is_linked (s item)))
  remove_prev debug item (s item).prev (s item).next (unlink item s) l
