-- ===== src/LinkedList/Splits.antt =====
-- `append`, the iterator, and `split_off`.
use mathlib.Core.Option.{Option, none, some}
use wasm_kernel.Base.{
  ℕ, zero, suc, ◌-◌, ◌==◌, Bool, true, not, ltb, leb, if◌then◌else◌, Outcome, ◌>>=◌, ◌>>◌, returned,
  panicked, debug_assert,
}
use wasm_kernel.LinkedList.Store.{
  Link, Store, LinkedList, new, set_next, set_prev, is_none, same, grow,
}
use wasm_kernel.LinkedList.Ops.{is_empty}

-- The list's first and last node and its length, where it has nodes; the list is left empty.
unfoldable pub take_all : Bool → LinkedList → Outcome (LinkedList × Option (ℕ × ℕ × ℕ))
take_all debug l = elim l.head [
  | none ↦ returned (l, none)
  | some head ↦ debug_assert debug (not (is_none l.tail)) >> elim l.tail [
    | none ↦ returned (record l { head = none }, none)
    | some tail ↦ debug_assert debug (not (l.len == 0)) >> returned (new, some (head, tail, l.len))
  ]
]

append_at : Bool → ℕ → Store → LinkedList → LinkedList → Outcome (Store × LinkedList × LinkedList)
append_at debug tail s l other = do
  (other', taken) ← take_all debug other
  elim taken [
    | none ↦ returned (s, l, other')
    | some (head, last, len) ↦ do
      n ← grow debug l.len len
      returned (
        set_prev head (some tail) (set_next tail (some head) s),
        record l { tail = some last; len = n },
        other',
      )
  ]

unfoldable pub append :
    Bool → Store → LinkedList → LinkedList → Outcome (Store × LinkedList × LinkedList)
unfolding is_empty take_all append_at
append debug s l other = elim l.tail [
  | none ↦ do
    empty ← (if debug then is_empty debug l else returned true)
    debug_assert debug empty
    returned (s, other, l)
  | some tail ↦ append_at debug tail s l other
]

pub record Iter : Type 0 where
  pub curr : Link
  pub curr_back : Link
  pub len : ℕ

abbrev pub iter : LinkedList → Iter
iter l = record { curr = l.head; curr_back = l.tail; len = l.len }

-- `Iter::next` and `Iter::next_back`: the iterator after the call, and the node.
unfoldable pub next : Store → Iter → Iter × Link
next s it = if it.len == 0 then (it, none) else elim it.curr [
  | none ↦ (it, none)
  | some a ↦ (record it { curr = (s a).next; len = it.len - 1 }, some a)
]

unfoldable pub next_back : Store → Iter → Iter × Link
next_back s it = if it.len == 0 then (it, none) else elim it.curr_back [
  | none ↦ (it, none)
  | some a ↦ (record it { curr_back = (s a).prev; len = it.len - 1 }, some a)
]

-- `for _ in 0..n { iter.next(); }`
unfoldable pub advance : ℕ → Store → Iter → Iter
advance zero s it = it
advance (suc n) s it = advance n s (next s it).0

unfoldable pub advance_back : ℕ → Store → Iter → Iter
advance_back zero s it = it
advance_back (suc n) s it = advance_back n s (next_back s it).0

-- The list that is left, and the new list.
abbrev pub Split : Type 0
Split = Store × LinkedList × LinkedList

-- `split_after_node` once the node's `next` is taken: `head` is what it was.
unfoldable pub split_after : Bool → ℕ → ℕ → Link → Store → LinkedList → Outcome Split
split_after debug node idx none s l =
    returned (s, record l { len = idx }, record { head = none; tail = none; len = l.len - idx })
split_after debug node idx (some head) s l =
    debug_assert debug (same (s head).prev (some node))
    >> returned (
      set_prev head none s,
      record l { tail = some node; len = idx },
      record { head = some head; tail = l.tail; len = l.len - idx },
    )

unfoldable pub split_after_node : Bool → Link → ℕ → Store → LinkedList → Outcome Split
split_after_node debug node idx s l = elim node [
  | none ↦ returned (s, new, l)
  | some a ↦ split_after debug a idx (s a).next (set_next a none s) l
]

-- The node before the place where the list is split, from the nearer end.
unfoldable pub split_node : ℕ → Store → LinkedList → Link
split_node split_idx s l =
    let dist_from_tail = l.len - 1 - split_idx in
    if leb split_idx dist_from_tail
    then (advance split_idx s (iter l)).curr
    else (advance_back dist_from_tail s (iter l)).curr_back

unfoldable pub try_split_off :
    Bool → ℕ → Store → LinkedList → Outcome (Store × LinkedList × Option LinkedList)
try_split_off debug at s l =
    if at == 0
    then returned (s, new, some l)
    else if at == l.len
    then returned (s, l, some new)
    else if ltb l.len at
    then returned (s, l, none)
    else do
      (s', left, right) ← split_after_node debug (split_node (at - 1) s l) at s l
      returned (s', left, some right)

-- `split_off` panics where `try_split_off` has no list.
unfoldable pub split_off : Bool → ℕ → Store → LinkedList → Outcome Split
split_off debug at s l = do
  (s', left, right) ← try_split_off debug at s l
  elim right [ none ↦ panicked | some r ↦ returned (s', left, r) ]
