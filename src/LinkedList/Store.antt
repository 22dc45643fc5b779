-- ===== src/LinkedList/Store.antt =====
-- The links of all nodes, and a list's own fields. A node is a number, its address.
use mathlib.Core.Option.{Option, none, some}
use wasm_kernel.Base.{
  ℕ, ◌+◌, ◌-◌, ◌%◌, ◌^◌, Bool, true, false, ltb, ◌==◌, if◌then◌else◌, update, Outcome, returned,
  panicked,
}

abbrev pub Link : Type 0
Link = Option ℕ

pub record Links : Type 0 where
  pub next : Link
  pub prev : Link

abbrev pub unlinked : Links
unlinked = record { next = none; prev = none }

abbrev pub Store : Type 0
Store = ℕ → Links

pub record LinkedList : Type 0 where
  pub head : Link
  pub tail : Link
  pub len : ℕ

abbrev pub new : LinkedList
new = record { head = none; tail = none; len = 0 }

abbrev pub set_next : ℕ → Link → Store → Store
set_next a link s = update s a (record (s a) { next = link })

abbrev pub set_prev : ℕ → Link → Store → Store
set_prev a link s = update s a (record (s a) { prev = link })

abbrev pub unlink : ℕ → Store → Store
unlink a s = update s a unlinked

-- `if let Some(node) = link { .. }`
abbrev pub next_of : Link → Link → Store → Store
next_of none link s = s
next_of (some a) link s = set_next a link s

abbrev pub prev_of : Link → Link → Store → Store
prev_of none link s = s
prev_of (some a) link s = set_prev a link s

abbrev pub is_none : Link → Bool
is_none none = true
is_none (some a) = false

-- `==` on links
abbrev pub same : Link → Link → Bool
same none link = is_none link
same (some a) none = false
same (some a) (some b) = a == b

abbrev pub is_linked : Links → Bool
is_linked links = if is_none links.next then (if is_none links.prev then false else true) else true

abbrev pub or : Link → Link → Link
or none link = link
or (some a) link = some a

abbrev pub usize_mod : ℕ
usize_mod = 2 ^ 64

-- `len += n` and `len -= 1`, checked in a build with overflow checks.
unfoldable pub grow : Bool → ℕ → ℕ → Outcome ℕ
grow debug len n =
    if ltb (len + n) usize_mod
    then returned (len + n)
    else if debug
    then panicked
    else returned ((len + n) % usize_mod)

unfoldable pub shrink : Bool → ℕ → Outcome ℕ
shrink debug len =
    if len == 0 then (if debug then panicked else returned (usize_mod - 1)) else returned (len - 1)
