-- ===== src/Stack/Node.antt =====
-- `TransferStack` and `Stack`, an atomic operation at a time.
use mathlib.Core.Option.{Option, none, some}
use wasm_kernel.Base.{ℕ, ◌==◌, Bool, true, false, update, if◌then◌else◌}

-- A node is its address; `none` is the null pointer.
abbrev pub Link : Type 0
Link = Option ℕ

abbrev pub same_link : Link → Link → Bool
same_link none none = true
same_link (some a) (some b) = a == b
same_link _ _ = false

-- The links of all nodes, and the head of the stack that the threads share.
pub record TransferStack : Type 0 where
  pub next : ℕ → Link
  pub head : Link

-- The link of a node that is to be pushed is set to a head that was read.
unfoldable pub set_link : ℕ → Link → TransferStack → TransferStack
set_link i head s = record s { next = update s.next i head }

-- The exchange of `push`, where it does not fail for no reason.
unfoldable pub exchange : ℕ → Link → TransferStack → Option TransferStack
exchange i expected s =
    if same_link s.head expected then some (record s { head = some i }) else none

-- `TransferStack::take_all`: a stack with its head
unfoldable pub take_all : TransferStack → TransferStack × Link
take_all s = (record s { head = none }, s.head)

-- `Stack::push` and `Stack::pop`, on the head of a stack that one thread has.
unfoldable pub push : ℕ → (ℕ → Link) → Link → (ℕ → Link) × Link
push i next head = (update next i head, some i)

unfoldable pub pop : (ℕ → Link) → Link → (ℕ → Link) × Link × Option ℕ
pop next none = (next, none, none)
pop next (some i) = (update next i none, next i, some i)
