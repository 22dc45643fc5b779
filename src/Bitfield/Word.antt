-- ===== src/Bitfield/Word.antt =====
-- The operations of an unsigned integer of `size` bits that the packers call.
use wasm_kernel.Base.{
  ℕ, ◌+◌, ◌-◌, ◌*◌, ◌/◌, ◌%◌, ◌^◌, ltb, Bool, if◌then◌else◌, Outcome, returned, panicked,
}
use wasm_kernel.Memory.Math.{pow2, bit_length}

-- A shift by the width or more panics with overflow checks; without them the count wraps.
unfoldable pub shl : Bool → ℕ → ℕ → ℕ → Outcome ℕ
unfolding pow2
shl debug size a k =
    if ltb k size
    then returned (a * pow2 k % pow2 size)
    else if debug
    then panicked
    else returned (a * pow2 (k % size) % pow2 size)

unfoldable pub shr : Bool → ℕ → ℕ → ℕ → Outcome ℕ
unfolding pow2
shr debug size a k =
    if ltb k size
    then returned (a / pow2 k)
    else if debug
    then panicked
    else returned (a / pow2 (k % size))

-- `!a`
unfoldable pub complement : ℕ → ℕ → ℕ
unfolding pow2
complement size a = pow2 size - 1 - a

unfoldable pub leading_zeros : ℕ → ℕ → ℕ
unfolding bit_length
leading_zeros size a = size - bit_length size a

-- `+` and `-` of `u32`
unfoldable pub add : Bool → ℕ → ℕ → Outcome ℕ
add debug a b =
    if ltb (a + b) (2 ^ 32)
    then returned (a + b)
    else if debug
    then panicked
    else returned ((a + b) % 2 ^ 32)

unfoldable pub sub : Bool → ℕ → ℕ → Outcome ℕ
sub debug a b =
    if ltb a b then (if debug then panicked else returned (a + 2 ^ 32 - b)) else returned (a - b)
