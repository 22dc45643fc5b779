-- ===== src/Task/Word.antt =====
-- `State` of maitake/src/task/state.rs: the flags of a task, and the word they are packed into.
use wasm_kernel.Base.{
  ℕ, ◌+◌, ◌*◌, ◌/◌, ◌%◌, ◌^◌, ◌-◌, ◌≤◌, ◌<◌, ◌≡◌, refl, Bool, true, false, bit, ◌==◌, if◌then◌else◌,
  arith,
}

pub data JoinWakerState : Type 0 where
  empty : JoinWakerState
  registering : JoinWakerState
  waiting : JoinWakerState
  woken : JoinWakerState

pub record State : Type 0 where
  pub polling : Bool
  pub woken : Bool
  pub completed : Bool
  pub canceled : Bool
  pub has_join_handle : Bool
  pub join_waker : JoinWakerState
  pub has_output : Bool
  pub refs : ℕ

abbrev pub into_bits : JoinWakerState → ℕ
into_bits empty = 0
into_bits registering = 1
into_bits waiting = 2
into_bits woken = 3

-- The last case is `Woken`: two bits have no other value.
abbrev pub try_from_bits : ℕ → JoinWakerState
try_from_bits b =
    if b == 1 then registering else if b == 2 then waiting else if b == 0 then empty else woken

abbrev pub ref_one : ℕ
ref_one = 256

-- The mask of the count, `State::REFS.raw_mask()`.
abbrev pub ref_max : ℕ
ref_max = 2 ^ 64 - 256

abbrev pub word_mod : ℕ
word_mod = 2 ^ 64

abbrev pub ref_mod : ℕ
ref_mod = 2 ^ 56

unfoldable pub to_word : State → ℕ
to_word s =
    bit s.polling
    + 2 * bit s.woken
    + 4 * bit s.completed
    + 8 * bit s.canceled
    + 16 * bit s.has_join_handle
    + 32 * into_bits s.join_waker
    + 128 * bit s.has_output
    + ref_one * s.refs

unfoldable pub from_word : ℕ → State
from_word w = record {
  polling = w % 2 == 1;
  woken = w / 2 % 2 == 1;
  completed = w / 4 % 2 == 1;
  canceled = w / 8 % 2 == 1;
  has_join_handle = w / 16 % 2 == 1;
  join_waker = try_from_bits (w / 32 % 4);
  has_output = w / 128 % 2 == 1;
  refs = w / 256;
}

pub bit-le : (b : Bool) → bit b ≤ 1
bit-le b = ground arith

pub into_bits-lt : (j : JoinWakerState) → into_bits j < 4
into_bits-lt j = ground arith

flag-bit : (b : Bool) → (bit b == 1) ≡ b
flag-bit true = refl
flag-bit false = refl

bit-flag : (x : ℕ) → bit (x % 2 == 1) ≡ x % 2
bit-flag x = ground arith

try_from_bits-into_bits : (j : JoinWakerState) → try_from_bits (into_bits j) ≡ j
try_from_bits-into_bits empty = refl
try_from_bits-into_bits registering = refl
try_from_bits-into_bits waiting = refl
try_from_bits-into_bits woken = refl

into_bits-try_from_bits : (x : ℕ) → into_bits (try_from_bits (x % 4)) ≡ x % 4
into_bits-try_from_bits x = ground arith

-- Each flag is read back from its own place of a sum of fields.
module _ (a b c d e j o r : ℕ) (ha : a ≤ 1) (hb : b ≤ 1) (hc : c ≤ 1) (hd : d ≤ 1) (he : e ≤ 1)
    (hj : j < 4) (ho : o ≤ 1) where
  abbrev packed : ℕ
  packed = a + 2 * b + 4 * c + 8 * d + 16 * e + 32 * j + 128 * o + 256 * r

  packed_low : (packed % 2 ≡ a) × (packed / 2 % 2 ≡ b) × (packed / 4 % 2 ≡ c) × (packed / 8 % 2 ≡ d)
  packed_low = (omega arith, omega arith, omega arith, omega arith)

  packed_high :
      (packed / 16 % 2 ≡ e) × (packed / 32 % 4 ≡ j) × (packed / 128 % 2 ≡ o) × (packed / 256 ≡ r)
  packed_high = (omega arith, omega arith, omega arith, omega arith)

-- Unpacking a packed state gives every field back.
pub from_word-to_word : (s : State) → from_word (to_word s) ≡ s
unfolding from_word to_word
from_word-to_word s =
    let low =
      packed_low (bit s.polling) (bit s.woken) (bit s.completed) (bit s.canceled)
        (bit s.has_join_handle) (into_bits s.join_waker) (bit s.has_output) s.refs (bit-le _)
        (bit-le _) (bit-le _) (bit-le _) (bit-le _) (into_bits-lt _) (bit-le _) in
    let high =
      packed_high (bit s.polling) (bit s.woken) (bit s.completed) (bit s.canceled)
        (bit s.has_join_handle) (into_bits s.join_waker) (bit s.has_output) s.refs (bit-le _)
        (bit-le _) (bit-le _) (bit-le _) (bit-le _) (into_bits-lt _) (bit-le _) in
    rw (low.0, low.1, low.2, low.3, high.0, high.1, high.2, high.3)
      (rw (
        flag-bit s.polling,
        flag-bit s.woken,
        flag-bit s.completed,
        flag-bit s.canceled,
        flag-bit s.has_join_handle,
        flag-bit s.has_output,
        try_from_bits-into_bits s.join_waker,
      ))

-- Packing an unpacked word gives the word back.
pub to_word-from_word : (w : ℕ) → to_word (from_word w) ≡ w
unfolding from_word to_word
to_word-from_word w = omega (
  arith,
  bit-flag w,
  bit-flag (w / 2),
  bit-flag (w / 4),
  bit-flag (w / 8),
  bit-flag (w / 16),
  bit-flag (w / 128),
  into_bits-try_from_bits (w / 32),
)
