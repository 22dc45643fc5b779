-- ===== src/Task/Count.antt =====
-- The reference count in the word: the `fetch_add` and `fetch_sub` of `StateCell` in
-- maitake/src/task/state.rs, on the packed word.
use wasm_kernel.Base.{
  ℕ, ◌+◌, ◌-◌, ◌*◌, ◌%◌, ◌/◌, true, ◌≤◌, ◌<◌, ◌≡◌, ◌↔◌, refl, bit, returned, panicked, arith,
}
use wasm_kernel.Task.Word.{
  State, bit-le, into_bits-lt, into_bits, to_word, ref_one, ref_max, ref_mod, word_mod,
}
use wasm_kernel.Task.Step.{fetch_clone_ref, fetch_drop_ref}

-- The flags' share of a word.
flags : State → ℕ
flags s =
    bit s.polling
    + 2 * bit s.woken
    + 4 * bit s.completed
    + 8 * bit s.canceled
    + 16 * bit s.has_join_handle
    + 32 * into_bits s.join_waker
    + 128 * bit s.has_output

to_word-flags : (s : State) → to_word s ≡ flags s + 256 * s.refs
unfolding to_word flags
to_word-flags s = omega arith

flags-lt : (s : State) → flags s < 256
unfolding flags
flags-lt s = omega (
  arith,
  bit-le s.polling,
  bit-le s.woken,
  bit-le s.completed,
  bit-le s.canceled,
  bit-le s.has_join_handle,
  bit-le s.has_output,
  into_bits-lt s.join_waker,
)

flags-refs : (s : State) (n : ℕ) → flags (record s { refs = n }) ≡ flags s
unfolding flags
flags-refs s n = refl

-- On a word of 64 bits, dropping a reference is the wrapping subtraction of `REF_ONE`, and it says
-- that it was the last one exactly if the count was at most one. (The count is below its modulus,
-- `2 ^ 56`.)
pub fetch_drop_ref-word :
    (s : State)
    → s.refs < ref_mod
    → (to_word (fetch_drop_ref s).0 ≡ (to_word s + word_mod - ref_one) % word_mod)
      × (((fetch_drop_ref s).1 ≡ true) ↔ (to_word s / ref_one ≤ 1))
unfolding fetch_drop_ref
fetch_drop_ref-word s h =
    let n = (s.refs + ref_mod - 1) % ref_mod in
    (
      omega (
        arith,
        to_word-flags s,
        to_word-flags (record s { refs = n }),
        flags-refs s n,
        flags-lt s,
      ),
      ground (arith, to_word-flags s, flags-lt s),
    )

-- Where the count is at its last value, taking a reference panics exactly if a flag is set;
-- exactly if no flag is set, the count goes to 0 unnoticed.
pub fetch_clone_ref_overflow :
    (s : State)
    → s.refs ≡ ref_mod - 1
    → ((fetch_clone_ref s ≡ panicked) ↔ (0 < to_word s % 256))
      × ((to_word s % 256 ≡ 0) ↔ (fetch_clone_ref s ≡ returned (record s { refs = 0 })))
unfolding fetch_clone_ref
fetch_clone_ref_overflow s h = ground (arith, to_word-flags s, flags-lt s)

-- A count below its last value passes the check of `clone_ref`.
pub to_word-le : (s : State) → s.refs + 1 < ref_mod → to_word s ≤ ref_max
to_word-le s h = omega (arith, to_word-flags s, flags-lt s)
