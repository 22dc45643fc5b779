-- ===== src/Bitfield/Full.antt =====
-- A packer that spans the whole word.
use Prim.Native.Nat.{bit_and}
use wasm_kernel.Base.{
  ℕ, ◌-◌, ◌*◌, ◌%◌, ◌<◌, ◌≡◌, refl, ap, ◌∙◌, Bool, true, false, ltb, leb, lt→ltb, Outcome, returned,
  panicked, ◌>>=◌, arith,
}
use native.Mathlib.Nat.{mod_self, mod-eq_of_lt}
use wasm_kernel.Memory.Math.{pow2, pow2_pos, pow2-lt}
use wasm_kernel.Bitfield.Word.{shl, complement}
use wasm_kernel.Bitfield.Digits.{bit_and-zero}
use wasm_kernel.Bitfield.Pack.{Pack, max_value, pack_truncating, pack}
use wasm_kernel.Bitfield.Spec.{Spans, bits-Spans}

module _ (size : ℕ) (p : Pack) (c : Spans size size 0 p) where
  not_below : ltb size size ≡ false
  not_below = ground arith

  shl-full : (shl true size 1 size ≡ panicked) × (shl false size 1 size ≡ returned 1)
  unfolding shl pow2
  shl-full =
      let f : 1 % pow2 size ≡ 1 = mod-eq_of_lt (omega (arith, pow2-lt 0 size c.some_bits)) in
      (rw not_below refl, rw (not_below, mod_self size, f) refl)

  max_value-full :
      (debug : Bool) (m : Outcome ℕ)
      → shl debug size 1 size ≡ m
      → max_value debug size p ≡ (m >>= λ top. returned (top - 1))
  unfolding max_value
  max_value-full debug m e =
      ap (λ (m : Outcome ℕ). m >>= λ n. (shl debug size 1 n >>= λ top. returned (top - 1)))
        (bits-Spans debug size size 0 p c)
      ∙ ap (λ (m : Outcome ℕ). m >>= λ top. returned (top - 1)) e

  most_debug : max_value true size p ≡ panicked
  most_debug = max_value-full true panicked shl-full.0

  most_release : max_value false size p ≡ returned 0
  most_release = max_value-full false (returned 1) shl-full.1

  truncating_debug : (v base : ℕ) → pack_truncating true size p v base ≡ panicked
  unfolding pack_truncating
  truncating_debug v base = rw most_debug refl

  pack_debug : (v base : ℕ) → pack true size p v base ≡ panicked
  unfolding pack
  pack_debug v base = rw most_debug refl

  pack_release : (v base : ℕ) → 0 < v → pack false size p v base ≡ panicked
  unfolding pack
  pack_release v base h = let e : leb v 0 ≡ false = ground arith in rw (most_release, e) refl

  rest_zero : (base : ℕ) → base < pow2 size → bit_and base (complement size p.mask) ≡ 0
  unfolding complement pow2
  rest_zero base h =
      let e : pow2 size - 1 - (pow2 size - 1) * 1 ≡ 0 = omega arith in
      rw (c.mask, e) (bit_and-zero size base h)

  truncating_release :
      (v base : ℕ)
      → v < pow2 size
      → base < pow2 size
      → pack_truncating false size p v base ≡ returned 0
  unfolding pack_truncating shl
  truncating_release v base g h =
      let z : ltb 0 size ≡ true = lt→ltb 0 size c.some_bits in
      let f : 0 * pow2 0 % pow2 size ≡ 0 = mod-eq_of_lt (pow2_pos size) in
      rw (most_release, bit_and-zero size v g, c.shift, z, f, rest_zero base h) refl

  -- A packer that spans a whole word packs nothing but 0. With overflow checks each call panics, of
  -- `pack` and of `pack_truncating`; without them, `pack` panics on every value but 0, and
  -- `pack_truncating` drops any value and gives 0.
  full_width :
      (v base : ℕ)
      → v < pow2 size
      → base < pow2 size
      → (pack true size p v base ≡ panicked)
        × (pack_truncating true size p v base ≡ panicked)
        × (0 < v → pack false size p v base ≡ panicked)
        × (pack_truncating false size p v base ≡ returned 0)
  full_width v base g h = (
    pack_debug v base,
    truncating_debug v base,
    pack_release v base,
    truncating_release v base g h,
  )
