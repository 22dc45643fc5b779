-- ===== src/Bitfield/Moving.antt =====
-- Moving a range of bits from one word to another.
use wasm_kernel.Base.{ℕ, ◌+◌, ◌*◌, ◌/◌, ◌%◌, ◌<◌, ◌≡◌, sym, ap, ◌∙◌, Bool, Outcome, returned, ◌>>=◌}
use Prim.Native.Nat.{bit_and, bit_or}
use native.Mathlib.Nat.{mod-lt}
use wasm_kernel.Memory.Math.{pow2, pow2_pos}
use wasm_kernel.Bitfield.Word.{complement}
use wasm_kernel.Bitfield.Pack.{Pack, unpack_bits}
use wasm_kernel.Bitfield.Spec.{Spans}
use wasm_kernel.Bitfield.Packed.{
  packed, insert_eq, range_eq, packed-lt, packed_above, packed_below, unpack-eq, unpack_bits-eq,
}
use wasm_kernel.Bitfield.Pair.{
  pair_with, shift_dst, shift_src, pack_from_src, pack_from_dst, moved, pair_with-ends,
}

-- The word `to` with the range of `q` replaced by what `p` unpacks from the word `from`.
abbrev pub Moves : Bool → ℕ → ℕ → ℕ → Pack → Pack → ℕ → ℕ → ℕ → Type 0
Moves debug size n t p q from to r =
    (unpack_bits debug size q r ≡ unpack_bits debug size p from)
    × (r < pow2 size)
    × (r / pow2 (t + n) ≡ to / pow2 (t + n))
    × (r % pow2 t ≡ to % pow2 t)

mid-lt : (n a b : ℕ) → a / pow2 b % pow2 n < pow2 n
mid-lt n a b = mod-lt _ (pow2_pos n)

module _ (debug : Bool) (size n s t : ℕ) (p q : Pack) (c : Spans size n s p) (d : Spans size n t q)
    (narrow : n < size) (from to : ℕ) (f : from < pow2 size) (g : to < pow2 size) where
  abbrev result : ℕ
  result = packed debug size n t q d narrow (from / pow2 s % pow2 n) to (mid-lt n from s) g

  result-Moves : Moves debug size n t p q from to result
  result-Moves =
      let v = from / pow2 s % pow2 n in
      let h = mid-lt n from s in
      (
        unpack-eq debug size n t q d narrow v to h g
            ∙ sym (unpack_bits-eq debug size n s p c narrow from f),
        packed-lt debug size n t q d narrow v to h g,
        packed_above debug size n t q d narrow v to h g,
        packed_below debug size n t q d narrow v to h g,
      )

  -- What is read, shifted, and put into the other word.
  shifted :
      (shift : ℕ → Outcome ℕ)
      → shift (from / pow2 s % pow2 n * pow2 s) ≡ returned (from / pow2 s % pow2 n * pow2 t)
      → (shift (bit_and from p.mask) >>= λ bits.
          returned (bit_or (bit_and to (complement size q.mask)) bits))
        ≡ returned result
  shifted shift e =
      let a =
        range_eq debug size n s p c narrow (from / pow2 s % pow2 n) from (mid-lt n from s) f in
      let b = insert_eq debug size n t q d narrow (from / pow2 s % pow2 n) to (mid-lt n from s) g in
      rw (a, e) (ap (λ (r : ℕ). returned r) b)

-- A pair of packers moves a range of bits in both directions and both builds: where both span `n`
-- bits, less than the width, `pack_from_dst` replaces the second one's range in `dst` by what the
-- first unpacks from `src`, and `pack_from_src` the first one's range in `src` by what the second
-- unpacks from `dst`. Neither panics, and the bits above and below the range stay. (The comments on
-- both methods in pack.rs name the directions the other way round.)
pub pair_with-Moves :
    (debug : Bool) (size n s t : ℕ) (p q : Pack)
    → Spans size n s p
    → Spans size n t q
    → n < size
    → (src dst : ℕ) → src < pow2 size
    → dst < pow2 size
    → ((r : ℕ) × (pack_from_dst debug size (pair_with p q) src dst ≡ returned r)
        × Moves debug size n t p q src dst r)
      × ((r : ℕ) × (pack_from_src debug size (pair_with p q) src dst ≡ returned r)
          × Moves debug size n s q p dst src r)
unfolding pack_from_dst pack_from_src
pair_with-Moves debug size n s t p q c d narrow src dst f g =
    let (a, b) = pair_with-ends p q in
    let x =
      (moved debug size n c.some_bits (src / pow2 s % pow2 n) (mid-lt n src s) s t p q c d).0 in
    let y =
      (moved debug size n c.some_bits (dst / pow2 t % pow2 n) (mid-lt n dst t) s t p q c d).1 in
    (
      (
        result debug size n s t p q c d narrow src dst f g,
        rw (a, b)
            (shifted debug size n s t p q c d narrow src dst f g
              (shift_dst debug size (pair_with p q)) x),
        result-Moves debug size n s t p q c d narrow src dst f g,
      ),
      (
        result debug size n t s q p d c narrow dst src g f,
        rw (a, b)
            (shifted debug size n t s q p d c narrow dst src g f
              (shift_src debug size (pair_with p q)) y),
        result-Moves debug size n t s q p d c narrow dst src g f,
      ),
    )
