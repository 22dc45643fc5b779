-- ===== src/Bitfield/Spec.antt =====
-- Packers of `n` bits from bit `s` on.
use Prim.Native.Nat.{bit_or}
use wasm_kernel.Base.{
  ℕ, zero, suc, ◌+◌, ◌-◌, ◌*◌, ◌/◌, ◌%◌, ◌≤◌, ◌<◌, ◌==◌, ◌≡◌, refl, ap, ◌∙◌, Bool, false, lt→ltb,
  returned, arith,
}
use wasm_kernel.Memory.Math.{pow2-add, pow2, pow2_pos, pow2-le, bit_length}
use wasm_kernel.Bitfield.Word.{shl, shr, leading_zeros}
use wasm_kernel.Bitfield.Digits.{bit_or-fields, zero-bit_or}
use wasm_kernel.Bitfield.Pack.{Pack, mk_mask, bits, max_value, shift_next}

pub record Spans (size n s : ℕ) (p : Pack) : Type 0 where
  pub mask : p.mask ≡ (pow2 n - 1) * pow2 s
  pub shift : p.shift ≡ s
  pub some_bits : 0 < n
  pub fits : s + n ≤ size

pub field-lt : (x a s l : ℕ) → x < pow2 a → l < pow2 s → x * pow2 s + l < pow2 (a + s)
field-lt x a s l h k = rw (pow2-add a s) (grind arith)

pub field-div : (x p l : ℕ) → l < p → (x * p + l) / p ≡ x
field-div x p l h = grind arith

pub field-mod : (x p l : ℕ) → l < p → (x * p + l) % p ≡ l
field-mod x p l h = grind arith

pub mk_mask-ones : (debug : Bool) (size n : ℕ) → n ≤ size → mk_mask debug size n ≡ pow2 n - 1
unfolding mk_mask pow2
mk_mask-ones debug size zero h = refl
mk_mask-ones debug size (suc n) h =
    let e : n % size ≡ n = grind arith in
    let p = pow2_pos n in
    let a : 1 * pow2 n + 0 ≡ pow2 n = omega arith in
    let b : 0 * pow2 n + (pow2 n - 1) ≡ pow2 n - 1 = omega arith in
    let f = bit_or-fields n 1 0 0 (pow2 n - 1) p (omega arith) in
    let g : bit_or (pow2 n) (pow2 n - 1) ≡ 1 * pow2 n + (pow2 n - 1) =
      rw (a, b, zero-bit_or (pow2 n - 1)) at f in
    let c : suc n - 1 ≡ n = omega arith in
    let d : (suc n == 0) ≡ false = ground arith in rw (c, e, g, d) (omega arith)

pub bit_length-ones : (w n : ℕ) → n ≤ w → bit_length w (pow2 n - 1) ≡ n
unfolding bit_length pow2
bit_length-ones zero n h = ground arith
bit_length-ones (suc w) zero h = refl
bit_length-ones (suc w) (suc n) h =
    let p = pow2_pos n in
    let e : (2 * pow2 n - 1) / 2 ≡ pow2 n - 1 = omega arith in
    rw e (ground (arith, bit_length-ones w n))

nonzero : (n p : ℕ) → 0 < n → 0 < p → 0 < (pow2 n - 1) * (2 * p)
unfolding pow2
nonzero zero p o h = absurd (omega arith)
nonzero (suc n) p o h = let q = pow2_pos n in grind arith

pub bit_length-field :
    (w n s : ℕ) → 0 < n → s + n ≤ w → bit_length w ((pow2 n - 1) * pow2 s) ≡ s + n
unfolding bit_length pow2
bit_length-field w n zero o h =
    ap (bit_length w) (omega arith) ∙ bit_length-ones w n (omega arith) ∙ (omega arith)
bit_length-field zero n (suc s) o h = absurd (omega arith)
bit_length-field (suc w) n (suc s) o h =
    let p = pow2_pos s in
    let e : (pow2 n - 1) * (2 * pow2 s) / 2 ≡ (pow2 n - 1) * pow2 s = omega arith in
    let d : ((pow2 n - 1) * (2 * pow2 s) == 0) ≡ false = ground (arith, nonzero n (pow2 s) o p) in
    rw (e, d) (omega (arith, bit_length-field w n s o (omega arith)))

one-lt : 1 < pow2 1
unfolding pow2
one-lt = omega arith

module _ (debug : Bool) (size : ℕ) where
  pub shl-fits :
      (n a k : ℕ)
      → a < pow2 n
      → k < size
      → k + n ≤ size
      → shl debug size a k ≡ returned (a * pow2 k)
  unfolding shl
  shl-fits n a k h l f =
      let small = field-lt a n k 0 h (pow2_pos k) in
      let wide = pow2-le (n + k) size (omega arith) in
      let e : a * pow2 k % pow2 size ≡ a * pow2 k = grind arith in rw (lt→ltb k size l, e) refl

  pub shr-fits :
      (x k l : ℕ) → k < size → l < pow2 k → shr debug size (x * pow2 k + l) k ≡ returned x
  unfolding shr
  shr-fits x k l h f = rw (lt→ltb k size h, field-div x (pow2 k) l f) refl

  module _ (n s : ℕ) (p : Pack) (c : Spans size n s p) where
    spans_lt : s < size
    spans_lt = omega (arith, c.fits, c.some_bits)

    pub ones-lt : pow2 n - 1 < pow2 n
    ones-lt = omega (arith, pow2_pos n)

    pub bits-Spans : bits debug size p ≡ returned n
    unfolding bits leading_zeros
    bits-Spans =
        let e : (pow2 n - 1) * pow2 s ≡ (pow2 n - 1) * pow2 s + 0 = omega arith in
        let f = shr-fits (pow2 n - 1) s 0 spans_lt (pow2_pos s) in
        rw (c.mask, c.shift, e, f, bit_length-ones size n (omega (arith, c.fits)))
          (ap (λ (k : ℕ). returned k) (omega (arith, c.fits)))

    pub shift_next-Spans : shift_next debug size p ≡ s + n
    unfolding shift_next leading_zeros
    shift_next-Spans =
        rw (c.mask, bit_length-field size n s c.some_bits c.fits) (omega (arith, c.fits))

    pub max_value-Spans : n < size → max_value debug size p ≡ returned (pow2 n - 1)
    unfolding max_value
    max_value-Spans h =
        let e : 1 * pow2 n ≡ pow2 n = omega arith in
        rw (bits-Spans, shl-fits 1 1 n one-lt h (omega arith), e) refl
