-- ===== src/Bitfield/Packed.antt =====
-- What packing a value into a word does to it.
use Prim.Native.Nat.{bit_and, bit_or}
use wasm_kernel.Base.{
  ℕ, ◌+◌, ◌-◌, ◌*◌, ◌/◌, ◌%◌, ◌≤◌, ◌<◌, ◌≡◌, refl, sym, ap, ◌∙◌, Bool, true, false, panicked, leb,
  Outcome, returned, ◌>>=◌, ◌>>◌, assert, arith,
}
use native.Mathlib.Nat.{div-div-eq-div-mul, div-lt_iff_lt-mul, mod-lt}
use wasm_kernel.Memory.Math.{pow2-add, pow2, pow2_pos}
use wasm_kernel.Bitfield.Word.{complement}
use wasm_kernel.Bitfield.Digits.{bit_and-ones}
use wasm_kernel.Bitfield.Pack.{Pack, pack_truncating, pack, unpack_bits}
use wasm_kernel.Bitfield.Spec.{
  Spans, field-lt, field-div, field-mod, shl-fits, shr-fits, max_value-Spans,
}
use wasm_kernel.Bitfield.Parts.{parts, parts_eq, and_mask, and_rest, or_field}

module _ (debug : Bool) (size n s : ℕ) (p : Pack) (c : Spans size n s p) (narrow : n < size)
    (v base : ℕ) (value : v < pow2 n) (word : base < pow2 size) where
  abbrev pub high : ℕ
  high = base / pow2 s / pow2 n

  abbrev pub packed : ℕ
  packed = parts n s high v (base % pow2 s)

  above : ℕ
  above = size - (s + n)

  whole : above + n + s ≡ size
  unfolding above
  whole = omega (arith, c.fits)

  high_lt : high < pow2 above
  high_lt =
      let e : pow2 size ≡ pow2 above * pow2 n * pow2 s =
        ap pow2 (sym whole)
        ∙ (pow2-add (above + n) s ∙ ap (λ (t : ℕ). t * pow2 s) (pow2-add above n)) in
      let f : base < pow2 above * pow2 n * pow2 s = omega (arith, e) in
      let p = pow2_pos s in
      let q = pow2_pos n in
      let g : base / pow2 s < pow2 above * pow2 n = (div-lt_iff_lt-mul p).1 f in
      (div-lt_iff_lt-mul q).1 g

  mid_lt : base / pow2 s % pow2 n < pow2 n
  mid_lt = mod-lt _ (pow2_pos n)

  low_lt : base % pow2 s < pow2 s
  low_lt = mod-lt _ (pow2_pos s)

  shift_lt : s < size
  shift_lt = omega (arith, c.fits, c.some_bits)

  rest_eq : bit_and base (complement size p.mask) ≡ parts n s high 0 (base % pow2 s)
  rest_eq =
      ap (λ (t : ℕ). bit_and t (complement size p.mask)) (parts_eq n s base)
      ∙ (ap
            (λ (t : ℕ).
              bit_and (parts n s high (base / pow2 s % pow2 n) (base % pow2 s)) (complement size t))
            c.mask
          ∙ (ap
                (λ (t : ℕ).
                  bit_and (parts n s high (base / pow2 s % pow2 n) (base % pow2 s))
                    (complement t ((pow2 n - 1) * pow2 s)))
                (sym whole)
              ∙ and_rest above n s high (base / pow2 s % pow2 n) (base % pow2 s) high_lt mid_lt
                  low_lt))

  -- The range is cleared, and `v` set in it.
  pub insert_eq : bit_or (bit_and base (complement size p.mask)) (v * pow2 s) ≡ packed
  insert_eq =
      ap (λ (t : ℕ). bit_or t (v * pow2 s)) rest_eq
      ∙ or_field above n s high 0 (base % pow2 s) high_lt (pow2_pos n) low_lt v value

  pub range_eq : bit_and base p.mask ≡ base / pow2 s % pow2 n * pow2 s
  range_eq =
      ap (λ (t : ℕ). bit_and t p.mask) (parts_eq n s base)
      ∙ (ap (bit_and (parts n s high (base / pow2 s % pow2 n) (base % pow2 s))) c.mask
          ∙ and_mask above n s high (base / pow2 s % pow2 n) (base % pow2 s) high_lt mid_lt low_lt)

  pub pack_truncating-eq : pack_truncating debug size p v base ≡ returned packed
  unfolding pack_truncating
  pack_truncating-eq =
      let f = shl-fits debug size n v s value shift_lt c.fits in
      rw (max_value-Spans debug size n s p c narrow, bit_and-ones n v value, c.shift, f, insert_eq)
        refl

  pub unpack-eq : unpack_bits debug size p packed ≡ returned v
  unfolding unpack_bits
  unpack-eq =
      let e : v * pow2 s ≡ v * pow2 s + 0 = omega arith in
      rw
        (
          c.mask,
          c.shift,
          and_mask above n s high v (base % pow2 s) high_lt value low_lt,
          e,
          shr-fits debug size v s 0 shift_lt (pow2_pos s),
        )
        refl

  pub packed-lt : packed < pow2 size
  packed-lt =
      let f = field-lt high above n v high_lt value in
      let e = ap pow2 whole in
      omega (arith, e, field-lt (high * pow2 n + v) (above + n) s (base % pow2 s) f low_lt)

  pub packed_above : packed / pow2 (s + n) ≡ base / pow2 (s + n)
  packed_above =
      let q = pow2_pos n in
      let e : packed / pow2 s ≡ high * pow2 n + v =
        field-div (high * pow2 n + v) (pow2 s) (base % pow2 s) low_lt in
      rw
        (
          pow2-add s n,
          sym (div-div-eq-div-mul packed (pow2 s) (pow2 n)),
          sym (div-div-eq-div-mul base (pow2 s) (pow2 n)),
          e,
        )
        (field-div high (pow2 n) v value)

  pub packed_below : packed % pow2 s ≡ base % pow2 s
  packed_below = field-mod (high * pow2 n + v) (pow2 s) (base % pow2 s) low_lt

  pack-eq : pack debug size p v base ≡ returned packed
  unfolding pack
  pack-eq =
      let e : leb v (pow2 n - 1) ≡ true = ground arith in
      ap
        (λ (m : Outcome ℕ).
          m >>= λ most. assert (leb v most) >> pack_truncating debug size p v base)
        (max_value-Spans debug size n s p c narrow)
      ∙ (ap (λ (b : Bool). assert b >> pack_truncating debug size p v base) e ∙ pack_truncating-eq)

pack-refused :
    (debug : Bool) (size n s : ℕ) (p : Pack)
    → Spans size n s p
    → n < size
    → (v base : ℕ) → pow2 n ≤ v
    → pack debug size p v base ≡ panicked
unfolding pack
pack-refused debug size n s p c narrow v base h =
    let q = pow2_pos n in
    let e : leb v (pow2 n - 1) ≡ false = ground arith in
    rw (max_value-Spans debug size n s p c narrow, e) refl

-- Packing and unpacking, in both builds: let a packer span `n` bits from bit `s` on, less than the
-- width, and let `base` be a word. A value below `2 ^ n` is packed with no panic, into a word from
-- which the packer unpacks it again, and the bits above and below the range are those of `base`. A
-- value that is larger panics.
pub pack-unpack_bits :
    (debug : Bool) (size n s : ℕ) (p : Pack)
    → Spans size n s p
    → n < size
    → (v base : ℕ) → base < pow2 size
    → (v < pow2 n
        → (r : ℕ) × (pack debug size p v base ≡ returned r)
          × (unpack_bits debug size p r ≡ returned v)
          × (r < pow2 size)
          × (r / pow2 (s + n) ≡ base / pow2 (s + n))
          × (r % pow2 s ≡ base % pow2 s))
      × (pow2 n ≤ v → pack debug size p v base ≡ panicked)
pack-unpack_bits debug size n s p c narrow v base w = (
  λ h. (
    packed debug size n s p c narrow v base h w,
    pack-eq debug size n s p c narrow v base h w,
    unpack-eq debug size n s p c narrow v base h w,
    packed-lt debug size n s p c narrow v base h w,
    packed_above debug size n s p c narrow v base h w,
    packed_below debug size n s p c narrow v base h w,
  ),
  pack-refused debug size n s p c narrow v base,
)

-- What a packer unpacks from a word.
pub unpack_bits-eq :
    (debug : Bool) (size n s : ℕ) (p : Pack)
    → Spans size n s p
    → n < size
    → (a : ℕ) → a < pow2 size
    → unpack_bits debug size p a ≡ returned (a / pow2 s % pow2 n)
unpack_bits-eq debug size n s p c narrow a w =
    ap (unpack_bits debug size p) (parts_eq n s a)
    ∙ unpack-eq debug size n s p c narrow (a / pow2 s % pow2 n) a (mod-lt _ (pow2_pos n)) w
