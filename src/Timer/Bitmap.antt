-- ===== src/Timer/Bitmap.antt =====
-- `next_set_bit`, on the bitmap of a wheel's occupied slots. A bitmap is given by its bits.
use wasm_kernel.Base.{
  ℕ, zero, suc, ◌+◌, ◌-◌, ◌%◌, ap, ◌∙◌, ◌<◌, ◌≡◌, refl, Bool, true, false, not, ◌&&◌, ltb,
  if◌then◌else◌, arith, Outcome, returned, ◌>>◌, debug_assert, Bool-cases, inl, inr,
}
use mathlib.Core.Option.{Option, none, some}

-- The lowest `n` bits are all 0.
unfoldable pub is_zero : ℕ → (ℕ → Bool) → Bool
is_zero zero bits = true
is_zero (suc n) bits = not (bits 0) && is_zero n (λ i. bits (suc i))

-- `trailing_zeros` of a number of `n` bits
unfoldable pub trailing_zeros : ℕ → (ℕ → Bool) → ℕ
trailing_zeros zero bits = 0
trailing_zeros (suc n) bits =
    let rest = trailing_zeros n (λ i. bits (suc i)) in if bits 0 then 0 else suc rest

-- `bitmap >> offset`
abbrev pub shift_right : (ℕ → Bool) → ℕ → ℕ → Bool
shift_right bits offset i = ltb (i + offset) 64 && bits (i + offset)

-- `bitmap.rotate_right(offset)`
abbrev pub rotate_right : (ℕ → Bool) → ℕ → ℕ → Bool
rotate_right bits offset i = bits ((i + offset) % 64)

unfoldable pub next_set_bit : Bool → (ℕ → Bool) → ℕ → Outcome (Option ℕ)
next_set_bit debug bits offset =
    let shifted = shift_right bits offset in
    let zeros =
      if is_zero 64 shifted
      then trailing_zeros 64 (rotate_right bits offset)
      else trailing_zeros 64 shifted in
    debug_assert debug (ltb offset 64)
    >> returned (if is_zero 64 bits then none else some (zeros + offset))

pub trailing_zeros-set :
    (n : ℕ) (bits : ℕ → Bool)
    → is_zero n bits ≡ false
    → (trailing_zeros n bits < n) × (bits (trailing_zeros n bits) ≡ true)
unfolding is_zero trailing_zeros
trailing_zeros-set zero bits h = cc
trailing_zeros-set (suc n) bits h = elim (Bool-cases (bits 0)) [
  | inl e ↦ rw e (omega arith, e)
  | inr e ↦
      let ih = trailing_zeros-set n (λ i. bits (suc i)) (rw e at h) in
      rw e (omega (arith, ih.0), ih.1)
]

pub is_zero-clear :
    (n : ℕ) (bits : ℕ → Bool) (i : ℕ) → is_zero n bits ≡ true → i < n → bits i ≡ false
unfolding is_zero
is_zero-clear zero bits i h l = absurd (omega arith)
is_zero-clear (suc n) bits zero h l = ground arith
is_zero-clear (suc n) bits (suc i) h l =
    is_zero-clear n (λ j. bits (suc j)) i (ground arith) (omega arith)

is_zero-set : (n : ℕ) (bits : ℕ → Bool) (i : ℕ) → bits i ≡ true → i < n → is_zero n bits ≡ false
is_zero-set n bits i h l = elim (Bool-cases (is_zero n bits)) [
  | inl e ↦ let c = is_zero-clear n bits i e l in cc
  | inr e ↦ e
]

rotated_set :
    (bits : ℕ → Bool) (offset : ℕ)
    → offset < 64
    → is_zero 64 bits ≡ false
    → is_zero 64 (rotate_right bits offset) ≡ false
rotated_set bits offset h z =
    let first = trailing_zeros-set 64 bits z in
    let j = trailing_zeros 64 bits in
    let i = (j + 64 - offset) % 64 in
    let back : (i + offset) % 64 ≡ j = omega (arith, first.0) in
    is_zero-set 64 (rotate_right bits offset) i (ap bits back ∙ first.1) (omega arith)

-- The bit that is found is set.
pub next_set_bit-set :
    (bits : ℕ → Bool) (offset : ℕ)
    → offset < 64
    → is_zero 64 bits ≡ false
    → (d : ℕ) × (next_set_bit false bits offset ≡ returned (some d)) × (bits (d % 64) ≡ true)
unfolding next_set_bit
next_set_bit-set bits offset h z = elim (Bool-cases (is_zero 64 (shift_right bits offset))) [
  | inl e ↦
      let found = trailing_zeros-set 64 (rotate_right bits offset) (rotated_set bits offset h z) in
      (trailing_zeros 64 (rotate_right bits offset) + offset, rw (z, e) refl, found.1)
  | inr e ↦
      let found = trailing_zeros-set 64 (shift_right bits offset) e in
      let d = trailing_zeros 64 (shift_right bits offset) + offset in
      let low : d < 64 = ground arith in
      let small : d % 64 ≡ d = omega arith in (d, rw (z, e) refl, ap bits small ∙ ground arith)
]
