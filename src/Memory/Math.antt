-- ===== src/Memory/Math.antt =====
-- Powers of two and logarithms: util/src/math.rs, and the operations of `usize` that it calls.
use wasm_kernel.Base.{
  ap, ◌∙◌, ℕ, zero, suc, ◌+◌, ◌-◌, ◌*◌, ◌/◌, ◌%◌, ◌^◌, ◌≤◌, ◌<◌, ◌≡◌, refl, Bool, true, ◌&&◌, ◌==◌,
  ltb, leb, if◌then◌else◌, arith, dec_lt, leb→le, inl, inr, Bool-cases,
}
use mathlib.Core.Option.{Option, none, some}

abbrev pub usize_mod : ℕ
usize_mod = 2 ^ 64

-- `1 << k`
unfoldable pub pow2 : ℕ → ℕ
pow2 zero = 1
pow2 (suc k) = 2 * pow2 k

-- The number of bits up to the highest that is set, of a number with at most `bits` bits.
unfoldable pub bit_length : ℕ → ℕ → ℕ
bit_length zero n = 0
bit_length (suc bits) n = let rest = bit_length bits (n / 2) in if n == 0 then 0 else suc rest

unfoldable pub leading_zeros : ℕ → ℕ
unfolding bit_length
leading_zeros n = 64 - bit_length 64 n

unfoldable pub trailing_zeros : ℕ → ℕ → ℕ
trailing_zeros zero n = 0
trailing_zeros (suc bits) n =
    let rest = trailing_zeros bits (n / 2) in if n % 2 == 1 then 0 else suc rest

-- `usize_const_log2`
unfoldable pub log2 : ℕ → ℕ
unfolding leading_zeros
log2 n = 64 - 1 - leading_zeros n

unfoldable pub is_power_of_two : ℕ → Bool
unfolding pow2 bit_length
is_power_of_two n = ltb 0 n && (pow2 (bit_length 64 n - 1) == n)

-- It wraps to 0 where the power does not fit.
unfoldable pub next_power_of_two : ℕ → ℕ
unfolding pow2 bit_length
next_power_of_two n = if leb n 1 then 1 else pow2 (bit_length 64 (n - 1)) % usize_mod

-- `usize_const_log2_ceil`
unfoldable pub log2_ceil : ℕ → ℕ
unfolding next_power_of_two trailing_zeros
log2_ceil n = trailing_zeros 64 (next_power_of_two n)

-- The loop of `usize_const_checked_log`; 64 rounds divide any `usize` down to less than its base.
unfoldable pub log_loop : ℕ → ℕ → ℕ → ℕ → ℕ
log_loop zero n base log = log
log_loop (suc fuel) n base log =
    let rest = log_loop fuel (n / base) base (log + 1) in if leb base n then rest else log

unfoldable pub checked_log : ℕ → ℕ → Option ℕ
unfolding log2 log_loop
checked_log n base =
    if n == 0
    then none
    else if leb base 1
    then none
    else if base == 2
    then some (log2 n)
    else some (log_loop 64 n base 0)

pub pow2_pos : (k : ℕ) → 0 < pow2 k
unfolding pow2
pow2_pos zero = omega arith
pow2_pos (suc k) = omega (arith, pow2_pos k)

pub pow2-lt : (j k : ℕ) → j < k → 2 * pow2 j ≤ pow2 k
unfolding pow2
pow2-lt zero (suc k) h = omega (arith, pow2_pos k)
pow2-lt (suc j) (suc k) h = omega (arith, pow2-lt j k (omega arith))
pow2-lt zero zero h = absurd (omega arith)
pow2-lt (suc j) zero h = absurd (omega arith)

pub pow2-le : (j k : ℕ) → j ≤ k → pow2 j ≤ pow2 k
unfolding pow2
pow2-le zero k h = omega (arith, pow2_pos k)
pow2-le (suc j) zero h = absurd (omega arith)
pow2-le (suc j) (suc k) h = omega (arith, pow2-le j k (omega arith))

pub pow2-lt_lt : (j k : ℕ) → pow2 j < pow2 k → j < k
pow2-lt_lt j k h = elim (dec_lt j k) [
  | yes l ↦ l
  | no l ↦ absurd (omega (arith, pow2-le k j (omega arith)))
]

pow2-bit_length_zero : (bits m : ℕ) → m ≡ 0 → pow2 (bit_length bits m) ≡ 1
unfolding bit_length pow2
pow2-bit_length_zero zero m h = refl
pow2-bit_length_zero (suc bits) m h = rw h refl

-- A number with at most `bits` bits lies between two neighbouring powers.
pub bit_length_bounds :
    (bits n : ℕ)
    → n < pow2 bits
    → (n < pow2 (bit_length bits n))
      × (0 < n → pow2 (bit_length bits n) ≤ 2 * n)
      × (bit_length bits n ≤ bits)
unfolding bit_length pow2
bit_length_bounds zero n h = (omega arith, ground arith, omega arith)
bit_length_bounds (suc bits) n h =
    let ih = bit_length_bounds bits (n / 2) (omega arith) in
    elim (Bool-cases (n == 0)) [
      | inl e ↦ rw e (ground arith)
      | inr e ↦ rw e (ground (arith, ih, pow2-bit_length_zero bits (n / 2)))
    ]

pub trailing_zeros-pow2 : (bits k : ℕ) → k < bits → trailing_zeros bits (pow2 k) ≡ k
unfolding trailing_zeros pow2
trailing_zeros-pow2 zero k h = absurd (omega arith)
trailing_zeros-pow2 (suc bits) zero h = refl
trailing_zeros-pow2 (suc bits) (suc k) h =
    let e : 2 * pow2 k / 2 ≡ pow2 k = omega arith in ground (arith, trailing_zeros-pow2 bits k, e)

pub pow2-add : (a b : ℕ) → pow2 (a + b) ≡ pow2 a * pow2 b
unfolding pow2
pow2-add zero b = let e : 0 + b ≡ b = omega arith in ap pow2 e ∙ (omega arith)
pow2-add (suc a) b =
    let e : suc a + b ≡ suc (a + b) = omega arith in ap pow2 e ∙ (omega (arith, pow2-add a b))

pub pow2-63 : pow2 63 ≡ 2 ^ 63
unfolding pow2
pow2-63 = refl

pub pow2-64 : pow2 64 ≡ usize_mod
unfolding pow2
pow2-64 = refl

-- Rounding up to a power of two, where the power fits: it is the one that `log2_ceil` names.
pub next_power_of_two-eq_pow2 :
    (n : ℕ)
    → 0 < n
    → 2 * n ≤ usize_mod
    → (next_power_of_two n ≡ pow2 (log2_ceil n))
      × (n ≤ pow2 (log2_ceil n))
      × (pow2 (log2_ceil n) < 2 * n)
unfolding next_power_of_two log2_ceil
next_power_of_two-eq_pow2 n pos fits = elim (Bool-cases (leb n 1)) [
  | inl e ↦ let le = leb→le n 1 e in rw e (refl, omega arith, omega arith)
  | inr e ↦
      let k = bit_length 64 (n - 1) in
      let b = bit_length_bounds 64 (n - 1) (rw pow2-64 (omega arith)) in
      let hi : pow2 k ≤ 2 * (n - 1) = b.1 (ground arith) in
      let small : k < 64 = pow2-lt_lt k 64 (rw pow2-64 (omega arith)) in
      let whole : pow2 k % usize_mod ≡ pow2 k = omega arith in
      rw (e, whole, trailing_zeros-pow2 64 k small) (refl, omega arith, omega arith)
]

-- `log2_ceil` of a number whose next power of two fits is the least `k` with the number at most
-- `2 ^ k`.
pub log2_ceil_least :
    (n : ℕ)
    → 0 < n
    → 2 * n ≤ usize_mod
    → (n ≤ pow2 (log2_ceil n)) × ((k : ℕ) → n ≤ pow2 k → log2_ceil n ≤ k)
log2_ceil_least n pos fits =
    let e = next_power_of_two-eq_pow2 n pos fits in
    (
      e.1,
      λ k h.
          let less : log2_ceil n < suc k =
            pow2-lt_lt (log2_ceil n) (suc k) (unfold pow2 in omega (arith, e.2)) in
          omega arith,
    )

power_test : (p : ℕ) → 0 < p → (ltb 0 p && (p == p)) ≡ true
power_test p h = ground arith

pub is_power_of_two-pow2 : (k : ℕ) → k < 64 → is_power_of_two (pow2 k) ≡ true
unfolding is_power_of_two
is_power_of_two-pow2 k h =
    let l = bit_length 64 (pow2 k) in
    let pos = pow2_pos k in
    let b = bit_length_bounds 64 (pow2 k) (omega (arith, pow2-lt k 64 h)) in
    let above = pow2-lt_lt k l b.0 in
    let below : l < suc (suc k) =
      pow2-lt_lt l (suc (suc k)) (unfold pow2 in omega (arith, b.1 pos, pos)) in
    let same : l - 1 ≡ k = omega arith in rw same (power_test (pow2 k) pos)
