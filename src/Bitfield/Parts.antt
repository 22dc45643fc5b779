-- ===== src/Bitfield/Parts.antt =====
-- A word as the bits above a range, in it and below it.
use Prim.Native.Nat.{bit_and, bit_or}
use wasm_kernel.Base.{ℕ, zero, suc, ◌+◌, ◌-◌, ◌*◌, ◌/◌, ◌%◌, ◌<◌, ◌≡◌, refl, sym, ap, ◌∙◌, arith}
use wasm_kernel.Memory.Math.{pow2-add, pow2, pow2_pos}
use wasm_kernel.Bitfield.Word.{complement}
use wasm_kernel.Bitfield.Digits.{
  bit_and-fields, bit_and-ones, bit_and-zero, bit_or-fields, bit_or-zero, zero-bit_or,
}

-- A word by its parts: `h` above the range, `m` in it, `l` below it.
abbrev pub parts : ℕ → ℕ → ℕ → ℕ → ℕ → ℕ
parts n s h m l = (h * pow2 n + m) * pow2 s + l

pub parts_eq : (n s a : ℕ) → a ≡ parts n s (a / pow2 s / pow2 n) (a / pow2 s % pow2 n) (a % pow2 s)
parts_eq n s a = let p = pow2_pos s in let q = pow2_pos n in grind arith

zero_part : (x p : ℕ) → x * p ≡ x * p + 0
zero_part x p = omega arith

complement_parts :
    (k n s : ℕ)
    → 0 < k
    → 0 < n
    → 0 < s
    → k * n * s - 1 - (n - 1) * s ≡ ((k - 1) * n + 0) * s + (s - 1)
complement_parts (suc k) (suc n) (suc s) p q r =
    let a : suc k - 1 ≡ k = omega arith in
    let b : suc n - 1 ≡ n = omega arith in rw (a, b) (grind arith)
complement_parts zero n s p q r = absurd (omega arith)
complement_parts (suc k) zero s p q r = absurd (omega arith)
complement_parts (suc k) (suc n) zero p q r = absurd (omega arith)

-- The word is below `2 ^ (k + n + s)`.
module _ (k n s h m l : ℕ) (top : h < pow2 k) (mid : m < pow2 n) (low : l < pow2 s) where
  pub and_mask : bit_and (parts n s h m l) ((pow2 n - 1) * pow2 s) ≡ m * pow2 s
  and_mask =
      let a = bit_and-fields s (h * pow2 n + m) (pow2 n - 1) l 0 low (pow2_pos s) in
      let b = bit_and-fields n h 0 m (pow2 n - 1) mid (omega (arith, pow2_pos n)) in
      let c : 0 * pow2 n + (pow2 n - 1) ≡ pow2 n - 1 = omega arith in
      let d : bit_and (h * pow2 n + m) (pow2 n - 1) ≡ m =
        sym (ap (bit_and (h * pow2 n + m)) c)
        ∙ (b ∙ rw (bit_and-zero k h top, bit_and-ones n m mid) (omega arith)) in
      ap (bit_and (parts n s h m l)) (zero_part (pow2 n - 1) (pow2 s))
      ∙ (a ∙ rw (d, bit_and-zero s l low) (omega arith))

  complement_eq :
      complement (k + n + s) ((pow2 n - 1) * pow2 s)
      ≡ ((pow2 k - 1) * pow2 n + 0) * pow2 s + (pow2 s - 1)
  unfolding complement
  complement_eq =
      let e = pow2-add (k + n) s in
      let f = pow2-add k n in
      let p = pow2_pos k in
      let q = pow2_pos n in
      let r = pow2_pos s in rw (e, f) (complement_parts (pow2 k) (pow2 n) (pow2 s) p q r)

  pub and_rest :
      bit_and (parts n s h m l) (complement (k + n + s) ((pow2 n - 1) * pow2 s)) ≡ parts n s h 0 l
  and_rest =
      let p = pow2_pos s in
      let a =
        bit_and-fields s (h * pow2 n + m) ((pow2 k - 1) * pow2 n + 0) l (pow2 s - 1) low
          (omega arith) in
      let b = bit_and-fields n h (pow2 k - 1) m 0 mid (pow2_pos n) in
      rw complement_eq
        (a ∙ rw (b, bit_and-ones k h top, bit_and-zero n m mid, bit_and-ones s l low) refl)

  pub or_field : (v : ℕ) → v < pow2 n → bit_or (parts n s h 0 l) (v * pow2 s) ≡ parts n s h v l
  or_field v f =
      let a = bit_or-fields s (h * pow2 n + 0) v l 0 low (pow2_pos s) in
      let b = bit_or-fields n h 0 0 v (pow2_pos n) f in
      let c : 0 * pow2 n + v ≡ v = omega arith in
      let d : bit_or (h * pow2 n + 0) v ≡ h * pow2 n + v =
        sym (ap (bit_or (h * pow2 n + 0)) c) ∙ (b ∙ rw (bit_or-zero k h top, zero-bit_or v) refl) in
      ap (bit_or (parts n s h 0 l)) (zero_part v (pow2 s))
      ∙ (a ∙ rw (d, bit_or-zero s l low) (omega arith))
