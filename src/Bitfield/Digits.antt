-- ===== src/Bitfield/Digits.antt =====
-- `&` and `|` of words in which fields are set, as arithmetic.
use Prim.Native.Nat.{bit_and, bit_or, digits, bitwise, bit_and-bitwise, bit_or-bitwise}
use wasm_kernel.Base.{
  ℕ, zero, suc, ◌+◌, ◌-◌, ◌*◌, ◌/◌, ◌%◌, ◌≤◌, ◌<◌, ◌≡◌, refl, sym, ◌∙◌, arith, min, max,
}
use wasm_kernel.Memory.Math.{pow2, pow2_pos}

-- More fuel than digits changes nothing.
module _ (rest : ℕ → ℕ) (op : ℕ → ℕ → ℕ) where
  same_digits : (m n a b : ℕ) → a ≤ m → a ≤ n → digits rest op m a b ≡ digits rest op n a b
  same_digits m n zero b p q = no_digits m ∙ sym (no_digits n)
    where
      no_digits : (m : ℕ) → digits rest op m 0 b ≡ rest b
      no_digits zero = refl
      no_digits (suc m) = refl
  same_digits (suc m) (suc n) (suc a) b p q =
      rw (same_digits m n (suc a / 2) (b / 2) (omega arith) (omega arith))
  same_digits zero n (suc a) b p q = absurd (omega arith)
  same_digits (suc m) zero (suc a) b p q = absurd (omega arith)

  lowest_digit :
      (a b : ℕ)
      → bitwise rest op (suc a) b ≡ bitwise rest op (suc a / 2) (b / 2) * 2 + op (suc a % 2) (b % 2)
  lowest_digit a b =
      let e = same_digits a (suc a / 2) (suc a / 2) (b / 2) (omega arith) (omega arith) in
      omega arith

pub bit_and-half : (a b : ℕ) → bit_and a b ≡ bit_and (a / 2) (b / 2) * 2 + min (a % 2) (b % 2)
bit_and-half zero b = simp bit_and-bitwise (omega arith)
bit_and-half (suc a) b = simp bit_and-bitwise (lowest_digit (λ b. 0) min a b)

pub bit_or-half : (a b : ℕ) → bit_or a b ≡ bit_or (a / 2) (b / 2) * 2 + max (a % 2) (b % 2)
bit_or-half zero b = simp bit_or-bitwise (omega arith)
bit_or-half (suc a) b = simp bit_or-bitwise (lowest_digit (λ b. b) max a b)

-- Halving a word with a field above the lowest digits.
half-field : (x p l : ℕ) → ((x * (2 * p) + l) / 2 ≡ x * p + l / 2) × ((x * (2 * p) + l) % 2 ≡ l % 2)
half-field x p l = (omega arith, omega arith)

-- Two words whose lower digits are `l` and `m`.
module _ (x y p l m : ℕ) where
  and_half :
      bit_and (x * (2 * p) + l) (y * (2 * p) + m)
      ≡ bit_and (x * p + l / 2) (y * p + m / 2) * 2 + min (l % 2) (m % 2)
  and_half =
      let (a, b) = half-field x p l in
      let (c, d) = half-field y p m in
      bit_and-half (x * (2 * p) + l) (y * (2 * p) + m) ∙ rw (a, b, c, d) refl

  or_half :
      bit_or (x * (2 * p) + l) (y * (2 * p) + m)
      ≡ bit_or (x * p + l / 2) (y * p + m / 2) * 2 + max (l % 2) (m % 2)
  or_half =
      let (a, b) = half-field x p l in
      let (c, d) = half-field y p m in
      bit_or-half (x * (2 * p) + l) (y * (2 * p) + m) ∙ rw (a, b, c, d) refl

-- The lower digits and the field above them come out by themselves.
pub bit_and-fields :
    (s x y l m : ℕ)
    → l < pow2 s
    → m < pow2 s
    → bit_and (x * pow2 s + l) (y * pow2 s + m) ≡ bit_and x y * pow2 s + bit_and l m
unfolding pow2
bit_and-fields zero x y l m h k =
    let a : l ≡ 0 = omega arith in
    let b : m ≡ 0 = omega arith in
    let c : x * 1 + 0 ≡ x = omega arith in
    let d : y * 1 + 0 ≡ y = omega arith in rw (a, b, c, d) (omega arith)
bit_and-fields (suc s) x y l m h k = omega (
  arith,
  and_half x y (pow2 s) l m,
  bit_and-half l m,
  bit_and-fields s x y (l / 2) (m / 2) (omega arith) (omega arith),
)

pub bit_or-fields :
    (s x y l m : ℕ)
    → l < pow2 s
    → m < pow2 s
    → bit_or (x * pow2 s + l) (y * pow2 s + m) ≡ bit_or x y * pow2 s + bit_or l m
unfolding pow2
bit_or-fields zero x y l m h k =
    let a : l ≡ 0 = omega arith in
    let b : m ≡ 0 = omega arith in
    let c : x * 1 + 0 ≡ x = omega arith in
    let d : y * 1 + 0 ≡ y = omega arith in rw (a, b, c, d) (omega arith)
bit_or-fields (suc s) x y l m h k = omega (
  arith,
  or_half x y (pow2 s) l m,
  bit_or-half l m,
  bit_or-fields s x y (l / 2) (m / 2) (omega arith) (omega arith),
)

pub bit_and-zero : (k a : ℕ) → a < pow2 k → bit_and a 0 ≡ 0
unfolding pow2
bit_and-zero zero a h = let e : a ≡ 0 = omega arith in rw e refl
bit_and-zero (suc k) a h = omega (arith, bit_and-half a 0, bit_and-zero k (a / 2) (omega arith))

pub bit_or-zero : (k a : ℕ) → a < pow2 k → bit_or a 0 ≡ a
unfolding pow2
bit_or-zero zero a h = let e : a ≡ 0 = omega arith in rw e refl
bit_or-zero (suc k) a h = omega (arith, bit_or-half a 0, bit_or-zero k (a / 2) (omega arith))

pub zero-bit_or : (a : ℕ) → bit_or 0 a ≡ a
zero-bit_or a = simp bit_or-bitwise refl

-- A mask of `k` ones.
pub bit_and-ones : (k a : ℕ) → a < pow2 k → bit_and a (pow2 k - 1) ≡ a
unfolding pow2
bit_and-ones zero a h = let e : a ≡ 0 = omega arith in rw e refl
bit_and-ones (suc k) a h =
    let p = pow2_pos k in
    let c : (2 * pow2 k - 1) / 2 ≡ pow2 k - 1 = omega arith in
    let d : (2 * pow2 k - 1) % 2 ≡ 1 = omega arith in
    bit_and-half a (2 * pow2 k - 1)
    ∙ rw (c, d) (omega (arith, bit_and-ones k (a / 2) (omega arith)))
