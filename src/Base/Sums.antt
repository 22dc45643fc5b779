-- ===== src/Base/Sums.antt =====
-- Sums over the first `n` numbers.
use Prim.Native.Nat.{ℕ, zero, suc, ◌+◌, ◌<◌}
use mathlib.Core.Path.{◌≡◌, refl}
use mathlib.Core.Logic.{◌≢◌}
use native.Mathlib.Omega.{arith}
use native.Mathlib.Decide.{dec_lt}

unfoldable pub sum : ℕ → (ℕ → ℕ) → ℕ
sum zero f = 0
sum (suc n) f = f n + sum n f

pub sum-eq : (n : ℕ) (f g : ℕ → ℕ) → ((j : ℕ) → j < n → g j ≡ f j) → sum n g ≡ sum n f
unfolding sum
sum-eq zero f g h = refl
sum-eq (suc n) f g h = omega (arith, h n (omega arith), sum-eq n f g (λ j l. h j (omega arith)))

-- A change of one term.
pub sum-change :
    (n k : ℕ) (f g : ℕ → ℕ) → ((j : ℕ) → j ≢ k → g j ≡ f j) → k < n → sum n g + f k ≡ sum n f + g k
unfolding sum
sum-change zero k f g h l = absurd (omega arith)
sum-change (suc n) k f g h l = elim (dec_lt k n) [
  | yes p ↦ omega (arith, sum-change n k f g h p, h n (omega arith))
  | no p ↦
      let same : k ≡ n = omega arith in
      let below = sum-eq n f g (λ j q. h j (omega arith)) in rw same (omega (arith, below))
]

pub sum_zero : (n : ℕ) (f : ℕ → ℕ) → ((j : ℕ) → j < n → f j ≡ 0) → sum n f ≡ 0
unfolding sum
sum_zero zero f h = refl
sum_zero (suc n) f h = omega (arith, h n (omega arith), sum_zero n f (λ j l. h j (omega arith)))
