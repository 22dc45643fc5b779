-- ===== src/Base/Panic.antt =====
-- What a call of the program comes to: it returns, or it panics.
use mathlib.Core.Path.{◌≡◌, refl, ap}
use mathlib.Core.Bool.{Bool, true, false}

pub data Outcome {ℓ} (A : Type ℓ) : Type ℓ where
  returned : A → Outcome A
  panicked : Outcome A

infixl 5 ◌>>=◌ ◌>>◌
abbrev pub ◌>>=◌ {ℓ κ} : {A : Type ℓ} {B : Type κ} → Outcome A → (A → Outcome B) → Outcome B
returned a >>= f = f a
panicked >>= f = panicked

abbrev pub ◌>>◌ {ℓ} : {B : Type ℓ} → Outcome (Unit {0}) → Outcome B → Outcome B
m >> k = m >>= λ _. k

-- `assert!`
abbrev pub assert : Bool → Outcome (Unit {0})
assert true = returned tt
assert false = panicked

-- `debug_assert!`: checked only in a build with debug assertions.
abbrev pub debug_assert : Bool → Bool → Outcome (Unit {0})
debug_assert true c = assert c
debug_assert false c = returned tt

-- The call returns, with a result of which `P` holds.
abbrev pub Yields {ℓ} : {A : Type ℓ} → Outcome A → (A → Type 0) → Type 0
Yields (returned a) P = P a
Yields panicked P = ⊥

-- Inversion of a bind that returns.
pub >>=-eq-returned {ℓ κ} :
    {A : Type ℓ} {B : Type κ} (m : Outcome A) (f : A → Outcome B) {b : B}
    → (m >>= f) ≡ returned b
    → (a : A) × (m ≡ returned a) × (f a ≡ returned b)
>>=-eq-returned (returned a) f h = (a, refl, h)
>>=-eq-returned panicked f h = cc

-- An assertion that holds does nothing.
pub debug_assert-true : (debug c : Bool) → c ≡ true → debug_assert debug c ≡ returned tt
debug_assert-true true c h = ap assert h
debug_assert-true false c h = refl

pub Yields-imp {ℓ} :
    {A : Type ℓ} (P Q : A → Type 0) (m : Outcome A)
    → ((a : A) → P a → Q a)
    → Yields m P
    → Yields m Q
Yields-imp P Q (returned a) f h = f a h
Yields-imp P Q panicked f h = absurd h

pub Yields->>= {ℓ κ} :
    {A : Type ℓ} {B : Type κ} (P : A → Type 0) (Q : B → Type 0) (m : Outcome A) (f : A → Outcome B)
    → Yields m P
    → ((a : A) → P a → Yields (f a) Q)
    → Yields (m >>= f) Q
Yields->>= P Q (returned a) f h k = k a h
Yields->>= P Q panicked f h k = absurd h

pub Yields-eq_returned {ℓ} :
    {A : Type ℓ} (P : A → Type 0) (m : Outcome A) → Yields m P → (a : A) × (m ≡ returned a) × P a
Yields-eq_returned P (returned a) h = (a, refl, h)
Yields-eq_returned P panicked h = absurd h

pub Yields-returned :
    {A : Type 0} (P : A → Type 0) (m : Outcome A) {a : A} → Yields m P → m ≡ returned a → P a
Yields-returned P m y e = rw e at y
