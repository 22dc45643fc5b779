-- ===== src/Bitfield/Pair.antt =====
-- Pairs of packers, that move a range of bits from one word to another.
use Prim.Native.Nat.{bit_and, bit_or}
use wasm_kernel.Base.{
  ℕ, ◌+◌, ◌-◌, ◌*◌, ◌≤◌, ◌<◌, ltb, ltb→lt, Bool-cases, inl, inr, ◌≡◌, refl, sym, ap, ◌∙◌, Bool,
  if◌then◌else◌, Outcome, returned, ◌>>=◌, arith,
}
use wasm_kernel.Memory.Math.{pow2-add, pow2, pow2_pos}
use wasm_kernel.Bitfield.Word.{shl, shr, complement}
use wasm_kernel.Bitfield.Pack.{Pack, bits, starting_at, shift_next}
use wasm_kernel.Bitfield.Spec.{Spans, field-lt, shl-fits, shr-fits}

pub record Pair : Type 0 where
  pub src : Pack
  pub dst : Pack
  pub dst_shl : ℕ
  pub dst_shr : ℕ

-- Both packers are of the integer's own type, for which `typed` asserts nothing more.
unfoldable pub pair_with : Pack → Pack → Pair
pair_with p q =
    if ltb p.shift q.shift
    then record { src = p; dst = q; dst_shl = q.shift - p.shift; dst_shr = 0 }
    else record { src = p; dst = q; dst_shl = 0; dst_shr = p.shift - q.shift }

times_one : (x : ℕ) → x * pow2 0 ≡ x
unfolding pow2
times_one x = omega arith

field_up : (m s t : ℕ) → s ≤ t → m * pow2 t ≡ m * pow2 s * pow2 (t - s)
field_up m s t h =
    let a : t - s + s ≡ t = omega arith in
    let b : pow2 t ≡ pow2 (t - s) * pow2 s = ap pow2 (sym a) ∙ pow2-add (t - s) s in
    rw b (omega arith)

module _ (debug : Bool) (size : ℕ) where
  unfoldable pub shift_dst : Pair → ℕ → Outcome ℕ
  unfolding shl shr
  shift_dst pair val = shl debug size val pair.dst_shl >>= λ x. shr debug size x pair.dst_shr

  unfoldable pub shift_src : Pair → ℕ → Outcome ℕ
  unfolding shl shr
  shift_src pair val = shr debug size val pair.dst_shl >>= λ x. shl debug size x pair.dst_shr

  unfoldable pub pack_from_src : Pair → ℕ → ℕ → Outcome ℕ
  unfolding shift_src complement
  pack_from_src pair src dst = do
    bits ← shift_src pair (bit_and dst pair.dst.mask)
    returned (bit_or (bit_and src (complement size pair.src.mask)) bits)

  unfoldable pub pack_from_dst : Pair → ℕ → ℕ → Outcome ℕ
  unfolding shift_dst complement
  pack_from_dst pair src dst = do
    bits ← shift_dst pair (bit_and src pair.src.mask)
    returned (bit_or (bit_and dst (complement size pair.dst.mask)) bits)

  unfoldable pub pair_at : Pack → ℕ → Outcome Pair
  unfolding bits starting_at pair_with
  pair_at p at = do n ← bits debug size p; q ← starting_at debug size at n; returned (pair_with p q)

  unfoldable pub pair_after : Pack → Pack → Outcome Pair
  unfolding pair_at shift_next
  pair_after p after = pair_at p (shift_next debug size after)

  -- A field is moved up, or down.
  module _ (n : ℕ) (some_bits : 0 < n) (m : ℕ) (small : m < pow2 n) where
    up :
        (s t : ℕ)
        → s ≤ t
        → t + n ≤ size
        → shl debug size (m * pow2 s) (t - s) ≡ returned (m * pow2 t)
    up s t h f =
        let b : m * pow2 s < pow2 (n + s) = omega (arith, field-lt m n s 0 small (pow2_pos s)) in
        let e = sym (field_up m s t h) in
        shl-fits debug size (n + s) (m * pow2 s) (t - s) b (omega arith) (omega arith)
        ∙ ap (λ (k : ℕ). returned k) e

    down :
        (s t : ℕ)
        → s ≤ t
        → t + n ≤ size
        → shr debug size (m * pow2 t) (t - s) ≡ returned (m * pow2 s)
    down s t h f =
        let e : m * pow2 t ≡ m * pow2 s * pow2 (t - s) + 0 = omega (arith, field_up m s t h) in
        ap (λ (x : ℕ). shr debug size x (t - s)) e
        ∙ shr-fits debug size (m * pow2 s) (t - s) 0 (omega arith) (pow2_pos (t - s))

    -- By no bits.
    stay :
        (x w : ℕ)
        → 0 < size
        → x < pow2 w
        → w ≤ size
        → (shl debug size x 0 ≡ returned x) × (shr debug size x 0 ≡ returned x)
    stay x w o h f =
        let e : x * pow2 0 ≡ x = times_one x in
        let g : x ≡ x * pow2 0 + 0 = omega (arith, e) in
        (
          shl-fits debug size w x 0 h o (omega arith) ∙ ap (λ (k : ℕ). returned k) e,
          ap (λ (y : ℕ). shr debug size y 0) g ∙ shr-fits debug size x 0 0 o (pow2_pos 0),
        )

    -- A field of `n` bits is moved from bit `s` to bit `t`, and back.
    pub moved :
        (s t : ℕ) (p q : Pack)
        → Spans size n s p
        → Spans size n t q
        → (shift_dst (pair_with p q) (m * pow2 s) ≡ returned (m * pow2 t))
          × (shift_src (pair_with p q) (m * pow2 t) ≡ returned (m * pow2 s))
    unfolding shift_dst shift_src pair_with
    moved s t p q c d =
        let l =
          stay (m * pow2 s) (n + s) (omega (arith, c.fits)) (field_small s)
            (omega (arith, c.fits)) in
        let r =
          stay (m * pow2 t) (n + t) (omega (arith, c.fits)) (field_small t)
            (omega (arith, d.fits)) in
        elim (Bool-cases (ltb s t)) [
          | inl e ↦
              let h = ltb→lt s t e in
              rw
                (
                  c.shift,
                  d.shift,
                  e,
                  up s t (omega arith) d.fits,
                  r.1,
                  down s t (omega arith) d.fits,
                  l.0,
                )
                (refl, refl)
          | inr e ↦
              let h : t ≤ s = ground arith in
              rw (c.shift, d.shift, e, l.0, down t s h c.fits, r.1, up t s h c.fits) (refl, refl)
        ]
      where
        field_small : (s : ℕ) → m * pow2 s < pow2 (n + s)
        field_small s = omega (arith, field-lt m n s 0 small (pow2_pos s))

pub pair_with-ends : (p q : Pack) → ((pair_with p q).src ≡ p) × ((pair_with p q).dst ≡ q)
unfolding pair_with
pair_with-ends p q = elim (Bool-cases (ltb p.shift q.shift)) [
  | inl e ↦ rw e (refl, refl)
  | inr e ↦ rw e (refl, refl)
]
