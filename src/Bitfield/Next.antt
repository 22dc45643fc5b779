-- ===== src/Bitfield/Next.antt =====
-- Packers that are made one after the other.
use wasm_kernel.Base.{
  ℕ, ◌+◌, ◌-◌, ◌*◌, ◌/◌, ◌%◌, ◌≤◌, ◌<◌, ◌≡◌, refl, sym, ap, ◌∙◌, Bool, returned, arith,
}
use native.Mathlib.Nat.{mod-lt}
use wasm_kernel.Memory.Math.{pow2-add, pow2, pow2_pos}
use wasm_kernel.Bitfield.Pack.{Pack, least_significant, next, pack, unpack_bits}
use wasm_kernel.Bitfield.Spec.{
  Spans, field-lt, field-div, field-mod, mk_mask-ones, shl-fits, shift_next-Spans,
}
use wasm_kernel.Bitfield.Packed.{pack-unpack_bits, unpack_bits-eq}
use wasm_kernel.Bitfield.Parts.{parts_eq}

pub least_significant-Spans :
    (debug : Bool) (size n : ℕ) → 0 < n → n ≤ size → Spans size n 0 (least_significant debug size n)
unfolding least_significant pow2
least_significant-Spans debug size n o h = record {
  mask = mk_mask-ones debug size n h ∙ (omega arith);
  shift = refl;
  some_bits = o;
  fits = omega arith;
}

abbrev next_pack : ℕ → ℕ → Pack
next_pack m s = record { mask = (pow2 m - 1) * pow2 s; shift = s }

next-eq :
    (debug : Bool) (size n s m : ℕ) (p : Pack)
    → Spans size n s p
    → 0 < m
    → s + n + m ≤ size
    → next debug size p m ≡ returned (next_pack m (s + n))
unfolding next
next-eq debug size n s m p c o h =
    let a = shift_next-Spans debug size n s p c in
    let b = mk_mask-ones debug size m (omega arith) in
    let e =
      shl-fits debug size m (pow2 m - 1) (s + n) (omega (arith, pow2_pos m)) (omega arith) h in
    rw (a, b, e) refl

-- A range below another is read off the lower bits alone.
lower_range :
    (n s a b : ℕ) → a % pow2 (s + n) ≡ b % pow2 (s + n) → a / pow2 s % pow2 n ≡ b / pow2 s % pow2 n
lower_range n s a b h = by_low a ∙ (ap (λ (t : ℕ). t / pow2 s) h ∙ sym (by_low b))
  where
    by_low : (a : ℕ) → a / pow2 s % pow2 n ≡ a % pow2 (s + n) / pow2 s
    by_low a =
        let high = a / pow2 s / pow2 n in
        let mid = a / pow2 s % pow2 n in
        let low = a % pow2 s in
        let below : low < pow2 s = mod-lt a (pow2_pos s) in
        let small : mid * pow2 s + low < pow2 s * pow2 n =
          omega
            (arith, field-lt mid n s low (mod-lt (a / pow2 s) (pow2_pos n)) below, pow2-add n s) in
        let e : a ≡ high * (pow2 s * pow2 n) + (mid * pow2 s + low) =
          omega (arith, parts_eq n s a) in
        let f : a % (pow2 s * pow2 n) ≡ mid * pow2 s + low =
          ap (λ (t : ℕ). t % (pow2 s * pow2 n)) e
          ∙ field-mod high (pow2 s * pow2 n) (mid * pow2 s + low) small in
        rw (pow2-add s n, f, field-div mid (pow2 s) low below) refl

-- The packer that `next` makes spans the `m` bits after those of the packer that it is called on,
-- where there is room for them; and a value that is packed into it leaves what the first packer
-- unpacks, in both builds.
next_apart :
    (debug : Bool) (size n s m : ℕ) (p : Pack)
    → Spans size n s p
    → 0 < m
    → s + n + m ≤ size
    → (q : Pack) × (next debug size p m ≡ returned q)
      × Spans size m (s + n) q
      × ((w base : ℕ)
          → w < pow2 m
          → base < pow2 size
          → (r : ℕ) × (pack debug size q w base ≡ returned r)
            × (unpack_bits debug size q r ≡ returned w)
            × (unpack_bits debug size p r ≡ unpack_bits debug size p base))
next_apart debug size n s m p c o h =
    let q : Spans size m (s + n) (next_pack m (s + n)) = record {
      mask = refl;
      shift = refl;
      some_bits = o;
      fits = h;
    } in
    (
      next_pack m (s + n),
      next-eq debug size n s m p c o h,
      q,
      λ w base f g.
          let (r, e, u, l, x, y) =
            (pack-unpack_bits debug size m (s + n) (next_pack m (s + n)) q
                (omega (arith, c.some_bits)) w base g).0
              f in
          (
            r,
            e,
            u,
            unpack_bits-eq debug size n s p c (omega arith) r l
                ∙ (ap (λ (t : ℕ). returned t) (lower_range n s r base y)
                    ∙ sym (unpack_bits-eq debug size n s p c (omega arith) base g)),
          ),
    )
