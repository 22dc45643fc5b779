-- ===== src/Bitfield/Pack.antt =====
-- `Pack`: a range of bits, and packing into it. `size` is the number of bits of the integer.
use Prim.Native.Nat.{bit_and, bit_or}
use wasm_kernel.Base.{
  ℕ, ◌-◌, ◌%◌, ◌==◌, ltb, leb, Bool, not, if◌then◌else◌, Outcome, returned, ◌>>=◌, ◌>>◌, assert,
  debug_assert,
}
use wasm_kernel.Memory.Math.{pow2}
use wasm_kernel.Bitfield.Word.{shl, shr, complement, leading_zeros, add, sub}

pub record Pack : Type 0 where
  pub mask : ℕ
  pub shift : ℕ

-- The bounds of a range.
pub data Bound : Type 0 where
  included : ℕ → Bound
  excluded : ℕ → Bound
  unbounded : Bound

module _ (debug : Bool) (size : ℕ) where
  unfoldable pub mk_mask : ℕ → ℕ
  unfolding pow2
  mk_mask n = if n == 0 then 0 else (let top = pow2 ((n - 1) % size) in bit_or top (top - 1))

  unfoldable pub least_significant : ℕ → Pack
  unfolding mk_mask
  least_significant n = record { mask = mk_mask n; shift = 0 }

  unfoldable pub from_mask : ℕ → Outcome Pack
  unfolding leading_zeros shr
  from_mask mask = do
    rest ← shr debug size mask (leading_zeros size mask)
    returned (record { mask = rest; shift = leading_zeros size mask })

  unfoldable pub starting_at : ℕ → ℕ → Outcome Pack
  unfolding mk_mask shl
  starting_at bit n = do
    mask ← shl debug size (mk_mask n) (bit - 1)
    returned (record { mask = mask; shift = bit - 1 })

  unfoldable pub from_const_range : ℕ → ℕ → Outcome Pack
  unfolding starting_at
  from_const_range first last = starting_at first (last - first)

  unfoldable pub start_of : Bound → Outcome ℕ
  unfolding add
  start_of (included bit) = returned bit
  start_of (excluded bit) = add debug bit 1
  start_of unbounded = returned 0

  unfoldable pub end_of : Bound → Outcome ℕ
  unfolding sub
  end_of (included bit) = returned bit
  end_of (excluded bit) = sub debug bit 1
  end_of unbounded = returned size

  unfoldable pub from_range : Bound → Bound → Outcome Pack
  unfolding starting_at start_of end_of
  from_range first last = do
    a ← start_of first
    assert (ltb a size)
    b ← end_of last
    assert (leb b size)
    debug_assert debug (leb a b)
    starting_at a (b - a)

  unfoldable pub shift_next : Pack → ℕ
  unfolding leading_zeros
  shift_next p = size - leading_zeros size p.mask

  unfoldable pub bits : Pack → Outcome ℕ
  unfolding leading_zeros shr
  bits p = do rest ← shr debug size p.mask p.shift; returned (size - leading_zeros size rest)

  -- The subtraction does not go below 0: the shift leaves at least 1.
  unfoldable pub max_value : Pack → Outcome ℕ
  unfolding bits shl
  max_value p = do n ← bits p; top ← shl debug size 1 n; returned (top - 1)

  unfoldable pub pack_truncating : Pack → ℕ → ℕ → Outcome ℕ
  unfolding max_value shl complement
  pack_truncating p value base = do
    most ← max_value p
    shifted ← shl debug size (bit_and value most) p.shift
    returned (bit_or (bit_and base (complement size p.mask)) shifted)

  -- `pack` of a value with the bits `value`
  unfoldable pub pack : Pack → ℕ → ℕ → Outcome ℕ
  unfolding max_value pack_truncating
  pack p value base = do most ← max_value p; assert (leb value most); pack_truncating p value base

  unfoldable pub next : Pack → ℕ → Outcome Pack
  unfolding shift_next mk_mask shl
  next p n = do
    mask ← shl debug size (mk_mask n) (shift_next p)
    returned (record { mask = mask; shift = shift_next p })

  unfoldable pub remaining : Pack → Outcome Pack
  unfolding shift_next next
  remaining p = next p (size - shift_next p)

  unfoldable pub set_all : Pack → ℕ → Outcome ℕ
  unfolding max_value pack_truncating
  set_all p base = do most ← max_value p; pack_truncating p most base

  unfoldable pub unset_all : Pack → ℕ → ℕ
  unfolding complement
  unset_all p base = bit_and base (complement size p.mask)

  unfoldable pub unpack_bits : Pack → ℕ → Outcome ℕ
  unfolding shr
  unpack_bits p src = shr debug size (bit_and src p.mask) p.shift

  unfoldable pub contained_in_any : Pack → ℕ → Bool
  contained_in_any p src = not (bit_and src p.mask == 0)

  unfoldable pub contained_in_all : Pack → ℕ → Bool
  contained_in_all p src = bit_and src p.mask == p.mask

  unfoldable pub most_significant_index : Pack → ℕ
  unfolding leading_zeros
  most_significant_index p = size - leading_zeros size p.mask

  unfoldable pub assert_valid : Pack → Outcome (Unit {0})
  unfolding bits most_significant_index sub add
  assert_valid p = do
    assert (ltb p.shift size)
    n ← bits p
    assert (leb n size)
    end ← add debug n p.shift
    assert (leb end size)
    width ← sub debug (most_significant_index p) p.shift
    assert (width == n)
