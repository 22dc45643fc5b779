-- ===== src/Bitfield/Examples.antt =====
-- Packers of 64 bits.
use wasm_kernel.Base.{ℕ, ◌/◌, ◌%◌, ◌<◌, ◌≤◌, ◌≡◌, refl, true, returned, panicked, arith}
use wasm_kernel.Memory.Math.{pow2, bit_length}
use wasm_kernel.Bitfield.Word.{shl, shr, leading_zeros, add, sub}
use wasm_kernel.Bitfield.Pack.{
  Pack, Bound, mk_mask, from_mask, starting_at, from_const_range, start_of, end_of, from_range,
  bits, pack, shift_next, unpack_bits, assert_valid, most_significant_index,
}
use wasm_kernel.Bitfield.Spec.{Spans}
use wasm_kernel.Bitfield.Packed.{pack-unpack_bits}
use wasm_kernel.Bitfield.Pair.{pair_with, pair_at, pair_after, pack_from_dst, pack_from_src}
use wasm_kernel.Bitfield.Moving.{Moves, pair_with-Moves}

-- The packers of the module's example.
abbrev low : Pack
low = record { mask = 0xfff; shift = 0 }

abbrev middle : Pack
middle = record { mask = 0xff000; shift = 12 }

abbrev whole : Pack
whole = record { mask = 0xffff_ffff_ffff_ffff; shift = 0 }

low-Spans : Spans 64 12 0 low
unfolding pow2
low-Spans = record { mask = refl; shift = refl; some_bits = omega arith; fits = omega arith }

middle-Spans : Spans 64 8 12 middle
unfolding pow2
middle-Spans = record { mask = refl; shift = refl; some_bits = omega arith; fits = omega arith }

whole-Spans : Spans 64 64 0 whole
unfolding pow2
whole-Spans = record { mask = refl; shift = refl; some_bits = omega arith; fits = omega arith }

small : 0xfe_ed00_0000 < pow2 64
unfolding pow2
small = omega arith

pack-unpack_bits_example :
    (0xf < pow2 8
      → (r : ℕ) × (pack true 64 middle 0xf 0xfe_ed00_0000 ≡ returned r)
        × (unpack_bits true 64 middle r ≡ returned 0xf)
        × (r < pow2 64)
        × (r / pow2 20 ≡ 0xfe_ed00_0000 / pow2 20)
        × (r % pow2 12 ≡ 0xfe_ed00_0000 % pow2 12))
    × (pow2 8 ≤ 0xf → pack true 64 middle 0xf 0xfe_ed00_0000 ≡ panicked)
pack-unpack_bits_example =
    pack-unpack_bits true 64 8 12 middle middle-Spans (omega arith) 0xf 0xfe_ed00_0000 small

abbrev nibble : Pack
nibble = record { mask = 0xf0; shift = 4 }

abbrev higher : Pack
higher = record { mask = 0xf000; shift = 12 }

nibble-Spans : Spans 64 4 4 nibble
unfolding pow2
nibble-Spans = record { mask = refl; shift = refl; some_bits = omega arith; fits = omega arith }

higher-Spans : Spans 64 4 12 higher
unfolding pow2
higher-Spans = record { mask = refl; shift = refl; some_bits = omega arith; fits = omega arith }

pair_with-Moves_example :
    ((r : ℕ) × (pack_from_dst true 64 (pair_with nibble higher) 0xabcd 0x1234 ≡ returned r)
      × Moves true 64 4 12 nibble higher 0xabcd 0x1234 r)
    × ((r : ℕ) × (pack_from_src true 64 (pair_with nibble higher) 0xabcd 0x1234 ≡ returned r)
        × Moves true 64 4 4 higher nibble 0x1234 0xabcd r)
pair_with-Moves_example =
    pair_with-Moves true 64 4 4 12 nibble higher nibble-Spans higher-Spans (omega arith) 0xabcd
      0x1234 src_fits dst_fits
  where
    src_fits : 0xabcd < pow2 64
    src_fits = omega (arith, small)

    dst_fits : 0x1234 < pow2 64
    dst_fits = omega (arith, small)

-- The packer from a mask counts the zeros at its wrong end, and spans nothing.
masked : from_mask true 64 0xff00 ≡ returned (record { mask = 0; shift = 48 })
unfolding from_mask shr leading_zeros bit_length pow2
masked = refl

-- A range without an end leaves out the top bit, and a range that excludes its end its last bit.
open_range :
    from_range true 64 (Bound.included 33) Bound.unbounded
    ≡ returned (record { mask = 0x7fff_ffff_0000_0000; shift = 32 })
unfolding from_range start_of end_of starting_at mk_mask shl pow2
open_range = refl

byte_range :
    (from_range true 64 (Bound.included 0) (Bound.excluded 8)
      ≡ returned (record { mask = 0x7f; shift = 0 }))
    × (from_const_range true 64 0 8 ≡ returned (record { mask = 0xff; shift = 0 }))
unfolding from_range from_const_range start_of end_of starting_at mk_mask shl pow2 sub
byte_range = (refl, refl)

-- The pair after a packer starts with that packer's last bit.
overlapping :
    pair_after true 64 (record { mask = 0xf; shift = 0 }) (record { mask = 0xff; shift = 0 })
    ≡ returned (record {
      src = record { mask = 0xf; shift = 0 };
      dst = record { mask = 0x780; shift = 7 };
      dst_shl = 7;
      dst_shr = 0;
    })
unfolding pair_after pair_at pair_with bits starting_at mk_mask shl shr pow2 shift_next
    leading_zeros bit_length
overlapping = refl

valid : assert_valid true 64 middle ≡ returned tt
unfolding assert_valid bits shr leading_zeros bit_length pow2 most_significant_index add sub
valid = refl
