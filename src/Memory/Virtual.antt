-- ===== src/Memory/Virtual.antt =====
-- `VAddr::from_usize_checked` of hal-core/src/addr.rs, for x86-64.
use wasm_kernel.Base.{ℕ, ◌+◌, ◌-◌, ◌%◌, ◌^◌, ◌==◌, ltb, if◌then◌else◌}
use mathlib.Core.Option.{Option, none, some}

-- Bit 47 in the bits above it: shifts by 16 to the left and, as an `i64`, back.
abbrev pub sign_extend : ℕ → ℕ
sign_extend u = if ltb (u % 2 ^ 48) (2 ^ 47) then u % 2 ^ 48 else u % 2 ^ 48 + (2 ^ 64 - 2 ^ 48)

-- `none` is the error `InvalidAddress`.
unfoldable pub from_usize_checked : ℕ → Option ℕ
from_usize_checked u = if u == sign_extend u then some u else none
