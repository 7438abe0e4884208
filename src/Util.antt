-- ===== src/Util.antt =====
-- src/util.c: checked sums and products of sizes, and (in the modules below) UTF-8, hexadecimal and
-- text search; src/pvault_internal.h: slices.
pub mod Slice
pub mod Sizes
pub mod Utf8
pub mod Codepoint
pub mod Widths
pub mod Sanitize
pub mod Hex
pub mod HexBack
pub mod Search
pub mod Found
pub mod Encoding
pub mod Agree
pub mod Begins
pub mod Valid
pub mod Tests
use pvault.Base.{
  ℕ, ◌+◌, ◌-◌, ◌*◌, ◌/◌, ◌^◌, ◌≤◌, ◌<◌, ◌≡◌, ◌↔◌, not, ◌&&◌, Option, none, some, ltb, ◌==◌,
  if◌then◌else◌, arith,
}

-- SIZE_MAX on a platform with 64-bit sizes
abbrev pub size_max : ℕ
size_max = 2 ^ 64 - 1

-- `pv_size_add`; `none` is the answer `false`.
unfoldable pub size_add : ℕ → ℕ → Option ℕ
size_add a b = if ltb (size_max - a) b then none else some (a + b)

-- `pv_size_mul`
unfoldable pub size_mul : ℕ → ℕ → Option ℕ
size_mul a b = if not (a == 0) && ltb (size_max / a) b then none else some (a * b)
