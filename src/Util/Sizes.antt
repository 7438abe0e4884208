-- ===== src/Util/Sizes.antt =====
-- The checked sums and products of sizes of src/util.c against exact arithmetic.
use native.Mathlib.Nat.{le-div_iff_mul-le, mul_comm}
use pvault.Base.{
  ℕ, zero, suc, ◌+◌, ◌*◌, ◌/◌, ◌≤◌, ◌≡◌, ◌↔◌, none, some, leb, ltb, if◌then◌else◌, arith, inl, inr,
  Bool-cases,
}
use pvault.Util.{size_add, size_mul, size_max}

pub size_add_lem :
    (a b : ℕ) → a ≤ size_max → size_add a b ≡ (if leb (a + b) size_max then some (a + b) else none)
unfolding size_add
size_add_lem a b h = ground arith

pub size_mul_lem : (a b : ℕ) → size_mul a b ≡ (if leb (a * b) size_max then some (a * b) else none)
unfolding size_mul
size_mul_lem zero b = ground arith
size_mul_lem (suc a) b =
    let quotient : (b ≤ size_max / suc a) ↔ (b * suc a ≤ size_max) =
      le-div_iff_mul-le (omega arith) in
    elim (Bool-cases (ltb (size_max / suc a) b)) [
      | inl big ↦ ground (arith, quotient, mul_comm b (suc a))
      | inr small ↦ ground (arith, quotient, mul_comm b (suc a))
    ]

-- For a size a, pv_size_add and pv_size_mul answer the exact sum and product where it is a size,
-- and refuse exactly where it is not.
pub sizes_exact :
    (a b : ℕ)
    → a ≤ size_max
    → (size_add a b ≡ (if leb (a + b) size_max then some (a + b) else none))
      × (size_mul a b ≡ (if leb (a * b) size_max then some (a * b) else none))
sizes_exact a b h = (size_add_lem a b h, size_mul_lem a b)
