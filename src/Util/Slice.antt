-- ===== src/Util/Slice.antt =====
-- src/pvault_internal.h: `pv_slice`, and the arrays that a record holds with a count. Both are a
-- pointer with a length: `null n` is a NULL pointer with length n, `view xs` points to the items.
use pvault.Base.{ℕ, ◌≡◌, refl, arith, Bool, false, not, List, [], length, ◌==◌}

pub data Span {ℓ} (A : Type ℓ) : Type ℓ where
  null : ℕ → Span A
  view : List A → Span A

abbrev pub Slice : Type 0
Slice = Span ℕ

module _ {ℓ} {A : Type ℓ} where
  abbrev pub len : Span A → ℕ
  len (null n) = n
  len (view xs) = length xs

  abbrev pub items : Span A → List A
  items (null n) = []
  items (view xs) = xs

  -- `data == NULL && len != 0`
  abbrev pub dangling : Span A → Bool
  dangling (null n) = not (n == 0)
  dangling (view xs) = false

pub length-items {ℓ} : {A : Type ℓ} (xs : Span A) → dangling xs ≡ false → length (items xs) ≡ len xs
length-items (null n) d = ground arith
length-items (view xs) d = refl
