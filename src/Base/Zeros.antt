-- ===== src/Base/Zeros.antt =====
-- The loops `aggregate |= id[i]` of src/model.c, src/crypto.c and src/cbor_codec.c.
use Prim.Native.Nat.{ℕ, zero, suc, ◌+◌, ◌/◌, ◌≤◌, bit_or}
use mathlib.Core.Path.{◌≡◌, refl, ap, ◌∙◌}
use mathlib.Core.Logic.{◌↔◌}
use mathlib.Core.Bool.{Bool, true}
use mathlib.Core.List.{List, [], ◌∷◌}
use native.Mathlib.Omega.{arith}
use pvault.Base.Tests.{◌==◌, ==_iff}
use pvault.Base.Lists.{All}
use pvault.Base.Bits.{bit_or_step, bit_or-zero, zero-bit_or}

-- `for (i = 0; i < len; ++i) aggregate |= id[i];`
aggregate_from : ℕ → List ℕ → ℕ
aggregate_from acc [] = acc
aggregate_from acc (b ∷ bs) = aggregate_from (bit_or acc b) bs

-- `id_is_zero` and `bytes_all_zero`
unfoldable pub id_is_zero : List ℕ → Bool
unfolding aggregate_from
id_is_zero id = aggregate_from 0 id == 0

bit_or_fuel : (n a b : ℕ) → a ≤ n → b ≤ n → bit_or a b ≡ 0 → (a ≡ 0) × (b ≡ 0)
bit_or_fuel zero a b p q h = (omega arith, omega arith)
bit_or_fuel (suc n) zero b p q h = (refl, omega (arith, zero-bit_or b))
bit_or_fuel (suc n) (suc a) zero p q h = (omega (arith, bit_or-zero (suc a)), refl)
bit_or_fuel (suc n) (suc a) (suc b) p q h =
    let half : bit_or (suc a / 2) (suc b / 2) ≡ 0 = omega (arith, bit_or_step (suc a) (suc b)) in
    let (x, y) = bit_or_fuel n (suc a / 2) (suc b / 2) (omega arith) (omega arith) half in
    (omega (arith, bit_or_step (suc a) (suc b)), omega (arith, bit_or_step (suc a) (suc b)))

bit_or-eq-zero : (a b : ℕ) → bit_or a b ≡ 0 → (a ≡ 0) × (b ≡ 0)
bit_or-eq-zero a b = bit_or_fuel (a + b) a b (omega arith) (omega arith)

aggregate-zero :
    (acc : ℕ) (bs : List ℕ) → aggregate_from acc bs ≡ 0 → (acc ≡ 0) × All (λ b. b ≡ 0) bs
unfolding aggregate_from
aggregate-zero acc [] h = (h, tt)
aggregate-zero acc (b ∷ bs) h =
    let (x, y) = aggregate-zero (bit_or acc b) bs h in
    let (p, q) = bit_or-eq-zero acc b x in (p, (q, y))

zero-aggregate : (bs : List ℕ) → All (λ b. b ≡ 0) bs → aggregate_from 0 bs ≡ 0
unfolding aggregate_from
zero-aggregate [] h = refl
zero-aggregate (b ∷ bs) (h, hs) =
    ap (λ t. aggregate_from t bs) (zero-bit_or b ∙ h) ∙ zero-aggregate bs hs

-- The test holds exactly of the arrays of zero bytes.
pub id_is_zero_iff : (bs : List ℕ) → (id_is_zero bs ≡ true) ↔ All (λ b. b ≡ 0) bs
unfolding id_is_zero
id_is_zero_iff bs =
    (λ h. (aggregate-zero 0 bs ((==_iff _ 0).0 h)).1, λ h. (==_iff _ 0).1 (zero-aggregate bs h))
