-- ===== src/Base/Bits.antt =====
-- The bit operations of the source as arithmetic, at every width.
use Prim.Native.Nat.{
  ℕ, zero, suc, ◌+◌, ◌-◌, ◌*◌, ◌/◌, ◌%◌, ◌^◌, ◌≤◌, ◌<◌, min, max, bit_and, bit_or, digits,
  bit_and-bitwise, bit_or-bitwise,
}
use mathlib.Core.Path.{◌≡◌, refl, ap, sym, ◌∙◌}
use native.Mathlib.Omega.{arith}
use native.Mathlib.Nat.{pow-suc, mod-lt, div-add-mod'}

-- `x & ~m`: the bits of x that m does not have.
abbrev pub and_not : ℕ → ℕ → ℕ
and_not x m = x - bit_and x m

-- Both operations go through the binary digits. A surplus of rounds changes nothing.
module _ (rest : ℕ → ℕ) (op : ℕ → ℕ → ℕ) where
  surplus :
      (rounds more left right : ℕ)
      → left ≤ rounds
      → rounds ≤ more
      → digits rest op more left right ≡ digits rest op rounds left right
  surplus zero zero left right fits longer = refl
  surplus zero (suc more) zero right fits longer = refl
  surplus zero (suc more) (suc left) right fits longer = absurd (omega arith)
  surplus (suc rounds) zero left right fits longer = absurd (omega arith)
  surplus (suc rounds) (suc more) zero right fits longer = refl
  surplus (suc rounds) (suc more) (suc left) right fits longer =
      ap (λ (t : ℕ). t * 2 + op (suc left % 2) (right % 2))
        (surplus rounds more (suc left / 2) (right / 2) (omega arith) (omega arith))

  -- The last digit, and the digits before it.
  last_digit :
      (left right : ℕ)
      → digits rest op (suc left) (suc left) right
        ≡ digits rest op (suc left / 2) (suc left / 2) (right / 2) * 2
          + op (suc left % 2) (right % 2)
  last_digit left right =
      ap (λ (t : ℕ). t * 2 + op (suc left % 2) (right % 2))
        (surplus (suc left / 2) left (suc left / 2) (right / 2) (omega arith) (omega arith))

none_and : (right : ℕ) → bit_and 0 right ≡ 0
none_and right = bit_and-bitwise 0 right

pub zero-bit_or : (right : ℕ) → bit_or 0 right ≡ right
zero-bit_or right = bit_or-bitwise 0 right

pub bit_and_step :
    (left right : ℕ)
    → bit_and left right ≡ bit_and (left / 2) (right / 2) * 2 + min (left % 2) (right % 2)
bit_and_step zero right = omega (arith, none_and right, none_and (right / 2))
bit_and_step (suc left) right =
    bit_and-bitwise (suc left) right
    ∙ last_digit (λ b. zero) min left right
    ∙ ap (λ (t : ℕ). t * 2 + min (suc left % 2) (right % 2))
        (sym (bit_and-bitwise (suc left / 2) (right / 2)))

pub bit_or_step :
    (left right : ℕ)
    → bit_or left right ≡ bit_or (left / 2) (right / 2) * 2 + max (left % 2) (right % 2)
bit_or_step zero right = omega (arith, zero-bit_or right, zero-bit_or (right / 2))
bit_or_step (suc left) right =
    bit_or-bitwise (suc left) right
    ∙ last_digit (λ b. b) max left right
    ∙ ap (λ (t : ℕ). t * 2 + max (suc left % 2) (right % 2))
        (sym (bit_or-bitwise (suc left / 2) (right / 2)))

-- Nothing on the right, by halving as often as there are rounds.
right_zero : (rounds left : ℕ) → left ≤ rounds → (bit_and left 0 ≡ 0) × (bit_or left 0 ≡ left)
right_zero rounds zero fits = (refl, refl)
right_zero zero (suc left) fits = absurd (omega arith)
right_zero (suc rounds) (suc left) fits =
    let (meet, join) = right_zero rounds (suc left / 2) (omega arith) in
    (omega (arith, bit_and_step (suc left) 0), omega (arith, bit_or_step (suc left) 0))

pub bit_and-zero : (left : ℕ) → bit_and left 0 ≡ 0
bit_and-zero left = (right_zero left left (omega arith)).0

pub bit_or-zero : (left : ℕ) → bit_or left 0 ≡ left
bit_or-zero left = (right_zero left left (omega arith)).1

pub pow_pos : (k : ℕ) → 0 < 2 ^ k
pow_pos zero = omega arith
pow_pos (suc k) = omega (arith, pow_pos k, pow-suc 2 k)

double : (k q : ℕ) → q * 2 ^ suc k ≡ q * 2 ^ k * 2
double k q = omega (arith, ap (λ (t : ℕ). q * t) (pow-suc 2 k))

-- `(q << k) | r` where r has at most k bits.
pub bit_or_low : (k q r : ℕ) → r < 2 ^ k → bit_or (q * 2 ^ k) r ≡ q * 2 ^ k + r
bit_or_low zero q r h =
    let e : r ≡ 0 = omega arith in
    omega (arith, ap (λ (t : ℕ). bit_or (q * 1) t) e, bit_or-zero (q * 1))
bit_or_low (suc k) q r h =
    ground (arith, double k q, pow-suc 2 k, bit_or_step (q * 2 ^ suc k) r, bit_or_low k q (r / 2))

-- `r | (q << k)`, the other way round.
pub bit_or_high : (k q r : ℕ) → r < 2 ^ k → bit_or r (q * 2 ^ k) ≡ r + q * 2 ^ k
bit_or_high zero q r h =
    let e : r ≡ 0 = omega arith in
    omega (arith, ap (λ (t : ℕ). bit_or t (q * 1)) e, zero-bit_or (q * 1))
bit_or_high (suc k) q r h =
    ground (arith, double k q, pow-suc 2 k, bit_or_step r (q * 2 ^ suc k), bit_or_high k q (r / 2))

mask_fields : (k q r : ℕ) → r < 2 ^ k → bit_and (q * 2 ^ k + r) (2 ^ k - 1) ≡ r
mask_fields zero q r h = omega (arith, bit_and-zero (q * 1 + r))
mask_fields (suc k) q r h = ground (
  arith,
  double k q,
  pow-suc 2 k,
  pow_pos k,
  bit_and_step (q * 2 ^ suc k + r) (2 ^ suc k - 1),
  mask_fields k q (r / 2),
)

-- `x & (2^k - 1)`
pub bit_and_mask : (k x : ℕ) → bit_and x (2 ^ k - 1) ≡ x % 2 ^ k
bit_and_mask k x =
    sym (ap (λ (t : ℕ). bit_and t (2 ^ k - 1)) (div-add-mod' x (2 ^ k)))
    ∙ mask_fields k (x / 2 ^ k) (x % 2 ^ k) (mod-lt x (pow_pos k))
