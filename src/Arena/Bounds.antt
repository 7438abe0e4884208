-- ===== src/Arena/Bounds.antt =====
-- What the bump allocator of src/arena.c answers, in plain arithmetic.
use pvault.Arena.{Arena, block_at, arena_alloc}
use pvault.Base.{
  ℕ, ◌+◌, ◌-◌, ◌*◌, ◌%◌, ◌/◌, ◌^◌, ◌≤◌, ◌<◌, ◌≡◌, ap, ◌∙◌, false, not, ◌||◌, none, some, bit_and,
  ltb, ◌==◌, if◌then◌else◌, arith,
}
use pvault.Base.Bits.{and_not, bit_and_mask, pow_pos}
use native.Mathlib.Nat.{div-add-mod', mod-lt, mul-mod_left, pow-le-pow_right}
use pvault.Header.{max_plaintext}
use pvault.Util.{size_add, size_max}

-- An arena that `pv_arena_init` made and that only `pv_arena_alloc` moved.
pub record IsArena (arena : Arena) : Type 0 where
  pub inside : arena.used ≤ arena.capacity
  pub small : arena.capacity ≤ max_plaintext

-- The least multiple of `unit` from `offset` on.
abbrev pub round_up : ℕ → ℕ → ℕ
round_up offset unit = (offset + (unit - 1)) - (offset + (unit - 1)) % unit

-- A number without its remainder.
floor_bounds :
    (x unit : ℕ)
    → 0 < unit
    → (x - x % unit ≤ x) × (x < x - x % unit + unit) × ((x - x % unit) % unit ≡ 0)
floor_bounds x unit h =
    let whole : x - x % unit ≡ x / unit * unit = omega (arith, div-add-mod' x unit) in
    (
      omega arith,
      grind (arith, mod-lt x h),
      ap (λ (t : ℕ). t % unit) whole ∙ mul-mod_left (x / unit) unit,
    )

pub round_up_bounds :
    (offset unit : ℕ)
    → 0 < unit
    → (offset ≤ round_up offset unit)
      × (round_up offset unit < offset + unit)
      × (round_up offset unit % unit ≡ 0)
round_up_bounds offset unit h =
    let (a, b, c) = floor_bounds (offset + (unit - 1)) unit h in (omega arith, omega arith, c)

module _ (k : ℕ) where
  power_of_two : bit_and (2 ^ k) (2 ^ k - 1) ≡ 0
  power_of_two = bit_and_mask k (2 ^ k) ∙ grind (arith, pow_pos k)

  and_not-mask : (x : ℕ) → and_not x (2 ^ k - 1) ≡ x - x % 2 ^ k
  and_not-mask x = ap (λ (t : ℕ). x - t) (bit_and_mask k x)

block_at_lem :
    (k size used : ℕ)
    → k ≤ 32
    → used ≤ max_plaintext
    → block_at used size (2 ^ k) ≡ (
        let start = round_up used (2 ^ k) in
        if ltb (size_max - start) size then none else some (start, start + size))
unfolding block_at
block_at_lem k size used small room =
    let unit_small : 2 ^ k ≤ 2 ^ 32 = pow-le-pow_right (omega arith) small in
    let raised : size_add used (2 ^ k - 1) ≡ some (used + (2 ^ k - 1)) =
      unfold size_add in ground arith in
    rw (raised, block_at, and_not-mask k (used + (2 ^ k - 1)))
      (unfold size_add in ground (arith, and_not-mask k (used + (2 ^ k - 1))))

-- For an alignment 2^k, k at most 32, and an arena within its bounds, pv_arena_alloc rounds the
-- mark up to the alignment and puts the block there; it answers NULL exactly without an arena, in
-- a read-only one, for no bytes, or past the capacity.
pub arena_alloc_lem :
    (k size : ℕ) (arena : Arena)
    → k ≤ 32
    → IsArena arena
    → arena_alloc size (2 ^ k) arena ≡ (
        let start = round_up arena.used (2 ^ k) in
        if not arena.allocated || arena.readonly || size == 0 || ltb arena.capacity (start + size)
        then none
        else some (start, record arena { used = start + size }))
unfolding arena_alloc
arena_alloc_lem k size arena small a =
    let unit : (2 ^ k == 0) ≡ false = ground (arith, pow_pos k) in
    rw
      (
        power_of_two k,
        unit,
        arena_alloc,
        block_at_lem k size arena.used small (omega (arith, a.inside, a.small)),
      )
      (ground (arith, a.inside, a.small))
