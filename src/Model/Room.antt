-- ===== src/Model/Room.antt =====
-- The copies of src/model.c in an arena that has room for them: what they store, and how much of
-- the arena they take at most.
use pvault.Arena.{Arena, arena_alloc, alloc_or_limit, arena_copy}
use pvault.Arena.Bounds.{IsArena, round_up, round_up_bounds, arena_alloc_lem}
use pvault.Base.Bits.{pow_pos}
use pvault.Base.{
  ℕ, ◌+◌, ◌-◌, ◌^◌, ◌≤◌, ◌≡◌, ◌≢◌, refl, ap, ◌∙◌, Bool, true, false, List, [], ◌∷◌, All, length,
  ltb, arith, map, some,
}
use pvault.Status.{Status}
use pvault.Exec.{refuse_if, Exec, ◌>>=◌, pure, proceed}
use pvault.Model.Copy.{copy_slice_loop}
use pvault.Model.Valid.{IsBlob}
use pvault.Result.{ok}
use pvault.Util.Slice.{Slice, Span, null, view, len}

-- An arena that takes allocations.
pub record IsOpen (a : Arena) : Type 0 where
  pub bounds : IsArena a
  pub allocated : a.allocated ≡ true
  pub writable : a.readonly ≡ false

-- `b` is `a` after allocations that took `cost` bytes at most.
pub record Grew (cost : ℕ) (a b : Arena) : Type 0 where
  pub opened : IsOpen b
  pub capacity : b.capacity ≡ a.capacity
  pub low : a.used ≤ b.used
  pub high : b.used ≤ a.used + cost

abbrev pub Outcome {ℓ} : {A : Type ℓ} → Exec Arena A → A → ℕ → Arena → Type ℓ
Outcome m value cost a = (b : Arena) × (m a ≡ (ok value, b)) × Grew cost a b

-- With `cost` bytes left, `m` returns `value`.
pub record Gives {ℓ} {A : Type ℓ} (m : Exec Arena A) (value : A) (cost : ℕ) : Type ℓ where
  pub at : (a : Arena) → IsOpen a → a.used + cost ≤ a.capacity → Outcome m value cost a

pub Gives-pure {ℓ} : {A : Type ℓ} (value : A) → Gives (pure value) value 0
Gives-pure value = record {
  at = λ a o h.
      (a, refl, record { opened = o; capacity = refl; low = omega arith; high = omega arith });
}

pub Gives-refuse_if : {test : Bool} (e : Status) → test ≡ false → Gives (refuse_if test e) tt 0
Gives-refuse_if e h = rw h (Gives-pure tt)

pub Gives-bind {ℓ κ} :
    {A : Type ℓ} {B : Type κ} {m : Exec Arena A} {x : A} {y : B} {c d : ℕ} (f : A → Exec Arena B)
    → Gives m x c
    → Gives (f x) y d
    → Gives (m >>= f) y (c + d)
Gives-bind {c = c} {d = d} f p q = record {
  at = λ a o h.
      let (b, e, g) = p.at a o (omega arith) in
      let (b', e', g') = q.at b g.opened (omega (arith, g.high, g.capacity)) in
      (
        b',
        ap (λ t. proceed t f) e ∙ e',
        record {
          opened = g'.opened;
          capacity = g'.capacity ∙ g.capacity;
          low = omega (arith, g.low, g'.low);
          high = omega (arith, g.high, g'.high);
        },
      );
}

-- An upper bound may be larger.
pub Gives-le {ℓ} :
    {A : Type ℓ} {m : Exec Arena A} {x : A} (c : ℕ) {d : ℕ} → Gives m x c → c ≤ d → Gives m x d
Gives-le c p le = record {
  at = λ a o h.
      let (b, e, g) = p.at a o (omega arith) in
      (
        b,
        e,
        record {
          opened = g.opened;
          capacity = g.capacity;
          low = g.low;
          high = omega (arith, g.high);
        },
      );
}

-- An allocation takes its size and the padding.
alloc_open :
    (k size : ℕ) (a : Arena)
    → k ≤ 32
    → size ≢ 0
    → IsOpen a
    → a.used + (size + (2 ^ k - 1)) ≤ a.capacity
    → (start : ℕ) × (b : Arena) × (alloc_or_limit size (2 ^ k) a ≡ (ok start, b))
      × Grew (size + (2 ^ k - 1)) a b
unfolding alloc_or_limit
alloc_open k size a small some_bytes o h =
    let (low, high, aligned) = round_up_bounds a.used (2 ^ k) (pow_pos k) in
    let start = round_up a.used (2 ^ k) in
    let b : Arena = record a { used = start + size } in
    let e : arena_alloc size (2 ^ k) a ≡ some (start, b) =
      arena_alloc_lem k size a small o.bounds ∙ ground (arith, o.allocated, o.writable) in
    (
      start,
      b,
      rw (e, alloc_or_limit),
      record {
        opened = record {
          bounds = record { inside = omega arith; small = o.bounds.small };
          allocated = o.allocated;
          writable = o.writable;
        };
        capacity = refl;
        low = omega arith;
        high = omega arith;
      },
    )

-- The callers do not look at where the block lies.
pub Gives-alloc {ℓ} :
    {A : Type ℓ} {y : A} {d : ℕ} (k size : ℕ) (rest : Exec Arena A)
    → k ≤ 32
    → size ≢ 0
    → Gives rest y d
    → Gives (alloc_or_limit size (2 ^ k) >>= λ block. rest) y (size + (2 ^ k - 1) + d)
Gives-alloc k size rest small some_bytes q = record {
  at = λ a o h.
      let (start, b, e, g) = alloc_open k size a small some_bytes o (omega arith) in
      let (b', e', g') = q.at b g.opened (omega (arith, g.high, g.capacity)) in
      (
        b',
        ap (λ t. proceed t (λ block. rest)) e ∙ e',
        record {
          opened = g'.opened;
          capacity = g'.capacity ∙ g.capacity;
          low = omega (arith, g.low, g'.low);
          high = omega (arith, g.high, g'.high);
        },
      );
}

-- How the arena keeps a slice: an empty one is a NULL pointer.
abbrev pub stored {ℓ} : {A : Type ℓ} → Span A → Span A
stored (null n) = null 0
stored (view []) = null 0
stored (view (x ∷ xs)) = view (x ∷ xs)

-- Upper bounds for what copies take of the arena.
abbrev pub slices_cost : List Slice → ℕ
slices_cost [] = 0
slices_cost (x ∷ xs) = len x + 1 + slices_cost xs

pub Gives-copy :
    (maximum : ℕ) (source : Slice)
    → IsBlob maximum source
    → Gives (arena_copy maximum source) (stored source) (len source + 1)
unfolding arena_copy
Gives-copy maximum (null n) v = record {
  at = λ a o h. (
    a,
    ground (arith, v.sound, v.fits),
    record { opened = o; capacity = refl; low = omega arith; high = omega arith },
  );
}
Gives-copy maximum (view []) v = record {
  at = λ a o h. (
    a,
    ground (arith, v.sound, v.fits),
    record { opened = o; capacity = refl; low = omega arith; high = omega arith },
  );
}
Gives-copy maximum (view (x ∷ xs)) v = record {
  at = λ a o h.
      let (start, b, e, g) =
        alloc_open 0 (length (x ∷ xs) + 1) a (omega arith) (omega arith) o (omega arith) in
      let short : ltb maximum (length (x ∷ xs)) ≡ false = ground (arith, v.fits) in
      (
        b,
        ground (arith, short, e),
        record {
          opened = g.opened;
          capacity = g.capacity;
          low = g.low;
          high = omega (arith, g.high);
        },
      );
}

pub Gives-copies :
    (maximum : ℕ) (sources : List Slice)
    → All (IsBlob maximum) sources
    → Gives (copy_slice_loop maximum sources) (map stored sources) (slices_cost sources)
unfolding copy_slice_loop
Gives-copies maximum [] h = Gives-pure []
Gives-copies maximum (x ∷ xs) (h, hs) = Gives-bind _ (Gives-copy maximum x h) (
    Gives-le (slices_cost xs + 0)
      (Gives-bind _ (Gives-copies maximum xs hs) (Gives-pure (stored x ∷ map stored xs)))
      (omega arith))
