-- ===== src/Model/Settles.antt =====
-- The copies of src/model.c in any arena: they return the copy, or `limit`, and keep the arena's
-- invariant.
use pvault.Arena.{Arena, arena_alloc, alloc_or_limit, arena_copy}
use pvault.Arena.Bounds.{IsArena}
use pvault.Arena.Blocks.{alloc_block}
use pvault.Base.{
  ℕ, suc, ◌+◌, ◌^◌, ◌≤◌, ◌≡◌, refl, ◌∙◌, ◌⊎◌, inl, inr, Bool, true, false, [], ◌∷◌, length, ltb,
  ◌==◌, arith, Option-cases,
}
use pvault.Exec.{Exec, ◌>>=◌, pure, proceed, refuse_if}
use pvault.Model.Room.{stored}
use pvault.Model.Valid.{IsBlob}
use pvault.Result.{Result, ok, err}
use pvault.Status.{Status, limit}
use pvault.Util.Slice.{Slice, null, view}

-- The invariant stays, and nothing but the mark moves.
pub record Moved (a b : Arena) : Type 0 where
  pub bounds : IsArena b
  pub allocated : b.allocated ≡ a.allocated
  pub readonly : b.readonly ≡ a.readonly
  pub capacity : b.capacity ≡ a.capacity

Moved-trans : {a b c : Arena} → Moved a b → Moved b c → Moved a c
Moved-trans p q = record {
  bounds = q.bounds;
  allocated = q.allocated ∙ p.allocated;
  readonly = q.readonly ∙ p.readonly;
  capacity = q.capacity ∙ p.capacity;
}

abbrev pub OkOrLimit {ℓ} : {A : Type ℓ} → Result A → A → Type ℓ
OkOrLimit r x = (r ≡ ok x) ⊎ (r ≡ err limit)

pub record Settles {ℓ} {A : Type ℓ} (m : Exec Arena A) (x : A) : Type ℓ where
  pub at : (a : Arena) → IsArena a → Moved a (m a).1 × OkOrLimit (m a).0 x

unmoved : {a : Arena} → IsArena a → Moved a a
unmoved i = record { bounds = i; allocated = refl; readonly = refl; capacity = refl }

pub Settles-pure {ℓ} : {A : Type ℓ} (x : A) → Settles (pure x) x
Settles-pure x = record { at = λ a i. (unmoved i, inl refl) }

pub Settles-refuse_if : {test : Bool} (e : Status) → test ≡ false → Settles (refuse_if test e) tt
Settles-refuse_if e h = rw h (Settles-pure tt)

module _ {ℓ κ} {A : Type ℓ} {B : Type κ} where
  continue :
      (f : A → Exec Arena B) (x : A) (y : B) (a b : Arena) (r : Result A)
      → Moved a b
      → OkOrLimit r x
      → Settles (f x) y
      → Moved a (proceed (r, b) f).1 × OkOrLimit (proceed (r, b) f).0 y
  continue f x y a b (ok z) m (inl e) q =
      let same : z ≡ x = cc in let (moved, s) = q.at b m.bounds in rw same (Moved-trans m moved, s)
  continue f x y a b (ok z) m (inr e) q = cc
  continue f x y a b (err s) m (inl e) q = cc
  continue f x y a b (err s) m (inr e) q = (m, inr (cc))

  pub Settles-bind :
      {m : Exec Arena A} {x : A} {y : B} (f : A → Exec Arena B)
      → Settles m x
      → Settles (f x) y
      → Settles (m >>= f) y
  Settles-bind {m} {x} {y} f p q = record {
    at = λ a i. let (moved, r) = p.at a i in continue f x y a (m a).1 (m a).0 moved r q;
  }

-- The callers of `alloc_or_limit` do not look at where the block lies.
block_limit :
    (k size : ℕ) (a : Arena)
    → k ≤ 32
    → IsArena a
    → Moved a (alloc_or_limit size (2 ^ k) a).1
      × (((start : ℕ) × ((alloc_or_limit size (2 ^ k) a).0 ≡ ok start))
          ⊎ ((alloc_or_limit size (2 ^ k) a).0 ≡ err limit))
unfolding alloc_or_limit
block_limit k size a small i = elim (Option-cases (arena_alloc size (2 ^ k) a)) [
  | inl e ↦ rw (e, alloc_or_limit) (unmoved i, inr refl)
  | inr ((start, b), e) ↦
      let (low, aligned, some_bytes, high, same) = alloc_block k size a start b small i e in
      rw (e, alloc_or_limit)
        (
          rw same (record {
            bounds = record { inside = high; small = i.small };
            allocated = refl;
            readonly = refl;
            capacity = refl;
          }),
          inl (start, refl),
        )
]

pub Settles-alloc {ℓ} :
    {A : Type ℓ} {y : A} (k size : ℕ) (rest : Exec Arena A)
    → k ≤ 32
    → Settles rest y
    → Settles (alloc_or_limit size (2 ^ k) >>= λ block. rest) y
Settles-alloc {A = A} {y} k size rest small q = record { at = λ a i. go a i }
  where
    then_rest :
        (a b : Arena) (r : Result ℕ)
        → Moved a b
        → ((start : ℕ) × (r ≡ ok start)) ⊎ (r ≡ err limit)
        → Moved a (proceed (r, b) (λ block. rest)).1
          × OkOrLimit (proceed (r, b) (λ block. rest)).0 y
    then_rest a b (ok start) m e = let (moved, s) = q.at b m.bounds in (Moved-trans m moved, s)
    then_rest a b (err s) m (inl (start, e)) = cc
    then_rest a b (err s) m (inr e) = (m, inr (cc))

    go :
        (a : Arena)
        → IsArena a
        → Moved a ((alloc_or_limit size (2 ^ k) >>= λ block. rest) a).1
          × OkOrLimit ((alloc_or_limit size (2 ^ k) >>= λ block. rest) a).0 y
    go a i =
        let (moved, r) = block_limit k size a small i in
        then_rest a (alloc_or_limit size (2 ^ k) a).1 (alloc_or_limit size (2 ^ k) a).0 moved r

pub Settles-copy :
    (maximum : ℕ) (source : Slice)
    → IsBlob maximum source
    → Settles (arena_copy maximum source) (stored source)
unfolding arena_copy
Settles-copy maximum (null n) v =
    let empty : (n == 0) ≡ true = ground (arith, v.sound) in
    let short : ltb maximum n ≡ false = ground (arith, v.fits) in
    rw (empty, short, arena_copy) (Settles-pure (null 0))
Settles-copy maximum (view []) v =
    let short : ltb maximum 0 ≡ false = ground (arith, v.fits) in
    rw (short, arena_copy) (Settles-pure (null 0))
Settles-copy maximum (view (x ∷ xs)) v =
    let short : ltb maximum (suc (length xs)) ≡ false = ground (arith, v.fits) in
    let some_bytes : (suc (length xs) == 0) ≡ false = ground arith in
    rw (short, some_bytes, arena_copy)
      (Settles-alloc 0 (suc (length xs) + 1) _ (omega arith) (Settles-pure (view (x ∷ xs))))
