-- ===== src/Model/Invariant.antt =====
-- The invariant of the in-memory vault of src/model.c, and the parts of `pv_model_add_record` in
-- any vault.
use pvault.Arena.{Arena, arena_alloc, set_readwrite}
use pvault.Arena.Bounds.{IsArena}
use pvault.Arena.Blocks.{alloc_block}
use pvault.Base.{
  ℕ, ◌*◌, ◌/◌, ◌≤◌, ◌<◌, ◌≡◌, ◌≢◌, ◌⊎◌, inl, inr, Bool, true, false, not, ◌||◌, List, [], ◌∷◌, All,
  length, ltb, leb, arith, none, Option-cases, Bool-cases,
}
use pvault.Model.Add.{make_writable, find_id}
use pvault.Model.Init.{ensure_record_capacity, record_size}
use pvault.Model.Types.{Record, Vault}
use pvault.Model.Valid.{IsRecord}
use pvault.Result.{ok, err}
use pvault.Status.{Status, limit, secure_memory}
use pvault.Util.{size_mul, size_max}

-- No id stands twice.
abbrev pub Distinct : List Record → Type 0
Distinct [] = Unit
Distinct (r ∷ records) = (find_id r.id records ≡ none) × Distinct records

pub record IsVault (v : Vault) : Type 0 where
  pub arena : IsArena v.arena
  pub allocated : v.arena.allocated ≡ true
  pub fits : length v.records ≤ v.record_capacity
  pub some_room : v.record_capacity ≢ 0
  pub records : All IsRecord v.records
  pub distinct : Distinct v.records

-- Another arena and another capacity, and nothing else.
abbrev pub rehoused : Vault → Arena → ℕ → Vault
rehoused v a c = record v { arena = a; record_capacity = c }

-- A sound arena for the same vault.
pub record Houses (v : Vault) (a : Arena) (c : ℕ) : Type 0 where
  pub arena : IsArena a
  pub allocated : a.allocated ≡ true
  pub fits : length v.records ≤ c
  pub some_room : c ≢ 0

pub rehoused-IsVault :
    {v : Vault} {a : Arena} {c : ℕ} → IsVault v → Houses v a c → IsVault (rehoused v a c)
rehoused-IsVault i h = record {
  arena = h.arena;
  allocated = h.allocated;
  fits = h.fits;
  some_room = h.some_room;
  records = i.records;
  distinct = i.distinct;
}

pub writable_outcome :
    (protected : Bool) (a : Arena)
    → IsArena a
    → a.allocated ≡ true
    → ((b : Arena) × (make_writable protected a ≡ (ok tt, b)) × IsArena b × (b.allocated ≡ true))
      ⊎ ((s : Status) × (make_writable protected a ≡ (err s, a)))
unfolding make_writable set_readwrite
writable_outcome protected a i h = elim (Bool-cases (not a.readonly || protected)) [
  | inl e ↦ inl (
    record a { readonly = false },
    ground arith,
    record { inside = i.inside; small = i.small },
    h,
  )
  | inr e ↦ inr (secure_memory, ground arith)
]

pub ensure_outcome :
    (v : Vault)
    → IsVault v
    → ((b : Arena) × (c : ℕ) × (ensure_record_capacity v ≡ (ok tt, rehoused v b c))
        × Houses v b c
        × (length v.records < c))
      ⊎ (ensure_record_capacity v ≡ (err limit, v))
unfolding ensure_record_capacity
ensure_outcome v i = elim (Bool-cases (ltb (length v.records) v.record_capacity)) [
  | inl free ↦ inl (
    v.arena,
    v.record_capacity,
    rw (free, ensure_record_capacity),
    record { arena = i.arena; allocated = i.allocated; fits = i.fits; some_room = i.some_room },
    ground arith,
  )
  | inr full ↦ elim (Bool-cases (leb (size_max / 2) v.record_capacity)) [
    | inl huge ↦ inr (rw (full, huge, ensure_record_capacity))
    | inr small ↦ elim (Option-cases (size_mul (v.record_capacity * 2) record_size)) [
      | inl over ↦ inr (rw (full, small, over, ensure_record_capacity))
      | inr (bytes, e) ↦ elim (Option-cases (arena_alloc bytes 8 v.arena)) [
        | inl null ↦ inr (rw (full, small, e, null, ensure_record_capacity))
        | inr ((start, b), f) ↦
            let (low, aligned, some_bytes, high, same) =
              alloc_block 3 bytes v.arena start b (omega arith) i.arena f in
            inl (
              b,
              v.record_capacity * 2,
              rw (full, small, e, f, ensure_record_capacity),
              rw same (record {
                arena = record { inside = high; small = i.arena.small };
                allocated = i.allocated;
                fits = omega (arith, i.fits);
                some_room = omega (arith, i.some_room);
              }),
              omega (arith, i.fits, i.some_room),
            )
      ]
    ]
  ]
]
