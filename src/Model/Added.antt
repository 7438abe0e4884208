-- ===== src/Model/Added.antt =====
-- `pv_model_add_record` of src/model.c where the arena has room.
use pvault.Arena.{Arena, arena_alloc, set_readwrite}
use pvault.Arena.Bounds.{IsArena, round_up, round_up_bounds, arena_alloc_lem}
use pvault.Base.{
  ℕ, ◌+◌, ◌*◌, ◌/◌, inl, inr, if◌then◌else◌, ◌&&◌, ◌||◌, not, ◌≤◌, ◌≡◌, ◌≢◌, refl, ◌∙◌, true, false,
  List, length, ltb, leb, ◌==◌, arith, some, Bool-cases,
}
use pvault.Base.Zeros.{id_is_zero}
use pvault.Model.Add.{Env, add_record, make_writable, choose_id, push_record}
use pvault.Model.Init.{record_size, ensure_record_capacity}
use pvault.Model.Room.{IsOpen, Grew}
use pvault.Model.Stored.{stored_record, record_cost, Gives-copy_record}
use pvault.Model.Types.{Record, Vault}
use pvault.Model.Valid.{HasValidFields, validate_record_fields_iff}
use pvault.Result.{ok}
use pvault.Util.{size_mul, size_max}
use pvault.Util.Sizes.{size_mul_lem}

-- The array of records doubles when it is full.
abbrev pub grown_capacity : Vault → ℕ
grown_capacity v =
    if ltb (length v.records) v.record_capacity then v.record_capacity else v.record_capacity * 2

abbrev pub growth_cost : Vault → ℕ
growth_cost v =
    if ltb (length v.records) v.record_capacity then 0 else v.record_capacity * 2 * record_size + 7

ensure_room :
    (v : Vault)
    → IsOpen v.arena
    → v.record_capacity ≢ 0
    → v.arena.used + growth_cost v ≤ v.arena.capacity
    → (b : Arena) × (ensure_record_capacity v
        ≡ (ok tt, record v { arena = b; record_capacity = grown_capacity v }))
      × Grew (growth_cost v) v.arena b
unfolding ensure_record_capacity
ensure_room v o some_room h = elim (Bool-cases (ltb (length v.records) v.record_capacity)) [
  | inl free ↦
      rw (free, ensure_record_capacity)
        (
          v.arena,
          refl,
          record { opened = o; capacity = refl; low = omega arith; high = omega arith },
        )
  | inr full ↦
      let cost : v.arena.used + (v.record_capacity * 2 * record_size + 7) ≤ v.arena.capacity =
        rw full at h in
      let (low, high, aligned) = round_up_bounds v.arena.used 8 (omega arith) in
      let size = v.record_capacity * 2 * record_size in
      let start = round_up v.arena.used 8 in
      let b : Arena = record v.arena { used = start + size } in
      let small : leb (size_max / 2) v.record_capacity ≡ false = ground (arith, o.bounds.small) in
      let product : size_mul (v.record_capacity * 2) record_size ≡ some size =
        size_mul_lem (v.record_capacity * 2) record_size ∙ ground (arith, o.bounds.small) in
      let e : arena_alloc size 8 v.arena ≡ some (start, b) =
        arena_alloc_lem 3 size v.arena (omega arith) o.bounds
        ∙ ground (arith, o.allocated, o.writable) in
      rw (full, small, product, e, ensure_record_capacity)
        (
          b,
          refl,
          record {
            opened = record {
              bounds = record { inside = omega arith; small = o.bounds.small };
              allocated = o.allocated;
              writable = o.writable;
            };
            capacity = refl;
            low = omega arith;
            high = omega arith;
          },
        )
]

-- An arena that `make_writable` opens.
pub record CanOpen (env : Env) (a : Arena) : Type 0 where
  pub bounds : IsArena a
  pub allocated : a.allocated ≡ true
  pub granted : (not a.readonly || env.protect_rw) ≡ true

abbrev pub opened : Arena → Arena
opened a = record a { readonly = false }

make_writable-opened :
    (env : Env) (a : Arena) → CanOpen env a → make_writable env.protect_rw a ≡ (ok tt, opened a)
unfolding make_writable set_readwrite
make_writable-opened env a c = ground (arith, c.allocated, c.granted)

abbrev pub add_cost : Record → Vault → ℕ
add_cost source v = growth_cost v + record_cost source

-- Valid fields, an id that can be had, and room: then the record is added.
pub record CanAdd (env : Env) (source : Record) (id : List ℕ) (v : Vault) : Type 0 where
  pub fields : HasValidFields source
  pub identified : (not (source.revision == 0) && id_is_zero source.id) ≡ false
  pub chosen : choose_id env source.id v.records ≡ ok id
  pub arena : CanOpen env v.arena
  pub some_room : v.record_capacity ≢ 0
  pub room : v.arena.used + add_cost source v ≤ v.arena.capacity

-- With valid fields, an id that can be had, a writable arena and room for the copies and for a
-- larger array, pv_model_add_record succeeds: it returns the stored copy, pushes it at the end,
-- grows the array exactly when that is full, and takes at most the bytes counted.
pub add_record_lem :
    (env : Env) (source : Record) (id : List ℕ) (v : Vault)
    → CanAdd env source id v
    → (b : Arena) × (add_record env source v ≡ (
      ok (stored_record env id source),
      push_record env
          (stored_record env id source)
          (record v { arena = b; record_capacity = grown_capacity v }),
    ))
      × Grew (add_cost source v) (opened v.arena) b
unfolding add_record
add_record_lem env source id v c =
    let ready : IsOpen (opened v.arena) = record {
      bounds = record { inside = c.arena.bounds.inside; small = c.arena.bounds.small };
      allocated = c.arena.allocated;
      writable = refl;
    } in
    let w : Vault = record v { arena = opened v.arena } in
    let (a, e, g) = ensure_room w ready c.some_room (omega (arith, c.room)) in
    let (b, e', g') =
      (Gives-copy_record env id source c.fields).at a g.opened
        (omega (arith, c.room, g.high, g.capacity)) in
    (
      b,
      rw (
        (validate_record_fields_iff source).1 c.fields,
        c.identified,
        make_writable-opened env v.arena c.arena,
        e,
        c.chosen,
        e',
      ),
      record {
        opened = g'.opened;
        capacity = g'.capacity ∙ g.capacity;
        low = omega (arith, g.low, g'.low);
        high = omega (arith, g.high, g'.high);
      },
    )
