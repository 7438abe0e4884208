-- ===== src/Arena.antt =====
-- src/arena.c: the bump allocator that holds a vault's records. The model keeps the arena's
-- bookkeeping; the bytes that are copied into it stand in the slices that point to them. What
-- libsodium answers (allocation, locking, page protection) is an argument. Pointers to the arena and
-- to the output are not NULL here.
pub mod Bounds
pub mod Blocks
pub mod Tests
use pvault.Base.{
  ℕ, ◌+◌, ◌-◌, Bool, true, false, not, ◌||◌, Option, none, some, List, [], length, bit_and, ltb,
  ◌==◌, if◌then◌else◌,
}
use pvault.Base.Bits.{and_not}
use pvault.Exec.{Exec, ◌>>=◌, fail}
use pvault.Header.{max_plaintext}
use pvault.Result.{Result, ok, err}
use pvault.Status.{Status, usage, limit, nomem, secure_memory}
use pvault.Util.{size_add}
use pvault.Util.Slice.{Slice, null, view, len, items, dangling}

pub record Arena : Type 0 where
  -- `base != NULL`
  pub allocated : Bool
  pub capacity : ℕ
  pub used : ℕ
  pub readonly : Bool

abbrev pub no_arena : Arena
no_arena = record { allocated = false; capacity = 0; used = 0; readonly = false }

-- `pv_arena_init`; `malloc_ok` and `mlock_ok` are libsodium's answers. The source leaves the object
-- alone on a usage error, and its fields zero on the other two.
unfoldable pub arena_init : Bool → Bool → ℕ → Exec Arena (Unit {0})
arena_init malloc_ok mlock_ok capacity arena =
    if capacity == 0 || ltb max_plaintext capacity
    then (err usage, arena)
    else if not malloc_ok
    then (err nomem, no_arena)
    else if not mlock_ok
    then (err secure_memory, no_arena)
    else (ok tt, record { allocated = true; capacity = capacity; used = 0; readonly = false })

-- `aligned`, the offset of a block of `size` bytes, and the offset behind it.
unfoldable pub block_at : ℕ → ℕ → ℕ → Option (ℕ × ℕ)
block_at used size alignment = elim (size_add used (alignment - 1)) [
  | none ↦ none
  | some raised ↦
      let aligned = and_not raised (alignment - 1) in
      elim (size_add aligned size) [ none ↦ none | some end ↦ some (aligned, end) ]
]

-- `pv_arena_alloc`: the offset of the block from `base` and the arena then, or `none` for NULL.
unfoldable pub arena_alloc : ℕ → ℕ → Arena → Option (ℕ × Arena)
unfolding block_at
arena_alloc size alignment arena =
    if not arena.allocated
      || arena.readonly
      || size == 0
      || alignment == 0
      || not (bit_and alignment (alignment - 1) == 0)
    then none
    else elim (block_at arena.used size alignment) [
      | none ↦ none
      | some (aligned, end) ↦
          if ltb arena.capacity end then none else some (aligned, record arena { used = end })
    ]

-- An allocation whose failure the callers report as `PV_ERR_LIMIT`.
unfoldable pub alloc_or_limit : ℕ → ℕ → Exec Arena ℕ
unfolding arena_alloc
alloc_or_limit size alignment arena = elim (arena_alloc size alignment arena) [
  | none ↦ (err limit, arena)
  | some (aligned, arena') ↦ (ok aligned, arena')
]

-- `pv_arena_copy`: a copy with one zero byte behind it; an empty slice is stored as NULL.
unfoldable pub arena_copy : ℕ → Slice → Exec Arena Slice
arena_copy max_len source arena =
    if dangling source || ltb max_len (len source)
    then (err (if ltb max_len (len source) then limit else usage), arena)
    else if len source == 0
    then (ok (null 0), arena)
    else (do alloc ← alloc_or_limit (len source + 1) 1; λ s. (ok (view (items source)), s)) arena

-- `pv_arena_set_readonly` and `pv_arena_set_readwrite`; `protected` is libsodium's answer.
unfoldable pub set_readonly : Bool → Exec Arena (Unit {0})
set_readonly protected arena =
    if not arena.allocated
    then (err usage, arena)
    else if not protected
    then (err secure_memory, arena)
    else (ok tt, record arena { readonly = true })

unfoldable pub set_readwrite : Bool → Exec Arena (Unit {0})
set_readwrite protected arena =
    if not arena.allocated
    then (err usage, arena)
    else if not protected
    then (err secure_memory, arena)
    else (ok tt, record arena { readonly = false })

-- `pv_arena_reset`; the source ignores the answer of `pv_arena_set_readwrite`.
unfoldable pub arena_reset : Bool → Arena → Arena
unfolding set_readwrite
arena_reset protected arena =
    if not arena.allocated
    then arena
    else record (if arena.readonly then (set_readwrite protected arena).1 else arena) { used = 0 }

-- `pv_arena_destroy`
unfoldable pub arena_destroy : Arena → Arena
arena_destroy arena = no_arena
