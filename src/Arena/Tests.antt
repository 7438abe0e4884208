-- ===== src/Arena/Tests.antt =====
-- Runs of the allocator of src/arena.c on a small arena.
use pvault.Arena.{Arena, arena_alloc, block_at}
use pvault.Arena.Bounds.{IsArena, round_up, arena_alloc_lem}
use pvault.Arena.Blocks.{
  Request, granted, InOrder, granted-InOrder, Reach, here, next, alloc, Reach-IsArena,
}
use pvault.Util.{size_add}
use pvault.Base.{
  ◌+◌, ◌^◌, ◌≡◌, refl, true, false, not, ◌||◌, none, some, List, [], ◌∷◌, ltb, ◌==◌, if◌then◌else◌,
  arith,
}

abbrev small_arena : Arena
small_arena = record { allocated = true; capacity = 64; used = 5; readonly = false }

small_arena-IsArena : IsArena small_arena
small_arena-IsArena = record { inside = omega arith; small = omega arith }

-- The third request does not fit any more.
abbrev requests : List Request
requests = (10, 3) ∷ (1, 0) ∷ (60, 3) ∷ (8, 4) ∷ []

granted_blocks : granted requests small_arena ≡ (
    record { start = 8; size = 10; unit = 8 }
    ∷ record { start = 18; size = 1; unit = 1 }
    ∷ record { start = 32; size = 8; unit = 16 }
    ∷ [])
unfolding arena_alloc size_add block_at
granted_blocks = refl

granted-InOrder_example : InOrder 5 64 (granted requests small_arena)
granted-InOrder_example =
    granted-InOrder requests small_arena
      (omega arith, (omega arith, (omega arith, (omega arith, tt)))) small_arena-IsArena

arena_alloc_lem_example : arena_alloc 10 (2 ^ 3) small_arena ≡ (
    let start = round_up 5 (2 ^ 3) in
    if not true || false || 10 == 0 || ltb 64 (start + 10)
    then none
    else some (start, record small_arena { used = start + 10 }))
arena_alloc_lem_example = arena_alloc_lem 3 10 small_arena (omega arith) small_arena-IsArena

abbrev lived : Arena
lived = record small_arena { used = 18 }

some_life : Reach small_arena lived
unfolding arena_alloc size_add block_at
some_life = next here (alloc 10 3 8 (omega arith) refl)

Reach-IsArena_example : IsArena lived
Reach-IsArena_example = Reach-IsArena small_arena-IsArena some_life
