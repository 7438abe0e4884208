-- ===== src/Arena/Blocks.antt =====
-- Runs of the allocator of src/arena.c: the blocks that a sequence of requests is given, and the
-- arena through its whole life.
use pvault.Arena.{
  Arena, arena_init, arena_alloc, set_readonly, set_readwrite, arena_reset, arena_destroy,
}
use pvault.Arena.Bounds.{IsArena, round_up_bounds, arena_alloc_lem}
use pvault.Base.{
  ℕ, ◌+◌, ◌%◌, ◌^◌, ◌≤◌, ◌<◌, ◌≡◌, sym, ◌∙◌, inl, inr, Bool, none, some, List, [], ◌∷◌, All,
  Option-cases, arith,
}
use pvault.Base.Bits.{pow_pos}

-- A granted block: its offset, its size and its alignment.
pub record Block : Type 0 where
  pub start : ℕ
  pub size : ℕ
  pub unit : ℕ

-- A request: the size, and the exponent of the alignment.
abbrev pub Request : Type 0
Request = ℕ × ℕ

-- The blocks of the requests that are granted, one call after the other.
abbrev pub granted : List Request → Arena → List Block
granted [] arena = []
granted ((size, k) ∷ requests) arena = elim (arena_alloc size (2 ^ k) arena) [
  | none ↦ granted requests arena
  | some (start, arena') ↦
      record { start = start; size = size; unit = 2 ^ k } ∷ granted requests arena'
]

-- Blocks one behind the other from `low` on, aligned, up to `high` at most.
abbrev pub InOrder : ℕ → ℕ → List Block → Type 0
InOrder low high [] = low ≤ high
InOrder low high (b ∷ blocks) =
    (low ≤ b.start) × (b.start % b.unit ≡ 0) × (0 < b.size) × InOrder (b.start + b.size) high blocks

abbrev pub SmallUnit : Request → Type 0
SmallUnit (size, k) = k ≤ 32

-- One call that is granted: where the block lies, and the arena then.
pub alloc_block :
    (k size : ℕ) (arena : Arena) (start : ℕ) (arena' : Arena)
    → k ≤ 32
    → IsArena arena
    → arena_alloc size (2 ^ k) arena ≡ some (start, arena')
    → (arena.used ≤ start)
      × (start % 2 ^ k ≡ 0)
      × (0 < size)
      × (start + size ≤ arena.capacity)
      × (arena' ≡ record arena { used = start + size })
alloc_block k size arena start arena' small a e =
    let (low, high, aligned) = round_up_bounds arena.used (2 ^ k) (pow_pos k) in
    ground (arith, sym (arena_alloc_lem k size arena small a) ∙ e)

-- For any sequence of requests with alignments up to 2^32 in an arena within its bounds, the
-- blocks that are granted lie one behind the other without overlap, each aligned and not empty,
-- between the mark before and the capacity.
pub granted-InOrder :
    (requests : List Request) (arena : Arena)
    → All SmallUnit requests
    → IsArena arena
    → InOrder arena.used arena.capacity (granted requests arena)
granted-InOrder [] arena h a = a.inside
granted-InOrder ((size, k) ∷ requests) arena (h, hs) a =
    elim (Option-cases (arena_alloc size (2 ^ k) arena)) [
      | inl e ↦ rw (e, InOrder, granted) (granted-InOrder requests arena hs a)
      | inr ((start, arena'), e) ↦
          let (low, aligned, some_bytes, high, same) =
            alloc_block k size arena start arena' h a e in
          let inside : IsArena (record arena { used = start + size }) = record {
            inside = high;
            small = a.small;
          } in
          rw (e, InOrder, granted)
            (
              low,
              aligned,
              some_bytes,
              rw same (granted-InOrder requests (record arena { used = start + size }) hs inside),
            )
    ]

-- What the program does to an arena.
pub data Step : Arena → Arena → Type 0 where
  init :
      {a : Arena} (malloc_ok mlock_ok : Bool) (capacity : ℕ)
      → Step a (arena_init malloc_ok mlock_ok capacity a).1
  alloc :
      {a b : Arena} (size k start : ℕ)
      → k ≤ 32
      → arena_alloc size (2 ^ k) a ≡ some (start, b)
      → Step a b
  readonly : {a : Arena} (protected : Bool) → Step a (set_readonly protected a).1
  readwrite : {a : Arena} (protected : Bool) → Step a (set_readwrite protected a).1
  reset : {a : Arena} (protected : Bool) → Step a (arena_reset protected a)
  destroy : {a : Arena} → Step a (arena_destroy a)

Step-IsArena : {a b : Arena} → Step a b → IsArena a → IsArena b
Step-IsArena (init malloc_ok mlock_ok capacity) i = unfold arena_init in ground arith
Step-IsArena {a} {b} (alloc size k start small e) i =
    let (low, aligned, some_bytes, high, same) = alloc_block k size a start b small i e in
    rw same (record { inside = high; small = i.small })
Step-IsArena (readonly protected) i = unfold set_readonly in ground arith
Step-IsArena (readwrite protected) i = unfold set_readwrite in ground arith
Step-IsArena (reset protected) i = unfold arena_reset set_readwrite in ground arith
Step-IsArena destroy i = unfold arena_destroy in ground arith

pub data Reach (a : Arena) : Arena → Type 0 where
  here : Reach a a
  next : {b c : Arena} → Reach a b → Step b c → Reach a c

-- Whatever sequence of initialisations, allocations, changes of protection, resets and
-- destructions an arena within its bounds goes through, its mark stays within its capacity, and
-- the capacity within the plaintext limit.
pub Reach-IsArena : {a b : Arena} → IsArena a → Reach a b → IsArena b
Reach-IsArena i here = i
Reach-IsArena i (next r s) = Step-IsArena s (Reach-IsArena i r)
