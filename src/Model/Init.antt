-- ===== src/Model/Init.antt =====
-- src/model.c: `pv_model_init` and `ensure_record_capacity`.
use pvault.Arena.{Arena, no_arena, arena_init, arena_alloc}
use pvault.Base.{
  ℕ, ◌*◌, ◌/◌, Bool, false, not, none, some, List, [], length, replicate, ltb, leb, if◌then◌else◌,
}
use pvault.Base.Int.{pos}
use pvault.Exec.{Exec}
use pvault.Header.{max_plaintext}
use pvault.Model.Types.{Vault}
use pvault.Result.{Result, ok, err}
use pvault.Status.{usage, limit, nomem, secure_memory}
use pvault.Util.{size_mul, size_max}

-- `sizeof` of `pv_record`, `pv_slice` and `pv_custom_field`; each is aligned to 8.
abbrev pub record_size : ℕ
record_size = 160

abbrev pub slice_size : ℕ
slice_size = 16

abbrev pub field_size : ℕ
field_size = 40

abbrev pub initial_record_capacity : ℕ
initial_record_capacity = 16

-- An operation on the arena, as one on the vault.
abbrev pub on_arena {ℓ} : {A : Type ℓ} → Exec Arena A → Exec Vault A
on_arena m vault = let (r, arena) = m vault.arena in (r, record vault { arena = arena })

-- What libsodium answers to `pv_model_init`: for the arena, and for the key.
pub record Memory : Type 0 where
  pub arena_malloc : Bool
  pub arena_mlock : Bool
  pub key_malloc : Bool
  pub key_mlock : Bool

abbrev pub zero_vault : Vault
zero_vault = record {
  arena = no_arena;
  vault_id = replicate 16 0;
  device_id = replicate 16 0;
  generation = 0;
  created_ms = pos 0;
  updated_ms = pos 0;
  records = [];
  record_capacity = 0;
  vmk = [];
  source_hash = replicate 32 0;
  dirty = false;
  path = [];
}

-- `pv_model_init` behind the check of its arguments: the vault that it leaves is the zero vault
-- unless all succeeds.
unfoldable pub model_init : Memory → List ℕ → Result Vault
model_init memory path =
    if leb 4096 (length path)
    then err usage
    else let (status, arena) =
        arena_init memory.arena_malloc memory.arena_mlock max_plaintext no_arena in
      elim status [
        | err e ↦ err e
        | ok u ↦
            if not memory.key_malloc
            then err nomem
            else if not memory.key_mlock
            then err secure_memory
            else elim (arena_alloc (initial_record_capacity * record_size) 8 arena) [
              | none ↦ err limit
              | some (block, arena') ↦ ok (record zero_vault {
                arena = arena';
                vmk = replicate 32 0;
                record_capacity = initial_record_capacity;
                path = path;
              })
            ]
      ]

-- `ensure_record_capacity`
unfoldable pub ensure_record_capacity : Exec Vault (Unit {0})
ensure_record_capacity vault =
    if ltb (length vault.records) vault.record_capacity
    then (ok tt, vault)
    else if leb (size_max / 2) vault.record_capacity
    then (err limit, vault)
    else elim (size_mul (vault.record_capacity * 2) record_size) [
      | none ↦ (err limit, vault)
      | some bytes ↦ elim (arena_alloc bytes 8 vault.arena) [
        | none ↦ (err limit, vault)
        | some (block, arena) ↦
            (ok tt, record vault { arena = arena; record_capacity = vault.record_capacity * 2 })
      ]
    ]
