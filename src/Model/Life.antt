-- ===== src/Model/Life.antt =====
-- A vault of src/model.c from `pv_model_init` on: whatever is done to it, its invariant holds.
use pvault.Arena.{Arena, arena_init, arena_alloc, set_readonly, set_readwrite}
use pvault.Arena.Bounds.{IsArena}
use pvault.Base.{
  ℕ, ◌-◌, ◌^◌, ◌<◌, ◌≡◌, ◌≢◌, refl, ◌∙◌, ◌⊎◌, inl, inr, Bool, true, false, List, [], ◌∷◌,
  All-append, replicate, length, length-append, get_elem?, replicate, ◌==◌, if◌then◌else◌, arith,
  some, bit_and,
}
use pvault.Base.Int.{ℤ, is_negative}
use pvault.Model.Add.{Env, add_record}
use pvault.Model.AddOutcomes.{add_record_ends}
use pvault.Model.Delete.{deleted_record, set_record, can_delete, model_delete}
use pvault.Header.{max_plaintext}
use pvault.Util.{size_add}
use pvault.Model.Init.{Memory, model_init, zero_vault, on_arena}
use pvault.Model.Invariant.{IsVault, Houses, rehoused-IsVault, writable_outcome}
use pvault.Model.Kept.{Ending, stored-HasValidFields, choose_id-new, Distinct-append}
use pvault.Model.Stored.{stored_record}
use pvault.Model.Types.{Record, Vault, record_deleted}
use pvault.Model.Valid.{IsRecord}
use pvault.Result.{ok, err, Result-cases}
use pvault.Status.{Status}
use pvault.Model.Tombstone.{
  deleted-IsRecord, All-set_record, All-get_elem?, length-set_record, Distinct-set_record,
  can_delete_inv,
}

-- A new record has revision 1.
revision-positive : (n : ℕ) → (if n == 0 then 1 else n) ≢ 0
revision-positive n = ground arith

-- For a vault that meets its invariant, a clock not before 1970 and a drawing of ids that ends,
-- the vault after pv_model_add_record meets the invariant, whether a record or a status is
-- returned.
pub add_record-IsVault :
    (env : Env) (source : Record) (v : Vault)
    → IsVault v
    → is_negative env.now ≡ false
    → Ending env v.records
    → IsVault (add_record env source v).1
add_record-IsVault env source v i clock ending = elim (add_record_ends env source v i) [
  | inr (s, refused) ↦ rw refused.result (rehoused-IsVault i refused.houses)
  | inl (id, added) ↦
      let (nonzero, fresh) = choose_id-new env source.id v.records id ending added.chosen in
      rw added.result (record {
        arena = added.houses.arena;
        allocated = added.houses.allocated;
        fits =
            omega (arith, length-append v.records (stored_record env id source ∷ []), added.room);
        some_room = added.houses.some_room;
        records = All-append IsRecord v.records (stored_record env id source ∷ []) i.records (
          record {
            valid = stored-HasValidFields env id source clock added.fields;
            revised = revision-positive source.revision;
            identified = nonzero;
          },
          tt,
        );
        distinct = Distinct-append v.records (stored_record env id source) i.distinct fresh;
      })
]

-- For a vault that meets its invariant, pv_model_delete ends in one of two ways: the record at the
-- index was not deleted and its revision could be raised, and its place is taken by its tombstone
-- while the vault is dirty with the time of the deletion; or it returns a status and the vault is
-- as it was.
pub model_delete_ends :
    (now : ℤ) (protected : Bool) (i : ℕ) (v : Vault)
    → IsVault v
    → ((r : Record) × (a : Arena) × (get_elem? v.records i ≡ some r)
        × (bit_and r.flags record_deleted ≡ 0)
        × (r.revision ≢ 2 ^ 64 - 1)
        × Houses v a v.record_capacity
        × (model_delete now protected i v ≡ (
          ok tt,
          record v {
            arena = a;
            records = set_record v.records i (deleted_record now r);
            dirty = true;
            updated_ms = now;
          },
        )))
      ⊎ ((s : Status) × (model_delete now protected i v ≡ (err s, v)))
unfolding model_delete
model_delete_ends now protected i v inv = elim (Result-cases (can_delete (get_elem? v.records i))) [
  | inr (s, bad) ↦ inr (s, rw (bad, model_delete))
  | inl (r, e) ↦ elim (writable_outcome protected v.arena inv.arena inv.allocated) [
    | inr (s, bad) ↦ inr (s, rw (e, bad, model_delete))
    | inl (a, writable, sound, allocated) ↦
        let (found, alive, revision) = can_delete_inv (get_elem? v.records i) r e in
        inl (
          r,
          a,
          found,
          alive,
          revision,
          record {
            arena = sound;
            allocated = allocated;
            fits = inv.fits;
            some_room = inv.some_room;
          },
          rw (e, writable, model_delete),
        )
  ]
]

pub model_delete-IsVault :
    (now : ℤ) (protected : Bool) (i : ℕ) (v : Vault)
    → IsVault v
    → is_negative now ≡ false
    → IsVault (model_delete now protected i v).1
model_delete-IsVault now protected i v inv clock = elim (model_delete_ends now protected i v inv) [
  | inr (s, e) ↦ rw e inv
  | inl (r, a, found, alive, revision, h, e) ↦ rw e (record {
    arena = h.arena;
    allocated = h.allocated;
    fits = omega (arith, inv.fits, length-set_record v.records i (deleted_record now r));
    some_room = inv.some_room;
    records =
        All-set_record IsRecord v.records i (deleted_record now r) inv.records
          (deleted-IsRecord now r clock (All-get_elem? IsRecord v.records i r inv.records found));
    distinct =
        Distinct-set_record v.records i r (deleted_record now r) found
          (unfold deleted_record in refl) inv.distinct;
  })
]

-- The vault that `pv_model_init` makes: the arena holds the array for sixteen records.
abbrev pub fresh_vault : List ℕ → Vault
fresh_vault path = record zero_vault {
  arena = record { allocated = true; capacity = max_plaintext; used = 2560; readonly = false };
  vmk = replicate 32 0;
  record_capacity = 16;
  path = path;
}

pub model_init-fresh :
    (memory : Memory) (path : List ℕ) (v : Vault)
    → model_init memory path ≡ ok v
    → (v ≡ fresh_vault path) × (length path < 4096)
unfolding model_init arena_init arena_alloc size_add
model_init-fresh memory path v e = (ground arith, ground arith)

-- A new vault is empty and meets the invariant.
fresh-IsVault : (path : List ℕ) → IsVault (fresh_vault path)
fresh-IsVault path = record {
  arena = record { inside = omega arith; small = omega arith };
  allocated = refl;
  fits = omega arith;
  some_room = omega arith;
  records = tt;
  distinct = tt;
}

-- What the program does to a vault in memory.
pub data Step : Vault → Vault → Type 0 where
  add :
      {v : Vault} (env : Env) (source : Record)
      → is_negative env.now ≡ false
      → Ending env v.records
      → Step v (add_record env source v).1
  delete :
      {v : Vault} (now : ℤ) (protected : Bool) (i : ℕ)
      → is_negative now ≡ false
      → Step v (model_delete now protected i v).1
  protect : {v : Vault} (protected : Bool) → Step v (on_arena (set_readonly protected) v).1
  unprotect : {v : Vault} (protected : Bool) → Step v (on_arena (set_readwrite protected) v).1

pub data Reach (v : Vault) : Vault → Type 0 where
  here : Reach v v
  next : {w u : Vault} → Reach v w → Step w u → Reach v u

on_arena-IsVault :
    (v : Vault) (a : Arena)
    → IsVault v
    → IsArena a
    → a.allocated ≡ v.arena.allocated
    → IsVault (record v { arena = a })
on_arena-IsVault v a i sound same = record {
  arena = sound;
  allocated = same ∙ i.allocated;
  fits = i.fits;
  some_room = i.some_room;
  records = i.records;
  distinct = i.distinct;
}

Step-IsVault : {v w : Vault} → Step v w → IsVault v → IsVault w
Step-IsVault {v} (add env source clock ending) i = add_record-IsVault env source v i clock ending
Step-IsVault {v} (delete now protected k clock) i = model_delete-IsVault now protected k v i clock
Step-IsVault {v} (protect protected) i =
    on_arena-IsVault v _ i (unfold set_readonly in ground (arith, i.arena))
      (unfold set_readonly in ground arith)
Step-IsVault {v} (unprotect protected) i =
    on_arena-IsVault v _ i (unfold set_readwrite in ground (arith, i.arena))
      (unfold set_readwrite in ground arith)

-- Along every run of additions, deletions and changes of the page protection, failing or not, the
-- vault has an arena within its bounds, no more records than its array holds, only valid records,
-- and no id twice.
pub Reach-IsVault : {v w : Vault} → IsVault v → Reach v w → IsVault w
Reach-IsVault i here = i
Reach-IsVault i (next r s) = Step-IsVault s (Reach-IsVault i r)

-- Along every run of additions, deletions and changes of the page protection, failing or not, of a
-- vault that pv_model_init made (each time with a clock not before 1970, and the drawing of an id
-- ending), the arena stays within its bounds, the array holds the records, every record is valid
-- and no id stands twice.
pub init-Reach-IsVault :
    (memory : Memory) (path : List ℕ) {v w : Vault}
    → model_init memory path ≡ ok v
    → Reach v w
    → IsVault w
init-Reach-IsVault memory path {v} e r =
    Reach-IsVault (rw (model_init-fresh memory path v e).0 (fresh-IsVault path)) r
