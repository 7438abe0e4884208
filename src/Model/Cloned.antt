-- ===== src/Model/Cloned.antt =====
-- What `pv_model_clone` of src/model.c makes of a vault that meets its invariant.
use pvault.Arena.{arena_init, arena_alloc}
use pvault.Base.{
  ℕ, ◌+◌, ◌≤◌, ◌<◌, ◌≡◌, refl, sym, ap, ◌∙◌, inl, inr, true, false, List, [], ◌∷◌, ◌++◌, length,
  map, arith, leb,
}
use pvault.Cbor.Decode.{added}
use pvault.Cbor.Refill.{add_records, all_cost, kept_record, AllFresh, add_records_lem}
use pvault.Cbor.Seen.{Unknown, Unknown-append, Unknown-nil}
use pvault.Header.{max_plaintext}
use pvault.Model.Add.{Env, add_record}
use pvault.Model.Clone.{clone_records, or_fail, with_identity, model_clone}
use pvault.Model.Init.{Memory, model_init}
use pvault.Model.Invariant.{Distinct, IsVault}
use pvault.Model.Life.{fresh_vault}
use pvault.Model.Types.{Record, Vault}
use pvault.Result.{Result, ok, err, ◌>>=◌, Result-cases}
use pvault.Status.{Status}
use pvault.Util.{size_add}

AllFresh-Distinct :
    (old records : List Record) → Unknown old records → Distinct records → AllFresh old records
AllFresh-Distinct old [] h d = tt
AllFresh-Distinct old (r ∷ records) (h, hs) (d, ds) = (
  h,
  AllFresh-Distinct (old ++ (kept_record r ∷ [])) records
      (Unknown-append old (kept_record r) records hs d) ds,
)

-- Where the decoder's loop succeeds, so does this one.
or_fail-added : (p : Result Record × Vault) (v : Vault) → added p ≡ ok v → or_fail p ≡ ok v
unfolding added
or_fail-added (ok r, w) v e = e
or_fail-added (err s, w) v e = cc

refused :
    (m : Result Vault) (f : Vault → Result Vault) {s : Status} {w : Vault}
    → m ≡ err s
    → (m >>= f) ≡ ok w
    → ⊥
refused (ok v) f a e = cc
refused (err t) f a e = cc

clone_records-ok :
    (env : ℕ → Env) (i : ℕ) (records : List Record) (v w : Vault)
    → add_records env i records v ≡ ok w
    → clone_records env i records v ≡ ok w
unfolding clone_records add_records
clone_records-ok env i [] v w e = e
clone_records-ok env i (r ∷ records) v w e = elim (Result-cases (added (add_record (env i) r v))) [
  | inl (u, a) ↦ rw (or_fail-added (add_record (env i) r v) u a) (
      clone_records-ok env (i + 1) records u w
        (ap (λ t. t >>= λ v'. add_records env (i + 1) records v') (sym a) ∙ e))
  | inr (s, a) ↦ absurd (refused (added (add_record (env i) r v)) _ a e)
]

abbrev pub memory_ok : Memory
memory_ok = record { arena_malloc = true; arena_mlock = true; key_malloc = true; key_mlock = true }

model_init_ok :
    (path : List ℕ) → length path < 4096 → model_init memory_ok path ≡ ok (fresh_vault path)
unfolding model_init arena_init arena_alloc size_add
model_init_ok path h = let short : leb 4096 (length path) ≡ false = ground arith in rw short

-- What the clone has of its source.
pub record IsClone (v w : Vault) : Type 0 where
  pub records : w.records ≡ map kept_record v.records
  pub vault_id : w.vault_id ≡ v.vault_id
  pub device_id : w.device_id ≡ v.device_id
  pub generation : w.generation ≡ v.generation
  pub vmk : w.vmk ≡ v.vmk
  pub source_hash : w.source_hash ≡ v.source_hash
  pub created : w.created_ms ≡ v.created_ms
  pub updated : w.updated_ms ≡ v.updated_ms
  pub dirty : w.dirty ≡ v.dirty
  pub path : w.path ≡ v.path

-- For a vault that meets its invariant, with a path that fits and room for its records in a new
-- arena, pv_model_clone succeeds when its allocations do, and the clone has the source's records
-- (an empty field as NULL), ids, keys, hash, generation, times, dirty flag and path.
pub model_clone-IsClone :
    (env : ℕ → Env) (v : Vault)
    → IsVault v
    → length v.path < 4096
    → 2560 + all_cost v.records 0 16 ≤ max_plaintext
    → (w : Vault) × (model_clone memory_ok env v ≡ ok w) × IsClone v w
unfolding model_clone
model_clone-IsClone env v i short room =
    let start = with_identity v (fresh_vault v.path) in
    let (w, filled, contents, same) =
      add_records_lem env 0 v.records start i.records
        (AllFresh-Distinct [] v.records (Unknown-nil v.records) i.distinct)
        (record { inside = omega arith; small = omega arith }) refl refl (omega arith) room in
    let cloned = clone_records-ok env 0 v.records start w filled in
    (
      record w { created_ms = v.created_ms; updated_ms = v.updated_ms; dirty = v.dirty },
      rw (model_init_ok v.path short, cloned),
      record {
        records = contents;
        vault_id = same.vault_id;
        device_id = same.device_id;
        generation = same.generation;
        vmk = same.vmk;
        source_hash = same.source_hash;
        created = refl;
        updated = refl;
        dirty = refl;
        path = same.path;
      },
    )
