-- ===== src/Model/Clone.antt =====
-- src/model.c: `pv_model_clone`. Neither vault is NULL; on an error the destination is destroyed.
use pvault.Base.{ℕ, ◌+◌, List, [], ◌∷◌}
use pvault.Model.Add.{Env, add_record}
use pvault.Model.Init.{Memory, model_init}
use pvault.Model.Types.{Record, Vault}
use pvault.Result.{Result, ok, err, ◌>>=◌}

-- The answer of one call, without the record.
abbrev pub or_fail : Result Record × Vault → Result Vault
or_fail (ok r, vault) = ok vault
or_fail (err s, vault) = err s

-- The loop over the source's records; `env i` answers the call for record i.
unfoldable pub clone_records : (ℕ → Env) → ℕ → List Record → Vault → Result Vault
clone_records env i [] destination = ok destination
clone_records env i (r ∷ records) destination =
    or_fail (add_record (env i) r destination) >>= clone_records env (i + 1) records

abbrev pub with_identity : Vault → Vault → Vault
with_identity source destination = record destination {
  vault_id = source.vault_id;
  device_id = source.device_id;
  vmk = source.vmk;
  source_hash = source.source_hash;
  generation = source.generation;
  created_ms = source.created_ms;
  updated_ms = source.updated_ms;
}

-- `pv_model_clone`
unfoldable pub model_clone : Memory → (ℕ → Env) → Vault → Result Vault
model_clone memory env source = model_init memory source.path >>= λ destination.
    clone_records env 0 source.records (with_identity source destination) >>= λ destination.
    ok (record destination {
      created_ms = source.created_ms;
      updated_ms = source.updated_ms;
      dirty = source.dirty;
    })
