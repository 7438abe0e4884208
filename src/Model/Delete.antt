-- ===== src/Model/Delete.antt =====
-- src/model.c: `pv_model_delete`. The memory that it clears is that of the slices it drops.
use pvault.Base.{
  ℕ, zero, suc, ◌+◌, ◌-◌, ◌^◌, Bool, true, not, Option, none, some, List, [], ◌∷◌, get_elem?,
  bit_and, bit_or, ◌==◌, if◌then◌else◌,
}
use pvault.Base.Int.{ℤ}
use pvault.Exec.{Exec, ◌>>=◌}
use pvault.Model.Add.{make_writable}
use pvault.Model.Init.{on_arena}
use pvault.Model.Types.{Record, Vault, record_deleted}
use pvault.Result.{Result, ok, err}
use pvault.Status.{usage, limit}
use pvault.Util.Slice.{Span, null, view}

-- `count = 0` with the pointer kept.
abbrev pub emptied {ℓ} : {A : Type ℓ} → Span A → Span A
emptied (null n) = null 0
emptied (view xs) = view []

unfoldable pub deleted_record : ℤ → Record → Record
deleted_record now r = record r {
  username = null 0;
  password = null 0;
  notes = null 0;
  urls = emptied r.urls;
  tags = emptied r.tags;
  fields = emptied r.fields;
  flags = bit_or r.flags record_deleted;
  revision = r.revision + 1;
  updated_ms = now;
}

abbrev pub set_record : List Record → ℕ → Record → List Record
set_record [] i r = []
set_record (x ∷ xs) zero r = r ∷ xs
set_record (x ∷ xs) (suc i) r = x ∷ set_record xs i r

unfoldable pub can_delete : Option Record → Result Record
can_delete none = err usage
can_delete (some r) =
    if not (bit_and r.flags record_deleted == 0)
    then err usage
    else if r.revision == 2 ^ 64 - 1
    then err limit
    else ok r

-- `now` is the clock's answer, `protected` libsodium's. An index past the records is a NULL record.
unfoldable pub model_delete : ℤ → Bool → ℕ → Exec Vault (Unit {0})
unfolding can_delete deleted_record
model_delete now protected i = do
  r ← λ v. (can_delete (get_elem? v.records i), v)
  writable ← on_arena (make_writable protected)
  λ v. (
    ok tt,
    record v {
      records = set_record v.records i (deleted_record now r);
      dirty = true;
      updated_ms = now;
    },
  )
