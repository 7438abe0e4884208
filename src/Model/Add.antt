-- ===== src/Model/Add.antt =====
-- src/model.c: `pv_model_add_record` and `pv_model_find_id`.
use pvault.Arena.{Arena, arena_copy, set_readwrite}
use pvault.Base.{
  ℕ, Bool, true, false, not, ◌&&◌, Option, none, some, List, [], ◌∷◌, ◌++◌, ◌==◌, if◌then◌else◌,
  bytes_eq,
}
use pvault.Base.Int.{ℤ, is_zero}
use pvault.Base.Zeros.{id_is_zero}
use pvault.Exec.{Exec, ◌>>=◌, pure, lift, refuse_if}
use pvault.Model.Types.{
  Record, Vault, max_title, max_username, max_password, max_url, max_notes, max_tag,
}
use pvault.Model.Validate.{validate_record_fields}
use pvault.Result.{Result, ok, err}
use pvault.Status.{usage, format, exists}
use pvault.Util.Slice.{len}
use pvault.Model.Init.{on_arena, ensure_record_capacity}
use pvault.Model.Copy.{copy_slices, copy_fields}

-- `pv_model_find_id`: the first record with the id.
unfoldable pub find_id : List ℕ → List Record → Option Record
find_id id [] = none
find_id id (r ∷ records) = if bytes_eq r.id id then some r else find_id id records

-- What one call of `pv_model_add_record` is answered from outside. `draws` and then `last_draw` are
-- what `randombytes_buf` gives to its loop.
pub record Env : Type 0 where
  pub now : ℤ
  pub protect_rw : Bool
  pub draws : List (List ℕ)
  pub last_draw : List ℕ

unfoldable pub usable : List Record → List ℕ → Bool
usable records id =
    not (id_is_zero id) && elim (find_id id records) [ none ↦ true | some r ↦ false ]

-- `do { randombytes_buf(...) } while (id_is_zero(...) || find_id(...) != NULL);` ends with
-- `last_draw` at the latest, if that is usable.
unfoldable pub draw_id : List Record → List (List ℕ) → List ℕ → List ℕ
draw_id records [] last = last
draw_id records (d ∷ ds) last = if usable records d then d else draw_id records ds last

unfoldable pub choose_id : Env → List ℕ → List Record → Result (List ℕ)
choose_id env id records =
    if id_is_zero id
    then ok (draw_id records env.draws env.last_draw)
    else elim (find_id id records) [ none ↦ ok id | some r ↦ err exists ]

-- A new record has revision 1, and the clock's time where it has none.
abbrev pub stamped : Record → ℤ → ℤ → ℤ
stamped source now time = if source.revision == 0 && is_zero time then now else time

-- The copies of `pv_model_add_record`, from the title on.
unfoldable pub copy_record : Env → List ℕ → Record → Exec Arena Record
copy_record env id source = do
  title ← arena_copy max_title source.title
  nonempty ← refuse_if (len title == 0) usage
  username ← arena_copy max_username source.username
  password ← arena_copy max_password source.password
  notes ← arena_copy max_notes source.notes
  urls ← copy_slices max_url source.urls
  tags ← copy_slices max_tag source.tags
  fields ← copy_fields source.fields
  pure (record {
    id = id;
    revision = if source.revision == 0 then 1 else source.revision;
    created_ms = stamped source env.now source.created_ms;
    updated_ms = stamped source env.now source.updated_ms;
    flags = source.flags;
    title = title;
    username = username;
    password = password;
    notes = notes;
    urls = urls;
    tags = tags;
    fields = fields;
  })

abbrev pub push_record : Env → Record → Vault → Vault
push_record env r vault = record vault {
  records = vault.records ++ (r ∷ []);
  dirty = true;
  updated_ms = env.now;
}

-- `if (vault->arena.readonly) { status = pv_arena_set_readwrite(...); ... }`
unfoldable pub make_writable : Bool → Exec Arena (Unit {0})
make_writable protected arena =
    if arena.readonly then set_readwrite protected arena else (ok tt, arena)

-- `pv_model_add_record`
unfoldable pub add_record : Env → Record → Exec Vault Record
add_record env source = do
  fields_ok ← lift (validate_record_fields source)
  id_ok ← refuse_if (not (source.revision == 0) && id_is_zero source.id) format
  writable ← on_arena (make_writable env.protect_rw)
  room ← ensure_record_capacity
  records ← λ v. (ok v.records, v)
  id ← lift (choose_id env source.id records)
  r ← on_arena (copy_record env id source)
  λ v. (ok r, push_record env r v)
