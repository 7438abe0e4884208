-- ===== src/Model/Find.antt =====
-- src/model.c: `record_matches` and `pv_model_find`. A string is the list of its characters; neither
-- it nor the vault is NULL. The answer has the record that is found, and the count `*matches`.
use pvault.Base.{
  ℕ, ◌+◌, Bool, true, false, not, ◌||◌, Option, none, some, List, [], ◌∷◌, length, bit_and, ◌==◌,
  if◌then◌else◌,
}
use pvault.Model.Add.{find_id}
use pvault.Model.Types.{Record, record_deleted}
use pvault.Util.Hex.{hex_decode}
use pvault.Util.Search.{slice_contains_cstr}
use pvault.Util.Slice.{Slice, items}

-- `(record->flags & PV_RECORD_DELETED) != 0U`
abbrev pub is_deleted : Record → Bool
is_deleted r = not (bit_and r.flags record_deleted == 0)

unfoldable pub any_contains : List Slice → List ℕ → Bool
any_contains [] query = false
any_contains (s ∷ slices) query = slice_contains_cstr true s query || any_contains slices query

unfoldable pub record_matches : Record → List ℕ → Bool
record_matches r query =
    slice_contains_cstr true r.title query
    || slice_contains_cstr true r.username query
    || any_contains (items r.urls) query
    || any_contains (items r.tags) query

-- `if (first == NULL) first = record;`
abbrev pub keep_first : Option Record → Record → Option Record
keep_first none r = some r
keep_first (some f) r = some f

unfoldable pub find_loop : List ℕ → Option Record → ℕ → List Record → Option Record × ℕ
find_loop query first count [] = (first, count)
find_loop query first count (r ∷ records) =
    let skipped = is_deleted r || not (record_matches r query) in
    find_loop query (if skipped then first else keep_first first r)
      (if skipped then count else count + 1) records

-- What is found by the id that the query may be.
abbrev pub found_by_id : List Record → Option (List ℕ) → Option Record
found_by_id records none = none
found_by_id records (some id) = find_id id records

-- `pv_model_find`
unfoldable pub model_find : List Record → List ℕ → Option Record × ℕ
model_find records query =
    if length query == 0 then (none, 0) else elim (found_by_id records (hex_decode query 16)) [
      | none ↦ find_loop query none 0 records
      | some first ↦
          if not (is_deleted first) then (some first, 1) else find_loop query (some first) 0 records
    ]
