-- ===== src/Model/Copy.antt =====
-- src/model.c: `copy_slices` and `copy_fields`.
use pvault.Arena.{Arena, alloc_or_limit, arena_copy}
use pvault.Base.{ℕ, ◌*◌, List, [], ◌∷◌, ltb, ◌==◌, if◌then◌else◌}
use pvault.Exec.{Exec, ◌>>=◌, pure, fail}
use pvault.Model.Types.{CustomField, max_field_name, max_field_value, max_collection_items}
use pvault.Status.{limit}
use pvault.Util.Slice.{Slice, Span, null, view, len, items}
use pvault.Model.Init.{slice_size, field_size}

unfoldable pub copy_slice_loop : ℕ → List Slice → Exec Arena (List Slice)
copy_slice_loop max_len [] = pure []
copy_slice_loop max_len (source ∷ sources) = do
  copied ← arena_copy max_len source
  rest ← copy_slice_loop max_len sources
  pure (copied ∷ rest)

-- `copy_slices`; the source has a count only with items behind it.
unfoldable pub copy_slices : ℕ → Span Slice → Exec Arena (Span Slice)
unfolding copy_slice_loop
copy_slices max_len source =
    if len source == 0
    then pure (null 0)
    else if ltb max_collection_items (len source)
    then fail limit
    else do
      block ← alloc_or_limit (len source * slice_size) 8
      copied ← copy_slice_loop max_len (items source)
      pure (view copied)

unfoldable pub copy_field_loop : List CustomField → Exec Arena (List CustomField)
copy_field_loop [] = pure []
copy_field_loop (source ∷ sources) = do
  name ← arena_copy max_field_name source.name
  value ← arena_copy max_field_value source.value
  rest ← copy_field_loop sources
  pure (record { name = name; value = value; flags = source.flags } ∷ rest)

-- `copy_fields`
unfoldable pub copy_fields : Span CustomField → Exec Arena (Span CustomField)
unfolding copy_field_loop
copy_fields source =
    if len source == 0
    then pure (null 0)
    else if ltb max_collection_items (len source)
    then fail limit
    else do
      block ← alloc_or_limit (len source * field_size) 8
      copied ← copy_field_loop (items source)
      pure (view copied)
