-- ===== src/Model/Validate.antt =====
-- src/model.c: `validate_record_fields` and `pv_model_validate_record`.
use pvault.Base.{
  ℕ, ◌+◌, Bool, true, false, not, ◌&&◌, ◌||◌, List, [], ◌∷◌, ltb, ◌==◌, if◌then◌else◌,
}
use pvault.Base.Bits.{and_not}
use pvault.Base.Int.{is_negative}
use pvault.Base.Zeros.{id_is_zero}
use pvault.Model.Types.{
  CustomField, Record, max_title, max_username, max_password, max_url, max_notes, max_tag,
  max_field_name, max_field_value, max_collection_items, record_deleted, record_favorite,
  field_secret,
}
use pvault.Result.{Result, ok, err, ◌>>◌}
use pvault.Status.{limit, format}
use pvault.Util.Slice.{Slice, len, items, dangling}
use pvault.Util.Utf8.{utf8_valid}

-- `text_slice_valid`
unfoldable pub text_slice_valid : Slice → Bool → Bool
text_slice_valid slice allow_empty =
    not (dangling slice) && (allow_empty || ltb 0 (len slice)) && utf8_valid (items slice)

-- The loops over urls and tags.
unfoldable pub check_slices : ℕ → List Slice → Result (Unit {0})
check_slices max_len [] = ok tt
check_slices max_len (slice ∷ slices) =
    if ltb max_len (len slice)
    then err limit
    else if not (text_slice_valid slice true)
    then err format
    else check_slices max_len slices

unfoldable pub check_field : CustomField → Result (Unit {0})
check_field field =
    if ltb max_field_name (len field.name) || ltb max_field_value (len field.value)
    then err limit
    else if not (text_slice_valid field.name false)
        || dangling field.value
        || not (and_not field.flags field_secret == 0)
    then err format
    else ok tt

unfoldable pub check_fields : List CustomField → Result (Unit {0})
check_fields [] = ok tt
check_fields (field ∷ fields) = check_field field >> check_fields fields

-- The tests in front of the loops.
unfoldable pub over_limit : Record → Bool
over_limit r =
    ltb max_title (len r.title)
    || ltb max_username (len r.username)
    || ltb max_password (len r.password)
    || ltb max_notes (len r.notes)
    || ltb max_collection_items (len r.urls)
    || ltb max_collection_items (len r.tags)
    || ltb max_collection_items (len r.fields)

unfoldable pub malformed : Record → Bool
malformed r =
    is_negative r.created_ms
    || is_negative r.updated_ms
    || not (and_not r.flags (record_deleted + record_favorite) == 0)
    || not (text_slice_valid r.title false)
    || not (text_slice_valid r.username true)
    || dangling r.password
    || not (text_slice_valid r.notes true)
    || dangling r.urls
    || dangling r.tags
    || dangling r.fields

unfoldable pub validate_record_fields : Record → Result (Unit {0})
validate_record_fields r =
    if over_limit r
    then err limit
    else if malformed r
    then err format
    else check_slices max_url (items r.urls)
      >> check_slices max_tag (items r.tags)
      >> check_fields (items r.fields)

-- `pv_model_validate_record`
unfoldable pub validate_record : Record → Result (Unit {0})
validate_record r =
    validate_record_fields r >> (if r.revision == 0 || id_is_zero r.id then err format else ok tt)
