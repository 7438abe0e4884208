-- ===== src/Model/Stored.antt =====
-- The record that `pv_model_add_record` of src/model.c stores, and the room that it needs.
use pvault.Base.{
  ℕ, suc, ◌+◌, ◌*◌, if◌then◌else◌, ◌<◌, ◌≡◌, true, false, List, [], ◌∷◌, All, length, ltb, ◌==◌,
  arith, map,
}
use pvault.Model.Add.{Env, copy_record, stamped}
use pvault.Model.Copy.{copy_field_loop, copy_slices, copy_fields}
use pvault.Model.Init.{slice_size, field_size}
use pvault.Model.Room.{
  Gives, Gives-pure, Gives-refuse_if, Gives-bind, Gives-le, Gives-alloc, Gives-copy, Gives-copies,
  stored, slices_cost,
}
use pvault.Model.Types.{
  Record, CustomField, max_field_name, max_field_value, max_collection_items, max_title,
  max_username, max_password, max_notes, max_url, max_tag,
}
use pvault.Model.Valid.{IsText, IsBlob, IsField, IsArray, HasValidFields}
use pvault.Status.{usage}
use pvault.Util.Slice.{Slice, Span, null, view, len, items, dangling}

abbrev pub stored_field : CustomField → CustomField
stored_field field = record field { name = stored field.name; value = stored field.value }

abbrev pub stored_array {ℓ} : {A : Type ℓ} → (A → A) → Span A → Span A
stored_array f (null n) = null 0
stored_array f (view []) = null 0
stored_array f (view (x ∷ xs)) = view (map f (x ∷ xs))

abbrev pub fields_cost : List CustomField → ℕ
fields_cost [] = 0
fields_cost (x ∷ xs) = len x.name + 1 + (len x.value + 1) + fields_cost xs

pub IsBlob-of_text : (maximum : ℕ) (s : Slice) → IsText maximum s → IsBlob maximum s
IsBlob-of_text maximum s t = record { sound = t.sound; fits = t.fits }

pub blobs_of_texts :
    (maximum : ℕ) (xs : List Slice) → All (IsText maximum) xs → All (IsBlob maximum) xs
blobs_of_texts maximum [] h = tt
blobs_of_texts maximum (x ∷ xs) (h, hs) = (IsBlob-of_text maximum x h, blobs_of_texts maximum xs hs)

Gives-fields :
    (sources : List CustomField)
    → All IsField sources
    → Gives (copy_field_loop sources) (map stored_field sources) (fields_cost sources)
unfolding copy_field_loop
Gives-fields [] h = Gives-pure []
Gives-fields (x ∷ xs) (h, hs) =
    Gives-le (len x.name + 1 + (len x.value + 1 + (fields_cost xs + 0)))
      (Gives-bind _ (Gives-copy max_field_name x.name (IsBlob-of_text max_field_name x.name h.name))
        (Gives-bind _ (Gives-copy max_field_value x.value h.value)
          (Gives-bind _ (Gives-fields xs hs) (Gives-pure (stored_field x ∷ map stored_field xs)))))
      (omega arith)

-- The array itself, 8-aligned, and what its items point to.
pub Gives-copy_slices :
    (maximum : ℕ) (source : Span Slice)
    → IsArray (IsText maximum) source
    → Gives
        (copy_slices maximum source)
        (stored_array stored source)
        (len source * slice_size + 7 + slices_cost (items source))
unfolding copy_slices
Gives-copy_slices maximum (null n) v =
    let empty : (n == 0) ≡ true = ground (arith, v.sound) in
    rw (empty, copy_slices) (Gives-le 0 (Gives-pure (null 0)) (omega arith))
Gives-copy_slices maximum (view []) v = Gives-le 0 (Gives-pure (null 0)) (omega arith)
Gives-copy_slices maximum (view (x ∷ xs)) v =
    let few : ltb max_collection_items (suc (length xs)) ≡ false = ground (arith, v.few) in
    let some_items : (suc (length xs) == 0) ≡ false = ground arith in
    rw (some_items, few, copy_slices)
      (Gives-le (suc (length xs) * slice_size + 7 + (slices_cost (x ∷ xs) + 0))
        (Gives-alloc 3 (suc (length xs) * slice_size) _ (omega arith) (omega arith) (
          Gives-bind _ (Gives-copies maximum (x ∷ xs) (blobs_of_texts maximum (x ∷ xs) v.each))
            (Gives-pure (view (map stored (x ∷ xs))))))
        (omega arith))

Gives-copy_fields :
    (source : Span CustomField)
    → IsArray IsField source
    → Gives
        (copy_fields source)
        (stored_array stored_field source)
        (len source * field_size + 7 + fields_cost (items source))
unfolding copy_fields
Gives-copy_fields (null n) v =
    let empty : (n == 0) ≡ true = ground (arith, v.sound) in
    rw (empty, copy_fields) (Gives-le 0 (Gives-pure (null 0)) (omega arith))
Gives-copy_fields (view []) v = Gives-le 0 (Gives-pure (null 0)) (omega arith)
Gives-copy_fields (view (x ∷ xs)) v =
    let few : ltb max_collection_items (suc (length xs)) ≡ false = ground (arith, v.few) in
    let some_items : (suc (length xs) == 0) ≡ false = ground arith in
    rw (some_items, few, copy_fields)
      (Gives-le (suc (length xs) * field_size + 7 + (fields_cost (x ∷ xs) + 0))
        (Gives-alloc 3 (suc (length xs) * field_size) _ (omega arith) (omega arith) (
          Gives-bind _ (Gives-fields (x ∷ xs) v.each)
            (Gives-pure (view (map stored_field (x ∷ xs))))))
        (omega arith))

-- What is stored for `source` under `id`.
abbrev pub stored_record : Env → List ℕ → Record → Record
stored_record env id source = record {
  id = id;
  revision = if source.revision == 0 then 1 else source.revision;
  created_ms = stamped source env.now source.created_ms;
  updated_ms = stamped source env.now source.updated_ms;
  flags = source.flags;
  title = stored source.title;
  username = stored source.username;
  password = stored source.password;
  notes = stored source.notes;
  urls = stored_array stored source.urls;
  tags = stored_array stored source.tags;
  fields = stored_array stored_field source.fields;
}

-- An upper bound for what a record takes of the arena, its array slot left out.
abbrev pub record_cost : Record → ℕ
record_cost r =
    len r.title
    + len r.username
    + len r.password
    + len r.notes
    + 4
    + (len r.urls * slice_size + 7 + slices_cost (items r.urls))
    + (len r.tags * slice_size + 7 + slices_cost (items r.tags))
    + (len r.fields * field_size + 7 + fields_cost (items r.fields))

pub stored_named : (s : Slice) → dangling s ≡ false → 0 < len s → (len (stored s) == 0) ≡ false
stored_named (null n) d h = ground arith
stored_named (view []) d h = ground arith
stored_named (view (x ∷ xs)) d h = ground arith

pub Gives-copy_record :
    (env : Env) (id : List ℕ) (r : Record)
    → HasValidFields r
    → Gives (copy_record env id r) (stored_record env id r) (record_cost r)
unfolding copy_record
Gives-copy_record env id r v =
    let kept : (len (stored r.title) == 0) ≡ false = stored_named r.title v.title.sound v.titled in
    Gives-le
      (len r.title
        + 1
        + (0
            + (len r.username
                + 1
                + (len r.password
                    + 1
                    + (len r.notes
                        + 1
                        + ((len r.urls * slice_size + 7 + slices_cost (items r.urls))
                            + ((len r.tags * slice_size + 7 + slices_cost (items r.tags))
                                + ((len r.fields * field_size + 7 + fields_cost (items r.fields))
                                    + 0))))))))
      (Gives-bind _ (Gives-copy max_title r.title (IsBlob-of_text max_title r.title v.title)) (
        Gives-bind _ (Gives-refuse_if usage kept) (
          Gives-bind _
            (Gives-copy max_username r.username (IsBlob-of_text max_username r.username v.username))
            (Gives-bind _ (Gives-copy max_password r.password v.password) (
              Gives-bind _ (Gives-copy max_notes r.notes (IsBlob-of_text max_notes r.notes v.notes))
                (Gives-bind _ (Gives-copy_slices max_url r.urls v.urls) (
                  Gives-bind _ (Gives-copy_slices max_tag r.tags v.tags) (
                    Gives-bind _ (Gives-copy_fields r.fields v.fields)
                      (Gives-pure (stored_record env id r))))))))))
      (omega arith)
