-- ===== src/Model/SettlesRecord.antt =====
-- `copy_slices`, `copy_fields` and the copies of `pv_model_add_record` of src/model.c in any arena.
use pvault.Base.{ℕ, suc, ◌*◌, ◌≡◌, true, false, [], List, ◌∷◌, All, length, ltb, ◌==◌, arith, map}
use pvault.Model.Add.{Env, copy_record}
use pvault.Model.Copy.{copy_slice_loop, copy_field_loop, copy_slices, copy_fields}
use pvault.Model.Init.{slice_size, field_size}
use pvault.Model.Room.{stored}
use pvault.Model.Settles.{
  Settles, Settles-pure, Settles-refuse_if, Settles-bind, Settles-alloc, Settles-copy,
}
use pvault.Model.Stored.{
  stored_field, stored_array, stored_record, stored_named, IsBlob-of_text, blobs_of_texts,
}
use pvault.Model.Types.{
  Record, CustomField, max_title, max_username, max_password, max_notes, max_url, max_tag,
  max_field_name, max_field_value, max_collection_items,
}
use pvault.Model.Valid.{IsText, IsBlob, IsField, IsArray, HasValidFields}
use pvault.Status.{usage}
use pvault.Util.Slice.{Slice, Span, null, view, len}

Settles-copies :
    (maximum : ℕ) (sources : List Slice)
    → All (IsBlob maximum) sources
    → Settles (copy_slice_loop maximum sources) (map stored sources)
unfolding copy_slice_loop
Settles-copies maximum [] h = Settles-pure []
Settles-copies maximum (x ∷ xs) (h, hs) =
    Settles-bind _ (Settles-copy maximum x h)
      (Settles-bind _ (Settles-copies maximum xs hs) (Settles-pure (stored x ∷ map stored xs)))

Settles-fields :
    (sources : List CustomField)
    → All IsField sources
    → Settles (copy_field_loop sources) (map stored_field sources)
unfolding copy_field_loop
Settles-fields [] h = Settles-pure []
Settles-fields (x ∷ xs) (h, hs) =
    Settles-bind _
      (Settles-copy max_field_name x.name (IsBlob-of_text max_field_name x.name h.name))
      (Settles-bind _ (Settles-copy max_field_value x.value h.value) (
        Settles-bind _ (Settles-fields xs hs)
          (Settles-pure (stored_field x ∷ map stored_field xs))))

Settles-copy_slices :
    (maximum : ℕ) (source : Span Slice)
    → IsArray (IsText maximum) source
    → Settles (copy_slices maximum source) (stored_array stored source)
unfolding copy_slices
Settles-copy_slices maximum (null n) v =
    let empty : (n == 0) ≡ true = ground (arith, v.sound) in
    rw (empty, copy_slices) (Settles-pure (null 0))
Settles-copy_slices maximum (view []) v = Settles-pure (null 0)
Settles-copy_slices maximum (view (x ∷ xs)) v =
    let few : ltb max_collection_items (suc (length xs)) ≡ false = ground (arith, v.few) in
    let some_items : (suc (length xs) == 0) ≡ false = ground arith in
    rw (some_items, few, copy_slices)
      (Settles-alloc 3 (suc (length xs) * slice_size) _ (omega arith) (
        Settles-bind _ (Settles-copies maximum (x ∷ xs) (blobs_of_texts maximum (x ∷ xs) v.each))
          (Settles-pure (view (map stored (x ∷ xs))))))

Settles-copy_fields :
    (source : Span CustomField)
    → IsArray IsField source
    → Settles (copy_fields source) (stored_array stored_field source)
unfolding copy_fields
Settles-copy_fields (null n) v =
    let empty : (n == 0) ≡ true = ground (arith, v.sound) in
    rw (empty, copy_fields) (Settles-pure (null 0))
Settles-copy_fields (view []) v = Settles-pure (null 0)
Settles-copy_fields (view (x ∷ xs)) v =
    let few : ltb max_collection_items (suc (length xs)) ≡ false = ground (arith, v.few) in
    let some_items : (suc (length xs) == 0) ≡ false = ground arith in
    rw (some_items, few, copy_fields)
      (Settles-alloc 3 (suc (length xs) * field_size) _ (omega arith) (
        Settles-bind _ (Settles-fields (x ∷ xs) v.each)
          (Settles-pure (view (map stored_field (x ∷ xs))))))

pub Settles-copy_record :
    (env : Env) (id : List ℕ) (r : Record)
    → HasValidFields r
    → Settles (copy_record env id r) (stored_record env id r)
unfolding copy_record
Settles-copy_record env id r v =
    let kept : (len (stored r.title) == 0) ≡ false = stored_named r.title v.title.sound v.titled in
    Settles-bind _ (Settles-copy max_title r.title (IsBlob-of_text max_title r.title v.title)) (
      Settles-bind _ (Settles-refuse_if usage kept) (
        Settles-bind _
          (Settles-copy max_username r.username (IsBlob-of_text max_username r.username v.username))
          (Settles-bind _ (Settles-copy max_password r.password v.password) (
            Settles-bind _
              (Settles-copy max_notes r.notes (IsBlob-of_text max_notes r.notes v.notes))
              (Settles-bind _ (Settles-copy_slices max_url r.urls v.urls) (
                Settles-bind _ (Settles-copy_slices max_tag r.tags v.tags) (
                  Settles-bind _ (Settles-copy_fields r.fields v.fields)
                    (Settles-pure (stored_record env id r)))))))))
