-- ===== src/Model/Valid.antt =====
-- What `validate_record_fields` and `pv_model_validate_record` of src/model.c accept.
use pvault.Base.{
  ℕ, ◌+◌, ◌≤◌, ◌<◌, ◌≡◌, ◌≢◌, ◌↔◌, refl, Bool, true, false, List, [], ◌∷◌, All, arith,
}
use pvault.Base.Bits.{and_not}
use pvault.Base.Int.{is_negative}
use pvault.Base.Zeros.{id_is_zero}
use pvault.Model.Types.{
  CustomField, Record, max_title, max_username, max_password, max_url, max_notes, max_tag,
  max_field_name, max_field_value, max_collection_items, record_deleted, record_favorite,
  field_secret,
}
use pvault.Model.Validate.{
  text_slice_valid, check_slices, check_field, check_fields, over_limit, malformed,
  validate_record_fields, validate_record,
}
use pvault.Result.{ok}
use pvault.Util.Slice.{Slice, Span, len, items, dangling}
use pvault.Util.Utf8.{utf8_valid}

-- Text of at most `maximum` bytes that is UTF-8.
pub record IsText (maximum : ℕ) (slice : Slice) : Type 0 where
  pub sound : dangling slice ≡ false
  pub fits : len slice ≤ maximum
  pub utf8 : utf8_valid (items slice) ≡ true

pub record IsBlob (maximum : ℕ) (slice : Slice) : Type 0 where
  pub sound : dangling slice ≡ false
  pub fits : len slice ≤ maximum

pub record IsField (field : CustomField) : Type 0 where
  pub name : IsText max_field_name field.name
  pub named : 0 < len field.name
  pub value : IsBlob max_field_value field.value
  pub flags : and_not field.flags field_secret ≡ 0

pub record IsArray {ℓ κ} {A : Type ℓ} (P : A → Type κ) (xs : Span A) : Type κ where
  pub sound : dangling xs ≡ false
  pub few : len xs ≤ max_collection_items
  pub each : All P (items xs)

pub record HasValidFields (r : Record) : Type 0 where
  pub created : is_negative r.created_ms ≡ false
  pub updated : is_negative r.updated_ms ≡ false
  pub flags : and_not r.flags (record_deleted + record_favorite) ≡ 0
  pub title : IsText max_title r.title
  pub titled : 0 < len r.title
  pub username : IsText max_username r.username
  pub password : IsBlob max_password r.password
  pub notes : IsText max_notes r.notes
  pub urls : IsArray (IsText max_url) r.urls
  pub tags : IsArray (IsText max_tag) r.tags
  pub fields : IsArray IsField r.fields

check_slices→All :
    (maximum : ℕ) (xs : List Slice) → check_slices maximum xs ≡ ok tt → All (IsText maximum) xs
unfolding check_slices text_slice_valid
check_slices→All maximum [] e = tt
check_slices→All maximum (x ∷ xs) e = (
  record { sound = ground arith; fits = ground arith; utf8 = ground arith },
  check_slices→All maximum xs (ground arith),
)

check_fields→All : (xs : List CustomField) → check_fields xs ≡ ok tt → All IsField xs
unfolding check_fields check_field text_slice_valid
check_fields→All [] e = tt
check_fields→All (x ∷ xs) e = (
  record {
    name = record { sound = ground arith; fits = ground arith; utf8 = ground arith };
    named = ground arith;
    value = record { sound = ground arith; fits = ground arith };
    flags = ground arith;
  },
  check_fields→All xs (ground arith),
)

All→check_slices :
    (maximum : ℕ) (xs : List Slice) → All (IsText maximum) xs → check_slices maximum xs ≡ ok tt
unfolding check_slices text_slice_valid
All→check_slices maximum [] h = refl
All→check_slices maximum (x ∷ xs) (h, hs) = ground (arith, All→check_slices maximum xs hs)

check_field-IsField : (x : CustomField) → IsField x → check_field x ≡ ok tt
unfolding check_field text_slice_valid
check_field-IsField x h =
    ground (arith, h.name.sound, h.name.utf8, h.name.fits, h.value.sound, h.value.fits)

All→check_fields : (xs : List CustomField) → All IsField xs → check_fields xs ≡ ok tt
unfolding check_fields
All→check_fields [] h = refl
All→check_fields (x ∷ xs) (h, hs) = rw (check_field-IsField x h) (All→check_fields xs hs)

valid-IsText :
    (maximum : ℕ) (slice : Slice) (allow_empty : Bool)
    → len slice ≤ maximum
    → text_slice_valid slice allow_empty ≡ true
    → IsText maximum slice
unfolding text_slice_valid
valid-IsText maximum slice allow_empty h e = record {
  sound = ground arith;
  fits = h;
  utf8 = ground arith;
}

text_nonempty : (slice : Slice) → text_slice_valid slice false ≡ true → 0 < len slice
unfolding text_slice_valid
text_nonempty slice e = ground arith

within_limits_inv :
    (r : Record)
    → over_limit r ≡ false
    → (len r.title ≤ max_title)
      × (len r.username ≤ max_username)
      × (len r.password ≤ max_password)
      × (len r.notes ≤ max_notes)
      × (len r.urls ≤ max_collection_items)
      × (len r.tags ≤ max_collection_items)
      × (len r.fields ≤ max_collection_items)
unfolding over_limit
within_limits_inv r e = ground arith

well_shaped_inv :
    (r : Record)
    → malformed r ≡ false
    → (is_negative r.created_ms ≡ false)
      × (is_negative r.updated_ms ≡ false)
      × (and_not r.flags (record_deleted + record_favorite) ≡ 0)
      × (text_slice_valid r.title false ≡ true)
      × (text_slice_valid r.username true ≡ true)
      × (dangling r.password ≡ false)
      × (text_slice_valid r.notes true ≡ true)
      × (dangling r.urls ≡ false)
      × (dangling r.tags ≡ false)
      × (dangling r.fields ≡ false)
unfolding malformed
well_shaped_inv r e = ground arith

passed :
    (r : Record)
    → validate_record_fields r ≡ ok tt
    → (over_limit r ≡ false)
      × (malformed r ≡ false)
      × (check_slices max_url (items r.urls) ≡ ok tt)
      × (check_slices max_tag (items r.tags) ≡ ok tt)
      × (check_fields (items r.fields) ≡ ok tt)
unfolding validate_record_fields
passed r e = ground arith

valid_fields : (r : Record) → validate_record_fields r ≡ ok tt → HasValidFields r
valid_fields r e =
    let (limits, shape, urls_ok, tags_ok, fields_ok) = passed r e in
    let (l0, l1, l2, l3, l4, l5, l6) = within_limits_inv r limits in
    let (s0, s1, s2, s3, s4, s5, s6, s7, s8, s9) = well_shaped_inv r shape in
    record {
      created = s0;
      updated = s1;
      flags = s2;
      title = valid-IsText max_title r.title false l0 s3;
      titled = text_nonempty r.title s3;
      username = valid-IsText max_username r.username true l1 s4;
      password = record { sound = s5; fits = l2 };
      notes = valid-IsText max_notes r.notes true l3 s6;
      urls = record {
        sound = s7;
        few = l4;
        each = check_slices→All max_url (items r.urls) urls_ok;
      };
      tags = record {
        sound = s8;
        few = l5;
        each = check_slices→All max_tag (items r.tags) tags_ok;
      };
      fields = record { sound = s9; few = l6; each = check_fields→All (items r.fields) fields_ok };
    }

within_limits : (r : Record) → HasValidFields r → over_limit r ≡ false
unfolding over_limit
within_limits r v = ground (
  arith, v.title.fits, v.username.fits, v.password.fits, v.notes.fits, v.urls.few, v.tags.few,
  v.fields.few,
)

well_shaped : (r : Record) → HasValidFields r → malformed r ≡ false
unfolding malformed text_slice_valid
well_shaped r v = ground (
  arith, v.title.sound, v.title.utf8, v.username.sound, v.username.utf8, v.password.sound,
  v.notes.sound, v.notes.utf8, v.urls.sound, v.tags.sound, v.fields.sound,
)

-- `validate_record_fields` accepts exactly the records with valid fields.
pub validate_record_fields_iff :
    (r : Record) → (validate_record_fields r ≡ ok tt) ↔ HasValidFields r
validate_record_fields_iff r = (
  λ e. valid_fields r e,
  λ v.
      unfold validate_record_fields in
      rw (
        within_limits r v,
        well_shaped r v,
        All→check_slices max_url (items r.urls) v.urls.each,
        All→check_slices max_tag (items r.tags) v.tags.each,
        All→check_fields (items r.fields) v.fields.each,
      ),
)

-- pv_model_validate_record accepts exactly the records with valid fields (times, flags, lengths,
-- UTF-8, counts), a revision and an id.
pub validate_record_iff :
    (r : Record)
    → (validate_record r ≡ ok tt)
      ↔ (HasValidFields r × (r.revision ≢ 0) × (id_is_zero r.id ≡ false))
unfolding validate_record
validate_record_iff r = (
  λ e. ((validate_record_fields_iff r).0 (ground arith), ground arith, ground arith),
  λ p. rw ((validate_record_fields_iff r).1 p.0, p.2) (ground arith),
)

-- What `pv_model_validate_record` accepts.
pub record IsRecord (r : Record) : Type 0 where
  pub valid : HasValidFields r
  pub revised : r.revision ≢ 0
  pub identified : id_is_zero r.id ≡ false
