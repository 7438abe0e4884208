-- ===== src/Cbor/ReadBack.antt =====
-- What the decoder of src/cbor_codec.c reads from the items that the encoder writes.
use pvault.Base.{
  append_assoc, ℕ, ◌+◌, ◌^◌, ◌<◌, ◌≡◌, ◌≢◌, refl, ap, ◌∙◌, false, not, ◌||◌, List, [], ◌∷◌, ◌++◌,
  length, All, map, ltb, ◌==◌, arith,
}
use pvault.Base.Bits.{and_not}
use pvault.Base.Int.{ℤ, pos, negsuc, is_negative, to_u64}
use pvault.Base.Zeros.{id_is_zero}
use pvault.Cbor.Decode.{decode_field, decode_temporary, uint32_max, int64_max}
use pvault.Cbor.Items.{
  blob, Item, items_bytes, items_bytes-append, flat_items, text_items, field_items, record_items,
}
use pvault.Cbor.ItemsBack.{
  reader_value-item, reader_expect-item, reader_count-item, reader_slice-item,
}
use pvault.Cbor.Reader.{Reader, read_times, reader_slice, reader_count}
use pvault.Cbor.Writer.{type_value_bytes}
use pvault.Model.Types.{
  CustomField, Record, max_title, max_username, max_password, max_url, max_notes, max_tag,
  max_field_name, max_field_value, max_collection_items, record_deleted, record_favorite,
  field_secret,
}
use pvault.Model.Valid.{IsText, IsBlob, IsField, IsArray, HasValidFields}
use pvault.Result.{ok}
use pvault.Util.Slice.{length-items, Slice, Span, view, items}

-- A slice and a field as they are read: pointers into the input.
abbrev pub seen {ℓ} : {A : Type ℓ} → Span A → Span A
seen xs = view (items xs)

abbrev pub seen_field : CustomField → CustomField
seen_field field = record field { name = seen field.name; value = seen field.value }

read_text :
    (maximum : ℕ) (slice : Slice) (rest : List ℕ)
    → IsText maximum slice
    → maximum < 2 ^ 64
    → reader_slice 3 maximum (items_bytes (text_items slice) rest) ≡ ok (seen slice, rest)
read_text maximum slice rest t small =
    reader_slice-item 3 maximum (items slice) rest (omega arith)
      (omega (arith, length-items slice t.sound, t.fits)) small (ap not t.utf8)

read_blob :
    (maximum : ℕ) (slice : Slice) (rest : List ℕ)
    → IsBlob maximum slice
    → maximum < 2 ^ 64
    → reader_slice 2 maximum (items_bytes (blob 2 (items slice) ∷ []) rest) ≡ ok (seen slice, rest)
read_blob maximum slice rest t small =
    reader_slice-item 2 maximum (items slice) rest (omega arith)
      (omega (arith, length-items slice t.sound, t.fits)) small refl

decode_field-items :
    (field : CustomField) (rest : List ℕ)
    → IsField field
    → field.flags < 2 ^ 32
    → decode_field (items_bytes (field_items field) rest) ≡ ok (seen_field field, rest)
unfolding decode_field
decode_field-items field rest v small =
    let named : (length (items field.name) == 0) ≡ false =
      ground (arith, length-items field.name v.name.sound, v.named) in
    let flagged : (ltb uint32_max field.flags || not (and_not field.flags field_secret == 0))
        ≡ false =
      ground (arith, v.flags) in
    rw (
      reader_count-item 5 3 3 _ (omega arith) (omega arith) (omega arith),
      reader_expect-item 0 _ (omega arith),
      read_text max_field_name field.name _ v.name (omega arith),
      named,
      reader_expect-item 1 _ (omega arith),
      read_blob max_field_value field.value _ v.value (omega arith),
      reader_expect-item 2 _ (omega arith),
      reader_value-item 0 field.flags _ (omega arith) (omega arith),
      flagged,
    )

-- A loop that reads what a loop wrote.
read_times-items {ℓ κ} :
    {A : Type ℓ} {B : Type κ} (m : Reader B) (f : A → List Item) (g : A → B) (xs : List A)
    (ys : List Item) (rest : List ℕ)
    → All (λ x. (t : List ℕ) → m (items_bytes (f x) t) ≡ ok (g x, t)) xs
    → read_times (length xs) m (items_bytes (flat_items f xs ++ ys) rest)
      ≡ ok (map g xs, items_bytes ys rest)
unfolding read_times
read_times-items m f g [] ys rest h = refl
read_times-items m f g (x ∷ xs) ys rest (h, hs) =
    let split : items_bytes ((f x ++ flat_items f xs) ++ ys) rest
        ≡ items_bytes (f x) (items_bytes (flat_items f xs ++ ys) rest) =
      ap (λ t. items_bytes t rest) (append_assoc (f x) (flat_items f xs) ys)
      ∙ items_bytes-append (f x) (flat_items f xs ++ ys) rest in
    rw (split, h (items_bytes (flat_items f xs ++ ys) rest), read_times-items m f g xs ys rest hs)

texts_read :
    (maximum : ℕ) (xs : List Slice)
    → maximum < 2 ^ 64
    → All (IsText maximum) xs
    → All
        (λ x. (t : List ℕ) → reader_slice 3 maximum (items_bytes (text_items x) t) ≡ ok (seen x, t))
        xs
texts_read maximum [] small h = tt
texts_read maximum (x ∷ xs) small (h, hs) =
    (λ t. read_text maximum x t h small, texts_read maximum xs small hs)

abbrev pub SmallFlags : CustomField → Type 0
SmallFlags field = field.flags < 2 ^ 32

fields_read :
    (xs : List CustomField)
    → All IsField xs
    → All SmallFlags xs
    → All
        (λ x. (t : List ℕ) → decode_field (items_bytes (field_items x) t) ≡ ok (seen_field x, t))
        xs
fields_read [] h k = tt
fields_read (x ∷ xs) (h, hs) (k, ks) = (λ t. decode_field-items x t h k, fields_read xs hs ks)

-- The ranges that the C types of a record give.
pub record FitsTypes (r : Record) : Type 0 where
  pub id : length r.id ≡ 16
  pub revision : r.revision < 2 ^ 64
  pub created : to_u64 r.created_ms < 2 ^ 63
  pub updated : to_u64 r.updated_ms < 2 ^ 63
  pub flags : r.flags < 2 ^ 32
  pub fields : All SmallFlags (items r.fields)

abbrev pub seen_record : Record → Record
seen_record r = record r {
  title = seen r.title;
  username = seen r.username;
  password = seen r.password;
  notes = seen r.notes;
  urls = view (map seen (items r.urls));
  tags = view (map seen (items r.tags));
  fields = view (map seen_field (items r.fields));
}

pub nonnegative : (z : ℤ) → is_negative z ≡ false → pos (to_u64 z) ≡ z
nonnegative (pos n) h = refl
nonnegative (negsuc n) h = cc

array_count {ℓ κ} :
    {A : Type ℓ} {P : A → Type κ} (xs : Span A) (rest : List ℕ)
    → IsArray P xs
    → reader_count 4 max_collection_items (type_value_bytes 4 (length (items xs)) ++ rest)
      ≡ ok (length (items xs), rest)
array_count xs rest a =
    reader_count-item 4 max_collection_items (length (items xs)) rest (omega arith)
      (omega (arith, length-items xs a.sound, a.few)) (omega arith)

-- `decode_record` reads back the record that `encode_record` wrote.
pub decode_temporary-items :
    (r : Record) (rest : List ℕ)
    → HasValidFields r
    → r.revision ≢ 0
    → id_is_zero r.id ≡ false
    → FitsTypes r
    → decode_temporary (items_bytes (record_items r) rest) ≡ ok (seen_record r, rest)
unfolding decode_temporary
decode_temporary-items r rest v revised identified t =
    let known : (not (length r.id == 16) || id_is_zero r.id) ≡ false = ground (arith, t.id) in
    let revision_ok : (r.revision == 0) ≡ false = ground arith in
    let created_ok : ltb int64_max (to_u64 r.created_ms) ≡ false = ground (arith, t.created) in
    let updated_ok : ltb int64_max (to_u64 r.updated_ms) ≡ false = ground (arith, t.updated) in
    let flags_ok : (ltb uint32_max r.flags
          || not (and_not r.flags (record_deleted + record_favorite) == 0))
        ≡ false =
      ground (arith, t.flags, v.flags) in
    let titled : (length (items r.title) == 0) ≡ false =
      ground (arith, length-items r.title v.title.sound, v.titled) in
    rw (
      reader_count-item 5 12 12 _ (omega arith) (omega arith) (omega arith),
      reader_expect-item 0 _ (omega arith),
      reader_slice-item 2 16 r.id _ (omega arith) (omega (arith, t.id)) (omega arith) refl,
      known,
      reader_expect-item 1 _ (omega arith),
      reader_value-item 0 r.revision _ (omega arith) t.revision,
      revision_ok,
      reader_expect-item 2 _ (omega arith),
      reader_value-item 0 (to_u64 r.created_ms) _ (omega arith) (omega (arith, t.created)),
      created_ok,
      reader_expect-item 3 _ (omega arith),
      reader_value-item 0 (to_u64 r.updated_ms) _ (omega arith) (omega (arith, t.updated)),
      updated_ok,
      reader_expect-item 4 _ (omega arith),
      reader_value-item 0 r.flags _ (omega arith) (omega (arith, t.flags)),
      flags_ok,
      reader_expect-item 5 _ (omega arith),
      read_text max_title r.title _ v.title (omega arith),
      titled,
      reader_expect-item 6 _ (omega arith),
      read_text max_username r.username _ v.username (omega arith),
      reader_expect-item 7 _ (omega arith),
      read_blob max_password r.password _ v.password (omega arith),
      reader_expect-item 8 _ (omega arith),
      array_count r.urls _ v.urls,
      read_times-items (reader_slice 3 max_url) text_items seen (items r.urls) _ rest
          (texts_read max_url (items r.urls) (omega arith) v.urls.each),
      reader_expect-item 9 _ (omega arith),
      read_text max_notes r.notes _ v.notes (omega arith),
      reader_expect-item 10 _ (omega arith),
      array_count r.tags _ v.tags,
      read_times-items (reader_slice 3 max_tag) text_items seen (items r.tags) _ rest
          (texts_read max_tag (items r.tags) (omega arith) v.tags.each),
      reader_expect-item 11 _ (omega arith),
      array_count r.fields _ v.fields,
      read_times-items decode_field field_items seen_field (items r.fields) [] rest
          (fields_read (items r.fields) v.fields.each t.fields),
      nonnegative r.created_ms v.created,
      nonnegative r.updated_ms v.updated,
    )
