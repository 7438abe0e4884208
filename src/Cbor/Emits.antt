-- ===== src/Cbor/Emits.antt =====
-- What the writers of src/cbor_codec.c write, as a list of items.
use pvault.Base.{
  All, ℕ, ◌+◌, ◌≤◌, ◌≡◌, refl, sym, ap, ◌∙◌, false, List, [], ◌∷◌, ◌++◌, length, map, leb,
  if◌then◌else◌, append_assoc, append-nil, length-append, arith, Bool-cases, inl, inr,
}
use pvault.Base.Int.{to_u64}
use pvault.Cbor.Encode.{encode_field, encode_record}
use pvault.Cbor.Items.{
  Item, head, blob, items_bytes, items_bytes-append, items_bytes-rest, flat_items, text_items,
  field_items, list_items, record_items,
}
use pvault.Cbor.Writer.{
  Writer, writer_bytes, append_bytes, writer_type_value, writer_blob, writer_uint, writer_array,
  seq, type_value_bytes,
}
use pvault.Header.{max_plaintext}
use pvault.Model.Types.{CustomField, Record, max_url, max_tag}
use pvault.Model.Valid.{IsText, IsField, HasValidFields}
use pvault.Result.{ok, err, ◌>>=◌}
use pvault.Status.{limit}
use pvault.Util.{size_add}
use pvault.Util.Slice.{Slice, Span, null, view, len, items, dangling}

-- All the bytes fit in the buffer, or the writer fails.
abbrev pub emit : List ℕ → Writer
emit bytes out =
    if leb (length out + length bytes) max_plaintext then ok (out ++ bytes) else err limit

emit-emit : (a b out : List ℕ) → (emit a out >>= emit b) ≡ emit (a ++ b) out
emit-emit a b out = ground (arith, length-append a b, length-append out a, append_assoc out a b)

pub record Writes (w : Writer) (is : List Item) : Type 0 where
  pub at : (out : List ℕ) → length out ≤ max_plaintext → w out ≡ emit (items_bytes is []) out

writer_bytes-emit :
    (bytes out : List ℕ)
    → length out ≤ max_plaintext
    → writer_bytes (view bytes) out ≡ emit bytes out
unfolding writer_bytes append_bytes size_add
writer_bytes-emit [] out h = ground (arith, append-nil out)
writer_bytes-emit (b ∷ bytes) out h = ground arith

-- Where the running total fits before a block, the block either fits or ends the writer.
then_emit :
    (w : Writer) (a b out : List ℕ)
    → ((out' : List ℕ) → length out' ≤ max_plaintext → w out' ≡ emit b out')
    → (emit a out >>= w) ≡ emit (a ++ b) out
then_emit w a b out h = elim (Bool-cases (leb (length out + length a) max_plaintext)) [
  | inl fits ↦ rw fits (
      h (out ++ a) (ground (arith, length-append out a))
      ∙ sym (rw fits at (sym (emit-emit a b out))))
  | inr over ↦ ground (arith, length-append a b)
]

-- The statements of a C function.
pub record WritesAll (ws : List Writer) (is : List Item) : Type 0 where
  pub all : Writes (seq ws) is

pub Writes-none : WritesAll [] []
Writes-none = record { all = record { at = λ out h. unfold seq in ground (arith, append-nil out) } }

seq-cons : (w : Writer) (ws : List Writer) (out : List ℕ) → seq (w ∷ ws) out ≡ (w out >>= seq ws)
unfolding seq
seq-cons w ws out = refl

pub Writes-items :
    {w : Writer} {ws : List Writer} {xs ys : List Item}
    → Writes w xs
    → WritesAll ws ys
    → WritesAll (w ∷ ws) (xs ++ ys)
Writes-items {w} {ws} {xs} {ys} p q = record { all = record { at = joined } }
  where
    bytes : items_bytes (xs ++ ys) [] ≡ items_bytes xs [] ++ items_bytes ys []
    bytes = items_bytes-append xs ys [] ∙ items_bytes-rest xs (items_bytes ys [])

    joined :
        (out : List ℕ)
        → length out ≤ max_plaintext
        → seq (w ∷ ws) out ≡ emit (items_bytes (xs ++ ys) []) out
    joined out h =
        seq-cons w ws out
        ∙ ap (λ t. t >>= seq ws) (p.at out h)
        ∙ then_emit (seq ws) (items_bytes xs []) (items_bytes ys []) out q.all.at
        ∙ ap (λ t. emit t out) (sym bytes)

pub Writes-item :
    {w : Writer} {ws : List Writer} {x : Item} {ys : List Item}
    → Writes w (x ∷ [])
    → WritesAll ws ys
    → WritesAll (w ∷ ws) (x ∷ ys)
Writes-item {x = x} {ys = ys} p q = Writes-items {xs = x ∷ []} {ys = ys} p q

pub Writes-head : (major value : ℕ) → Writes (writer_type_value major value) (head major value ∷ [])
unfolding writer_type_value
Writes-head major value = record {
  at = λ out h. writer_bytes-emit _ out h ∙ ap (λ t. emit t out) (sym (append-nil _));
}

pub Writes-blob :
    (major : ℕ) (slice : Slice)
    → dangling slice ≡ false
    → Writes (writer_blob major slice) (blob major (items slice) ∷ [])
unfolding writer_blob writer_type_value
Writes-blob major (null n) d = record {
  at = λ out h.
      let e : n ≡ 0 = ground arith in
      rw e (
        ap (λ t. t >>= writer_bytes (null 0)) (writer_bytes-emit (type_value_bytes major 0) out h)
        ∙ (unfold writer_bytes in ground (arith, append-nil (type_value_bytes major 0))));
}
Writes-blob major (view bytes) d = record {
  at = λ out h.
      ap (λ t. t >>= writer_bytes (view bytes))
        (writer_bytes-emit (type_value_bytes major (length bytes)) out h)
      ∙ then_emit (writer_bytes (view bytes)) _ bytes out (writer_bytes-emit bytes)
      ∙ ap (λ t. emit t out) (sym (append-nil _));
}

-- A loop of writers.
pub Writes-map {ℓ} :
    {A : Type ℓ} (w : A → Writer) (f : A → List Item) (xs : List A)
    → All (λ x. Writes (w x) (f x)) xs
    → Writes (seq (map w xs)) (flat_items f xs)
Writes-map {A = A} w f xs h = (go xs h).all
  where
    go : (ys : List A) → All (λ x. Writes (w x) (f x)) ys → WritesAll (map w ys) (flat_items f ys)
    go [] h = Writes-none
    go (y ∷ ys) (h, hs) = Writes-items h (go ys hs)

length_of : {A : Type 0} (xs : Span A) → dangling xs ≡ false → len xs ≡ length (items xs)
length_of (null n) d = ground arith
length_of (view xs) d = refl

Writes-texts :
    (maximum : ℕ) (xs : List Slice)
    → All (IsText maximum) xs
    → Writes (seq (map (writer_blob 3) xs)) (flat_items text_items xs)
Writes-texts maximum xs h = Writes-map (writer_blob 3) text_items xs (go xs h)
  where
    go :
        (ys : List Slice)
        → All (IsText maximum) ys
        → All (λ y. Writes (writer_blob 3 y) (text_items y)) ys
    go [] h = tt
    go (y ∷ ys) (h, hs) = (Writes-blob 3 y h.sound, go ys hs)

Writes-field :
    (field : CustomField) → IsField field → Writes (encode_field field) (field_items field)
unfolding encode_field
Writes-field field v =
    (Writes-item (Writes-head 5 3) (
      Writes-item (Writes-head 0 0) (
        Writes-item (Writes-blob 3 field.name v.name.sound) (
          Writes-item (Writes-head 0 1) (
            Writes-item (Writes-blob 2 field.value v.value.sound) (
              Writes-item (Writes-head 0 2)
                (Writes-item (Writes-head 0 field.flags) Writes-none))))))).all

Writes-fields :
    (xs : List CustomField)
    → All IsField xs
    → Writes (seq (map encode_field xs)) (flat_items field_items xs)
Writes-fields xs h = Writes-map encode_field field_items xs (go xs h)
  where
    go :
        (ys : List CustomField)
        → All IsField ys
        → All (λ y. Writes (encode_field y) (field_items y)) ys
    go [] h = tt
    go (y ∷ ys) (h, hs) = (Writes-field y h, go ys hs)

module _ (r : Record) (v : HasValidFields r) where
  array_head :
      {A : Type 0} (xs : Span A)
      → dangling xs ≡ false
      → Writes (writer_array (len xs)) (head 4 (length (items xs)) ∷ [])
  array_head xs d = rw (length_of xs d) (Writes-head 4 (length (items xs)))

  writes_lists :
      WritesAll
        (writer_uint 8
          ∷ writer_array (len r.urls)
          ∷ seq (map (writer_blob 3) (items r.urls))
          ∷ writer_uint 9
          ∷ writer_blob 3 r.notes
          ∷ writer_uint 10
          ∷ writer_array (len r.tags)
          ∷ seq (map (writer_blob 3) (items r.tags))
          ∷ writer_uint 11
          ∷ writer_array (len r.fields)
          ∷ seq (map encode_field (items r.fields))
          ∷ [])
        (list_items r)
  writes_lists = Writes-item (Writes-head 0 8) (
      Writes-item (array_head r.urls v.urls.sound) (
        Writes-items (Writes-texts max_url (items r.urls) v.urls.each) (
          Writes-item (Writes-head 0 9) (
            Writes-item (Writes-blob 3 r.notes v.notes.sound) (
              Writes-item (Writes-head 0 10) (
                Writes-item (array_head r.tags v.tags.sound) (
                  Writes-items (Writes-texts max_tag (items r.tags) v.tags.each) (
                    Writes-item (Writes-head 0 11) (
                      Writes-item (array_head r.fields v.fields.sound) (
                        Writes-items (Writes-fields (items r.fields) v.fields.each)
                          Writes-none))))))))))

  -- The encoder of a record writes the record's items.
  pub Writes-record : Writes (encode_record r) (record_items r)
  unfolding encode_record
  Writes-record =
      (Writes-item (Writes-head 5 12) (
        Writes-item (Writes-head 0 0) (
          Writes-item (Writes-blob 2 (view r.id) refl) (
            Writes-item (Writes-head 0 1) (
              Writes-item (Writes-head 0 r.revision) (
                Writes-item (Writes-head 0 2) (
                  Writes-item (Writes-head 0 (to_u64 r.created_ms)) (
                    Writes-item (Writes-head 0 3) (
                      Writes-item (Writes-head 0 (to_u64 r.updated_ms)) (
                        Writes-item (Writes-head 0 4) (
                          Writes-item (Writes-head 0 r.flags) (
                            Writes-item (Writes-head 0 5) (
                              Writes-item (Writes-blob 3 r.title v.title.sound) (
                                Writes-item (Writes-head 0 6) (
                                  Writes-item (Writes-blob 3 r.username v.username.sound) (
                                    Writes-item (Writes-head 0 7) (
                                      Writes-item (Writes-blob 2 r.password v.password.sound)
                                        writes_lists))))))))))))))))).all
