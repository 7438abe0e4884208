-- ===== src/Cbor/Seen.antt =====
-- src/cbor_codec.c: records as the decoder sees them, pointers into its input, are valid, and are
-- stored as the records that were written.
use pvault.Base.{ℕ, ◌≡◌, refl, ap, ap₂, List, [], ◌∷◌, ◌++◌, All, arith, map, none, length-map}
use pvault.Cbor.ReadBack.{seen, seen_field, seen_record}
use pvault.Cbor.Refill.{AllFresh, kept_record}
use pvault.Model.Add.{find_id}
use pvault.Model.Invariant.{Distinct}
use pvault.Model.Kept.{All-map, bytes_eq_comm, find_id-append}
use pvault.Model.Room.{stored}
use pvault.Model.Stored.{stored_array, stored_field}
use pvault.Model.Types.{
  Record, CustomField, max_title, max_username, max_password, max_notes, max_url, max_tag,
  max_field_name, max_field_value,
}
use pvault.Model.Valid.{IsRecord, IsText, IsBlob, IsField, IsArray}
use pvault.Util.Slice.{length-items, Slice, Span, null, view, items}

seen-IsText : (maximum : ℕ) (s : Slice) → IsText maximum s → IsText maximum (seen s)
seen-IsText maximum s v = record {
  sound = refl;
  fits = omega (arith, length-items s v.sound, v.fits);
  utf8 = v.utf8;
}

seen-IsBlob : (maximum : ℕ) (s : Slice) → IsBlob maximum s → IsBlob maximum (seen s)
seen-IsBlob maximum s v = record {
  sound = refl;
  fits = omega (arith, length-items s v.sound, v.fits);
}

seen-IsField : (x : CustomField) → IsField x → IsField (seen_field x)
seen-IsField x v = record {
  name = seen-IsText max_field_name x.name v.name;
  named = omega (arith, length-items x.name v.name.sound, v.named);
  value = seen-IsBlob max_field_value x.value v.value;
  flags = v.flags;
}

seen-IsArray {ℓ κ} :
    {A : Type ℓ} (P : A → Type κ) (f : A → A) (xs : Span A)
    → ((x : A) → P x → P (f x))
    → IsArray P xs
    → IsArray P (view (map f (items xs)))
seen-IsArray P f xs k v = record {
  sound = refl;
  few = omega (arith, length-map f (items xs), length-items xs v.sound, v.few);
  each = All-map P f (items xs) k v.each;
}

pub seen-IsRecord : (r : Record) → IsRecord r → IsRecord (seen_record r)
seen-IsRecord r v = record {
  valid = record {
    created = v.valid.created;
    updated = v.valid.updated;
    flags = v.valid.flags;
    title = seen-IsText max_title r.title v.valid.title;
    titled = omega (arith, length-items r.title v.valid.title.sound, v.valid.titled);
    username = seen-IsText max_username r.username v.valid.username;
    password = seen-IsBlob max_password r.password v.valid.password;
    notes = seen-IsText max_notes r.notes v.valid.notes;
    urls = seen-IsArray (IsText max_url) seen r.urls (seen-IsText max_url) v.valid.urls;
    tags = seen-IsArray (IsText max_tag) seen r.tags (seen-IsText max_tag) v.valid.tags;
    fields = seen-IsArray IsField seen_field r.fields seen-IsField v.valid.fields;
  };
  revised = v.revised;
  identified = v.identified;
}

pub seen-All :
    (records : List Record) → All IsRecord records → All IsRecord (map seen_record records)
seen-All records h = All-map IsRecord seen_record records seen-IsRecord h

-- What is seen is stored as what was written.
stored-seen {ℓ} : {A : Type ℓ} (s : Span A) → stored (seen s) ≡ stored s
stored-seen (null n) = refl
stored-seen (view []) = refl
stored-seen (view (x ∷ xs)) = refl

map-map {ℓ} :
    {A : Type ℓ} (f g : A → A) (xs : List A)
    → ((x : A) → f (g x) ≡ f x)
    → map f (map g xs) ≡ map f xs
map-map f g [] h = refl
map-map f g (x ∷ xs) h = ap₂ (λ s t. s ∷ t) (h x) (map-map f g xs h)

stored_array-seen {ℓ} :
    {A : Type ℓ} (f g : A → A) (xs : Span A)
    → ((x : A) → f (g x) ≡ f x)
    → stored_array f (view (map g (items xs))) ≡ stored_array f xs
stored_array-seen f g (null n) h = refl
stored_array-seen f g (view []) h = refl
stored_array-seen f g (view (x ∷ xs)) h = ap view (map-map f g (x ∷ xs) h)

stored-seen_field : (x : CustomField) → stored_field (seen_field x) ≡ stored_field x
stored-seen_field x =
    λ i. record { name = stored-seen x.name i; value = stored-seen x.value i; flags = x.flags }

pub kept-seen : (r : Record) → kept_record (seen_record r) ≡ kept_record r
kept-seen r = λ i. record r {
  title = stored-seen r.title i;
  username = stored-seen r.username i;
  password = stored-seen r.password i;
  notes = stored-seen r.notes i;
  urls = stored_array-seen stored seen r.urls stored-seen i;
  tags = stored_array-seen stored seen r.tags stored-seen i;
  fields = stored_array-seen stored_field seen_field r.fields stored-seen_field i;
}

pub map-kept-seen :
    (records : List Record) → map kept_record (map seen_record records) ≡ map kept_record records
map-kept-seen records = map-map kept_record seen_record records kept-seen

-- No id of `records` is that of a record in `old`.
abbrev pub Unknown : List Record → List Record → Type 0
Unknown old records = All (λ r. find_id r.id old ≡ none) records

pub Unknown-append :
    (old : List Record) (x : Record) (records : List Record)
    → Unknown old records
    → find_id x.id records ≡ none
    → Unknown (old ++ (x ∷ [])) records
unfolding find_id
Unknown-append old x [] h e = tt
Unknown-append old x (r ∷ records) (h, hs) e = (
  find_id-append r.id old x h (ground (arith, bytes_eq_comm x.id r.id)),
  Unknown-append old x records hs (ground arith),
)

pub seen-AllFresh :
    (old records : List Record)
    → Unknown old records
    → Distinct records
    → AllFresh old (map seen_record records)
seen-AllFresh old [] h d = tt
seen-AllFresh old (r ∷ records) (h, hs) (d, ds) = (
  h,
  seen-AllFresh (old ++ (kept_record (seen_record r) ∷ [])) records
      (Unknown-append old (kept_record (seen_record r)) records hs d) ds,
)

pub Unknown-nil : (records : List Record) → Unknown [] records
unfolding find_id
Unknown-nil [] = tt
Unknown-nil (r ∷ records) = (refl, Unknown-nil records)
