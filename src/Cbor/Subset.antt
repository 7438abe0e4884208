-- ===== src/Cbor/Subset.antt =====
-- The items of an encoded vault of src/cbor_codec.c are those of the subset that libcbor is asked about.
use pvault.Base.{
  ℕ, ◌/◌, ◌^◌, ◌≤◌, ◌<◌, ◌≡◌, refl, true, ◌||◌, List, [], ◌∷◌, ◌++◌, All, All-append, length, ◌==◌,
  arith,
}
use pvault.Base.Int.{to_u64}
use pvault.Cbor.Items.{
  Item, head, blob, uint, flat_items, text_items, field_items, list_items, record_items,
  vault_items,
}
use pvault.Cbor.ReadBack.{FitsTypes, SmallFlags}
use pvault.Cbor.RoundTrip.{IsEncodable}
use pvault.Cbor.Stream.{IsItem}
use pvault.Header.{max_plaintext}
use pvault.Model.Types.{
  CustomField, Record, Vault, max_title, max_username, max_password, max_url, max_notes, max_tag,
  max_field_name, max_field_value,
}
use pvault.Model.Valid.{IsRecord, IsText, IsField, IsArray, IsBlob}
use pvault.Util.Slice.{length-items, Slice, Span, items}

-- The ranges that the C types of a vault give, and the decoder's bound on the count of records.
pub record FitsVault (v : Vault) : Type 0 where
  pub generation : v.generation < 2 ^ 64
  pub device : length v.device_id ≡ 16
  pub created : to_u64 v.created_ms < 2 ^ 63
  pub updated : to_u64 v.updated_ms < 2 ^ 63
  pub few : length v.records ≤ max_plaintext / 64
  pub records : All FitsTypes v.records

record AreItems (xs : List Item) : Type 0 where
  pub all : All IsItem xs

AreItems-number :
    (key : ℕ) {value : ℕ} {xs : List Item}
    → key < 16
    → value < 2 ^ 64
    → AreItems xs
    → AreItems (uint key ∷ uint value ∷ xs)
AreItems-number key h v t = record { all = ((refl, omega arith), ((refl, v), t.all)) }

AreItems-string :
    (key major : ℕ) {bytes : List ℕ} {xs : List Item}
    → key < 16
    → ((major == 2) || (major == 3)) ≡ true
    → length bytes < 2 ^ 64
    → AreItems xs
    → AreItems (uint key ∷ blob major bytes ∷ xs)
AreItems-string key major h m v t = record { all = ((refl, omega arith), ((m, v), t.all)) }

-- A key with an array.
AreItems-array :
    (key : ℕ) {count : ℕ} {xs ys : List Item}
    → key < 16
    → count < 2 ^ 64
    → AreItems xs
    → AreItems ys
    → AreItems (uint key ∷ head 4 count ∷ (xs ++ ys))
AreItems-array key {count} {xs} {ys} h v t u = record {
  all = ((refl, omega arith), ((refl, v), All-append IsItem xs ys t.all u.all));
}

AreItems-map :
    (count : ℕ) {xs : List Item} → count < 16 → AreItems xs → AreItems (head 5 count ∷ xs)
AreItems-map count h t = record { all = ((refl, omega arith), t.all) }

AreItems-none : AreItems []
AreItems-none = record { all = tt }

AreItems-append : {xs ys : List Item} → AreItems xs → AreItems ys → AreItems (xs ++ ys)
AreItems-append {xs} {ys} t u = record { all = All-append IsItem xs ys t.all u.all }

short : (maximum : ℕ) (s : Slice) → maximum < 2 ^ 64 → IsText maximum s → length (items s) < 2 ^ 64
short maximum s h t = omega (arith, length-items s t.sound, t.fits)

short_blob :
    (maximum : ℕ) (s : Slice) → maximum < 2 ^ 64 → IsBlob maximum s → length (items s) < 2 ^ 64
short_blob maximum s h t = omega (arith, length-items s t.sound, t.fits)

short_array {ℓ κ} :
    {A : Type ℓ} {P : A → Type κ} (xs : Span A) → IsArray P xs → length (items xs) < 2 ^ 64
short_array xs a = omega (arith, length-items xs a.sound, a.few)

AreItems-texts :
    (maximum : ℕ) (xs : List Slice)
    → maximum < 2 ^ 64
    → All (IsText maximum) xs
    → AreItems (flat_items text_items xs)
AreItems-texts maximum [] h t = AreItems-none
AreItems-texts maximum (x ∷ xs) h (t, ts) = record {
  all = ((refl, short maximum x h t), (AreItems-texts maximum xs h ts).all);
}

AreItems-fields :
    (xs : List CustomField)
    → All IsField xs
    → All SmallFlags xs
    → AreItems (flat_items field_items xs)
AreItems-fields [] h k = AreItems-none
AreItems-fields (x ∷ xs) (h, hs) (k, ks) = AreItems-map 3 (omega arith) (
    AreItems-string 0 3 (omega arith) refl (short max_field_name x.name (omega arith) h.name) (
      AreItems-string 1 2 (omega arith) refl
        (short_blob max_field_value x.value (omega arith) h.value)
        (AreItems-number 2 (omega arith) (omega (arith, k)) (AreItems-fields xs hs ks))))

AreItems-lists : (r : Record) → IsRecord r → FitsTypes r → AreItems (list_items r)
AreItems-lists r v t =
    AreItems-array 8 (omega arith) (short_array r.urls v.valid.urls)
      (AreItems-texts max_url (items r.urls) (omega arith) v.valid.urls.each)
      (AreItems-string 9 3 (omega arith) refl (short max_notes r.notes (omega arith) v.valid.notes)
        (AreItems-array 10 (omega arith) (short_array r.tags v.valid.tags)
          (AreItems-texts max_tag (items r.tags) (omega arith) v.valid.tags.each)
          (AreItems-array 11 (omega arith) (short_array r.fields v.valid.fields)
            (AreItems-fields (items r.fields) v.valid.fields.each t.fields) AreItems-none)))

AreItems-record : (r : Record) → IsRecord r → FitsTypes r → AreItems (record_items r)
AreItems-record r v t = AreItems-map 12 (omega arith) (
    AreItems-string 0 2 (omega arith) refl (omega (arith, t.id)) (
      AreItems-number 1 (omega arith) t.revision (
        AreItems-number 2 (omega arith) (omega (arith, t.created)) (
          AreItems-number 3 (omega arith) (omega (arith, t.updated)) (
            AreItems-number 4 (omega arith) (omega (arith, t.flags)) (
              AreItems-string 5 3 (omega arith) refl
                (short max_title r.title (omega arith) v.valid.title)
                (AreItems-string 6 3 (omega arith) refl
                  (short max_username r.username (omega arith) v.valid.username)
                  (AreItems-string 7 2 (omega arith) refl
                    (short_blob max_password r.password (omega arith) v.valid.password)
                    (AreItems-lists r v t)))))))))

AreItems-records :
    (records : List Record)
    → All IsRecord records
    → All FitsTypes records
    → AreItems (flat_items record_items records)
AreItems-records [] h t = AreItems-none
AreItems-records (r ∷ records) (h, hs) (t, ts) =
    AreItems-append (AreItems-record r h t) (AreItems-records records hs ts)

pub vault-IsItem : (v : Vault) → IsEncodable v → FitsVault v → All IsItem (vault_items v)
vault-IsItem v e t =
    (AreItems-map 6 (omega arith) (
      AreItems-number 0 (omega arith) (omega arith) (
        AreItems-number 1 (omega arith) t.generation (
          AreItems-string 2 2 (omega arith) refl (omega (arith, t.device)) (
            AreItems-number 3 (omega arith) (omega (arith, t.created)) (
              AreItems-number 4 (omega arith) (omega (arith, t.updated)) (
                AreItems-array 5 (omega arith) (omega (arith, t.few))
                  (AreItems-records v.records e.records t.records) AreItems-none))))))).all
