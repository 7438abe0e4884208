-- ===== src/Cbor/Items.antt =====
-- The data items of the deterministic CBOR subset: a head (major type and number), or a string with
-- its bytes; and the items of a vault.
use pvault.Base.{ℕ, ◌≡◌, refl, sym, ap, ◌∙◌, List, [], ◌∷◌, ◌++◌, length, append_assoc}
use pvault.Cbor.Writer.{type_value_bytes}
use pvault.Base.Int.{to_u64}
use pvault.Model.Types.{CustomField, Record, Vault}
use pvault.Util.Slice.{Slice, items}

-- What one statement of the encoder writes.
pub data Item : Type 0 where
  head : ℕ → ℕ → Item
  blob : ℕ → List ℕ → Item

abbrev pub item_bytes : Item → List ℕ
item_bytes (head major value) = type_value_bytes major value
item_bytes (blob major bytes) = type_value_bytes major (length bytes) ++ bytes

-- The bytes of items, with what follows them.
abbrev pub items_bytes : List Item → List ℕ → List ℕ
items_bytes [] rest = rest
items_bytes (item ∷ more) rest = item_bytes item ++ items_bytes more rest

pub items_bytes-append :
    (xs ys : List Item) (rest : List ℕ)
    → items_bytes (xs ++ ys) rest ≡ items_bytes xs (items_bytes ys rest)
items_bytes-append [] ys rest = refl
items_bytes-append (x ∷ xs) ys rest = ap (λ t. item_bytes x ++ t) (items_bytes-append xs ys rest)

pub items_bytes-rest :
    (xs : List Item) (rest : List ℕ) → items_bytes xs rest ≡ items_bytes xs [] ++ rest
items_bytes-rest [] rest = refl
items_bytes-rest (x ∷ xs) rest =
    ap (λ t. item_bytes x ++ t) (items_bytes-rest xs rest)
    ∙ sym (append_assoc (item_bytes x) (items_bytes xs []) rest)

abbrev pub flat_items {ℓ} : {A : Type ℓ} → (A → List Item) → List A → List Item
flat_items f [] = []
flat_items f (x ∷ xs) = f x ++ flat_items f xs

abbrev pub uint : ℕ → Item
uint value = head 0 value

-- The items of a custom field, of a record and of a vault, as docs/FORMAT.md lists them.
abbrev pub field_items : CustomField → List Item
field_items field =
    head 5 3
    ∷ uint 0
    ∷ blob 3 (items field.name)
    ∷ uint 1
    ∷ blob 2 (items field.value)
    ∷ uint 2
    ∷ uint field.flags
    ∷ []

abbrev pub text_items : Slice → List Item
text_items slice = blob 3 (items slice) ∷ []

abbrev pub list_items : Record → List Item
list_items r =
    uint 8
    ∷ head 4 (length (items r.urls))
    ∷ (flat_items text_items (items r.urls)
        ++ (uint 9
            ∷ blob 3 (items r.notes)
            ∷ uint 10
            ∷ head 4 (length (items r.tags))
            ∷ (flat_items text_items (items r.tags)
                ++ (uint 11
                    ∷ head 4 (length (items r.fields))
                    ∷ (flat_items field_items (items r.fields) ++ [])))))

abbrev pub record_items : Record → List Item
record_items r =
    head 5 12
    ∷ uint 0
    ∷ blob 2 r.id
    ∷ uint 1
    ∷ uint r.revision
    ∷ uint 2
    ∷ uint (to_u64 r.created_ms)
    ∷ uint 3
    ∷ uint (to_u64 r.updated_ms)
    ∷ uint 4
    ∷ uint r.flags
    ∷ uint 5
    ∷ blob 3 (items r.title)
    ∷ uint 6
    ∷ blob 3 (items r.username)
    ∷ uint 7
    ∷ blob 2 (items r.password)
    ∷ list_items r

abbrev pub vault_items : Vault → List Item
vault_items vault =
    head 5 6
    ∷ uint 0
    ∷ uint 1
    ∷ uint 1
    ∷ uint vault.generation
    ∷ uint 2
    ∷ blob 2 vault.device_id
    ∷ uint 3
    ∷ uint (to_u64 vault.created_ms)
    ∷ uint 4
    ∷ uint (to_u64 vault.updated_ms)
    ∷ uint 5
    ∷ head 4 (length vault.records)
    ∷ (flat_items record_items vault.records ++ [])
