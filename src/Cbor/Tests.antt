-- ===== src/Cbor/Tests.antt =====
-- Runs of the codec of src/cbor_codec.c on a small vault, and a stream decoder for its subset.
use pvault.Base.{
  ℕ, ◌+◌, ◌-◌, ◌/◌, ◌%◌, ◌^◌, ◌≤◌, ◌<◌, ◌≡◌, refl, sym, ap, ◌∙◌, true, false, ◌||◌, Option, none,
  some, List, [], ◌∷◌, ◌++◌, length, length-append, ltb, leb, ◌==◌, if◌then◌else◌, arith,
  append_assoc, Bool-cases, inl, inr,
}
use pvault.Base.Int.{negsuc}
use pvault.Base.Zeros.{id_is_zero}
use pvault.Cbor.Decode.{cbor_decode}
use pvault.Cbor.Encode.{cbor_encode}
use pvault.Cbor.ReadBack.{FitsTypes}
use pvault.Cbor.RoundTrip.{IsEncodable, vault_bytes, cbor_encode-items, cbor_encode-inv}
use pvault.Cbor.Subset.{FitsVault}
use pvault.Cbor.Whole.{ReadsBack, cbor_decode-cbor_encode}
use pvault.Header.{max_plaintext}
use pvault.Model.Add.{find_id}
use pvault.Model.Invariant.{Distinct}
use pvault.Model.Life.{fresh_vault}
use pvault.Model.Samples.{mail, one_record, answers}
use pvault.Model.Tests.{mail-IsRecord}
use pvault.Model.Types.{Vault}
use pvault.Status.{limit, usage}
use pvault.Cbor.Items.{head, blob}
use pvault.Cbor.ItemsBack.{reader_value-item, initial_parts}
use pvault.Cbor.Reader.{reader_value}
use pvault.Cbor.Stream.{StreamDecodes}
use pvault.Cbor.Writer.{type_value_bytes, be_bytes}
use pvault.Result.{Result, ok, err}

-- The major type of the first byte.
abbrev major_of : List ℕ → ℕ
major_of [] = 0
major_of (b ∷ rest) = b / 2 ^ 5

-- How long an item is whose head of `size` bytes says `value`.
abbrev item_length : ℕ → ℕ → ℕ → ℕ
item_length major size value = if (major == 2) || (major == 3) then size + value else size

abbrev finished_item : ℕ → ℕ → Result (ℕ × List ℕ) → Option ℕ
finished_item major whole (err e) = none
finished_item major whole (ok (value, rest)) = some (item_length major (whole - length rest) value)

-- A stream decoder for the subset.
abbrev small_stream : List ℕ → Option ℕ
small_stream input =
    finished_item (major_of input) (length input) (reader_value (major_of input) input)

major_of-item :
    (major value : ℕ) (rest : List ℕ)
    → major < 8
    → value < 2 ^ 64
    → major_of (type_value_bytes major value ++ rest) ≡ major
unfolding type_value_bytes
major_of-item major value rest hm hv = elim (Bool-cases (ltb value 24)) [
  | inl small ↦ rw small ((initial_parts major (value % 256) hm (ground arith)).0)
  | inr p ↦ rw p elim (Bool-cases (leb value 0xff)) [
    | inl q ↦ rw q ((initial_parts major 24 hm (omega arith)).0)
    | inr q ↦ rw q elim (Bool-cases (leb value 0xffff)) [
      | inl r ↦ rw r ((initial_parts major 25 hm (omega arith)).0)
      | inr r ↦ rw r elim (Bool-cases (leb value 0xffffffff)) [
        | inl s ↦ rw s ((initial_parts major 26 hm (omega arith)).0)
        | inr s ↦ rw s ((initial_parts major 27 hm (omega arith)).0)
      ]
    ]
  ]
]

small_stream-head :
    (major value : ℕ) (rest : List ℕ)
    → major < 8
    → value < 2 ^ 64
    → small_stream (type_value_bytes major value ++ rest)
      ≡ some (item_length major (length (type_value_bytes major value)) value)
small_stream-head major value rest hm hv =
    rw (major_of-item major value rest hm hv, reader_value-item major value rest hm hv)
      (ap (λ t. some (item_length major t value))
        (omega (arith, length-append (type_value_bytes major value) rest)))

small_stream-decodes : StreamDecodes small_stream
small_stream-decodes (head major value) rest (known, fits) =
    let hm : major < 8 = ground arith in
    let plain : ((major == 2) || (major == 3)) ≡ false = ground arith in
    small_stream-head major value rest hm fits ∙ rw plain
small_stream-decodes (blob major bytes) rest (known, fits) =
    let hm : major < 8 = ground arith in
    ap small_stream (append_assoc (type_value_bytes major (length bytes)) bytes rest)
    ∙ small_stream-head major (length bytes) (bytes ++ rest) hm fits
    ∙ rw known (ap some (sym (length-append (type_value_bytes major (length bytes)) bytes)))

mail-FitsTypes : FitsTypes mail
mail-FitsTypes = record {
  id = refl;
  revision = omega arith;
  created = omega arith;
  updated = omega arith;
  flags = omega arith;
  fields = (omega arith, tt);
}

one_record-FitsVault : FitsVault one_record
one_record-FitsVault = record {
  generation = omega arith;
  device = refl;
  created = omega arith;
  updated = omega arith;
  few = omega arith;
  records = (mail-FitsTypes, tt);
}

one_record-IsEncodable : IsEncodable one_record
unfolding id_is_zero
one_record-IsEncodable = record {
  created = refl;
  updated = refl;
  device = refl;
  records = (mail-IsRecord, tt);
}

one_record_out : cbor_encode true one_record ≡ ok (vault_bytes one_record)
unfolding vault_bytes type_value_bytes be_bytes
one_record_out = cbor_encode-items one_record one_record-IsEncodable

cbor_encode-items_example : cbor_encode true one_record ≡ (
    if leb (length (vault_bytes one_record)) max_plaintext
    then ok (vault_bytes one_record)
    else err limit)
cbor_encode-items_example = cbor_encode-items one_record one_record-IsEncodable

cbor_encode-inv_example :
    IsEncodable one_record
    × (vault_bytes one_record ≡ vault_bytes one_record)
    × (length (vault_bytes one_record) ≤ max_plaintext)
cbor_encode-inv_example = cbor_encode-inv one_record one_record_out

one_record-Distinct : Distinct one_record.records
unfolding find_id
one_record-Distinct = (refl, tt)

cbor_decode-cbor_encode_example :
    (w : Vault) × (cbor_decode small_stream
        (λ i. answers)
        true
        (vault_bytes one_record)
        (fresh_vault [])
      ≡ ok w)
    × ReadsBack [] one_record w
cbor_decode-cbor_encode_example =
    cbor_decode-cbor_encode small_stream (λ i. answers) [] one_record one_record_out
      small_stream-decodes one_record-FitsVault one_record-Distinct (omega arith)

no_date_before_1970 :
    cbor_encode true (record one_record { generation = 5; created_ms = negsuc 0 }) ≡ err usage
unfolding cbor_encode
no_date_before_1970 = refl
