-- ===== src/Store/Prior.antt =====
-- The statuses that the calls before the write in `save_locked` of src/store.c can answer.
use pvault.Base.{
  ℕ, ◌≡◌, ◌≢◌, refl, sym, ap, ◌∙◌, inl, inr, Bool, true, false, not, ◌||◌, Option, none, some, List,
  [], ◌∷◌, length, take, ltb, if◌then◌else◌, arith,
}
use pvault.Base.Int.{is_negative}
use pvault.Base.Zeros.{id_is_zero}
use pvault.Cbor.Encode.{validate_records, cbor_encode}
use pvault.Cbor.RoundTrip.{IsEncodable, Writes-vault, validated}
use pvault.Header.{file_header_len, header_decode}
use pvault.Header.Checks.{header_decode_errors}
use pvault.Model.Types.{CustomField, Record, Vault, max_url, max_tag}
use pvault.Model.Validate.{
  check_slices, check_field, check_fields, validate_record_fields, validate_record, over_limit,
  malformed,
}
use pvault.Result.{Result, ok, err, ◌>>◌}
use pvault.Result.Ends.{Ends, value, error, Any, bind-Ends, then-Ends, or_fail-Ends, refuse-Ends}
use pvault.Status.{Status, usage, io, limit, format, nomem, state, secure_memory, durability}
use pvault.Store.Snapshot.{is_durability}
use pvault.Store.Read.{ReadAnswers, Hash, read_disk_file}
use pvault.Store.{File}
use pvault.Util.Slice.{Slice, items}

abbrev pub Prior : Status → Type 0
Prior e = is_durability e ≡ false

abbrev pub IsPrior {ℓ} : {A : Type ℓ} → Result A → Type ℓ
IsPrior r = Ends Any Prior r

pub error-distinct {ℓ} : {A : Type ℓ} (e : Status) → IsPrior {A = A} (err e) → e ≢ durability
error-distinct e (error h) p = let clash : true ≡ false = sym (ap is_durability p) ∙ h in cc

-- A test at the head.
pub unless {ℓ} :
    {A : Type ℓ} (b : Bool) (e : Status) {r : Result A}
    → Prior e
    → IsPrior r
    → IsPrior (if b then err e else r)
unless b e h k = refuse-Ends b e h (λ _. k)

pub either {ℓ} :
    {A : Type ℓ} (b : Bool) {r q : Result A} → IsPrior r → IsPrior q → IsPrior (if b then r else q)
either true h k = h
either false h k = k

-- The next call runs only if this one returned.
then_when {ℓ} :
    {A : Type ℓ} (r : Result (Unit {0})) {k : Result A}
    → IsPrior r
    → (r ≡ ok tt → IsPrior k)
    → IsPrior (r >> k)
then_when (ok u) h next = next refl
then_when (err e) (error h) next = error h

slices-IsPrior : (max_len : ℕ) (xs : List Slice) → IsPrior (check_slices max_len xs)
unfolding check_slices
slices-IsPrior max_len [] = value tt
slices-IsPrior max_len (x ∷ xs) =
    unless _ limit refl (unless _ format refl (slices-IsPrior max_len xs))

field-IsPrior : (field : CustomField) → IsPrior (check_field field)
unfolding check_field
field-IsPrior field = unless _ limit refl (unless _ format refl (value tt))

fields-IsPrior : (xs : List CustomField) → IsPrior (check_fields xs)
unfolding check_fields
fields-IsPrior [] = value tt
fields-IsPrior (x ∷ xs) = then-Ends (field-IsPrior x) (fields-IsPrior xs)

validate_record-IsPrior : (r : Record) → IsPrior (validate_record r)
unfolding validate_record validate_record_fields
validate_record-IsPrior r =
    then-Ends
      (unless (over_limit r) limit refl (
        unless (malformed r) format refl (
          then-Ends
            (then-Ends (slices-IsPrior max_url (items r.urls))
              (slices-IsPrior max_tag (items r.tags)))
            (fields-IsPrior (items r.fields)))))
      (unless _ format refl (value tt))

validate_records-IsPrior : (rs : List Record) → IsPrior (validate_records rs)
unfolding validate_records
validate_records-IsPrior [] = value tt
validate_records-IsPrior (r ∷ rs) =
    then-Ends (validate_record-IsPrior r) (validate_records-IsPrior rs)

pub cbor_encode-IsPrior : (memory : Bool) (vault : Vault) → IsPrior (cbor_encode memory vault)
unfolding cbor_encode
cbor_encode-IsPrior memory vault =
    refuse-Ends (is_negative vault.created_ms || is_negative vault.updated_ms) usage refl (λ times.
      refuse-Ends (id_is_zero vault.device_id) format refl (λ device.
        then_when (validate_records vault.records) (validate_records-IsPrior vault.records)
          (λ valid. unless (not memory) secure_memory refl (
            let fit : IsEncodable vault = record {
              created = ground arith;
              updated = ground arith;
              device = device;
              records = validated vault.records valid;
            } in
            rw ((Writes-vault vault fit).at [] (omega arith)) (either _ (value tt) (error refl))))))

-- `header_decode` returns a header, or a status that says what is wrong with the file.
header_decode-IsPrior : (input : List ℕ) → IsPrior (header_decode input)
header_decode-IsPrior input = elim ((header_decode_errors input).0) [
  | inl (h, e) ↦ rw e (value tt)
  | inr (inl e) ↦ rw e (error refl)
  | inr (inr e) ↦ rw e (error refl)
]

pub read_disk_file-IsPrior :
    (a : ReadAnswers) (hash : Hash) (f : Option File) → IsPrior (read_disk_file a hash f)
unfolding read_disk_file
read_disk_file-IsPrior a hash none = error refl
read_disk_file-IsPrior a hash (some f) = unless (not a.opens) io refl (
    unless (ltb (length f.bytes) file_header_len) format refl (
      unless (not a.header_reads) io refl (
        bind-Ends (header_decode-IsPrior (take file_header_len f.bytes)) (λ h _.
          unless _ format refl (
            unless (not a.memory) nomem refl (
              unless (not a.body_reads) io refl (
                unless a.grew format refl (
                  unless (not a.close_ok) io refl
                    (bind-Ends (or_fail-Ends (hash f.bytes) state refl) (λ d _. value tt))))))))))
