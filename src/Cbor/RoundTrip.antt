-- ===== src/Cbor/RoundTrip.antt =====
-- src/cbor_codec.c: `pv_cbor_encode` and `pv_cbor_decode` against each other.
use pvault.Base.{
  ℕ, ◌+◌, ◌≤◌, ◌≡◌, refl, sym, ap, ◌∙◌, true, false, List, [], ◌∷◌, ◌++◌, length, All, map, leb,
  if◌then◌else◌, arith, inl, inr, append_assoc,
}
use pvault.Base.Int.{is_negative, to_u64}
use pvault.Base.Zeros.{id_is_zero}
use pvault.Cbor.Decode.{decode_record, decode_records, with_rest, added}
use pvault.Cbor.Emits.{
  Writes, Writes-item, Writes-items, Writes-head, Writes-blob, Writes-none, Writes-map,
  Writes-record, emit,
}
use pvault.Cbor.Encode.{encode_record, validate_records, write_vault, cbor_encode}
use pvault.Cbor.Items.{items_bytes, items_bytes-append, flat_items, record_items, vault_items}
use pvault.Cbor.Refill.{add_records}
use pvault.Cbor.ReadBack.{FitsTypes, seen_record, decode_temporary-items}
use pvault.Header.{max_plaintext}
use pvault.Model.Add.{Env, add_record}
use pvault.Model.Types.{Record, Vault}
use pvault.Model.Valid.{IsRecord, validate_record_iff}
use pvault.Result.{ok, err, Result-cases}
use pvault.Status.{limit}
use pvault.Util.Slice.{view}

pub validated : (records : List Record) → validate_records records ≡ ok tt → All IsRecord records
unfolding validate_records
validated [] e = tt
validated (r ∷ records) e =
    let (valid, revised, identified) = (validate_record_iff r).0 (ground arith) in
    (
      record { valid = valid; revised = revised; identified = identified },
      validated records (ground arith),
    )

validates : (records : List Record) → All IsRecord records → validate_records records ≡ ok tt
unfolding validate_records
validates [] h = refl
validates (r ∷ records) (h, hs) =
    rw ((validate_record_iff r).1 (h.valid, h.revised, h.identified)) (validates records hs)

-- What `pv_cbor_encode` asks of a vault.
pub record IsEncodable (vault : Vault) : Type 0 where
  pub created : is_negative vault.created_ms ≡ false
  pub updated : is_negative vault.updated_ms ≡ false
  pub device : id_is_zero vault.device_id ≡ false
  pub records : All IsRecord vault.records

records_write :
    (records : List Record)
    → All IsRecord records
    → All (λ r. Writes (encode_record r) (record_items r)) records
records_write [] h = tt
records_write (r ∷ records) (h, hs) = (Writes-record r h.valid, records_write records hs)

pub Writes-vault :
    (vault : Vault) → IsEncodable vault → Writes (write_vault vault) (vault_items vault)
unfolding write_vault
Writes-vault vault v =
    (Writes-item (Writes-head 5 6) (
      Writes-item (Writes-head 0 0) (
        Writes-item (Writes-head 0 1) (
          Writes-item (Writes-head 0 1) (
            Writes-item (Writes-head 0 vault.generation) (
              Writes-item (Writes-head 0 2) (
                Writes-item (Writes-blob 2 (view vault.device_id) refl) (
                  Writes-item (Writes-head 0 3) (
                    Writes-item (Writes-head 0 (to_u64 vault.created_ms)) (
                      Writes-item (Writes-head 0 4) (
                        Writes-item (Writes-head 0 (to_u64 vault.updated_ms)) (
                          Writes-item (Writes-head 0 5) (
                            Writes-item (Writes-head 4 (length vault.records)) (
                              Writes-items
                                (Writes-map encode_record record_items vault.records
                                  (records_write vault.records v.records))
                                Writes-none)))))))))))))).all

-- The plaintext of a vault.
unfoldable pub vault_bytes : Vault → List ℕ
vault_bytes vault = items_bytes (vault_items vault) []

emit-empty :
    (bytes : List ℕ)
    → emit bytes [] ≡ (if leb (length bytes) max_plaintext then ok bytes else err limit)
emit-empty bytes = ground arith

-- With memory for its output, the encoder of a vault that it accepts returns exactly the bytes of
-- the items of the vault in the order of the format if they fit in the plaintext limit, and
-- otherwise PV_ERR_LIMIT.
pub cbor_encode-items :
    (vault : Vault)
    → IsEncodable vault
    → cbor_encode true vault ≡ (
        if leb (length (vault_bytes vault)) max_plaintext
        then ok (vault_bytes vault)
        else err limit)
unfolding cbor_encode vault_bytes
cbor_encode-items vault v =
    rw (v.created, v.updated, v.device, validates vault.records v.records)
      ((Writes-vault vault v).at [] (omega arith) ∙ emit-empty (items_bytes (vault_items vault) []))

pub encodable :
    (vault : Vault) {bytes : List ℕ} → cbor_encode true vault ≡ ok bytes → IsEncodable vault
unfolding cbor_encode
encodable vault e = record {
  created = ground arith;
  updated = ground arith;
  device = ground arith;
  records = validated vault.records (ground arith);
}

-- If the encoder returns bytes for a vault, its times are not negative, its device id is not zero,
-- every record is valid, and the bytes are those of the vault's items and no more than the
-- plaintext limit.
pub cbor_encode-inv :
    (vault : Vault) {bytes : List ℕ}
    → cbor_encode true vault ≡ ok bytes
    → IsEncodable vault × (bytes ≡ vault_bytes vault) × (length bytes ≤ max_plaintext)
cbor_encode-inv vault {bytes} e =
    let v = encodable vault e in
    let out = sym (cbor_encode-items vault v) ∙ e in (v, ground arith, ground arith)

decode_record-items :
    (env : Env) (vault : Vault) (r : Record) (rest : List ℕ)
    → IsRecord r
    → FitsTypes r
    → decode_record env vault (items_bytes (record_items r) rest)
      ≡ with_rest (added (add_record env (seen_record r) vault)) rest
unfolding decode_record
decode_record-items env vault r rest h t =
    rw (decode_temporary-items r rest h.valid h.revised h.identified t)

pub decode_records-items :
    (env : ℕ → Env) (i : ℕ) (records : List Record) (vault : Vault) (rest : List ℕ)
    → All IsRecord records
    → All FitsTypes records
    → decode_records env i
        (length records)
        vault
        (items_bytes (flat_items record_items records ++ []) rest)
      ≡ with_rest (add_records env i (map seen_record records) vault) rest
unfolding decode_records add_records with_rest
decode_records-items env i [] vault rest h t = refl
decode_records-items env i (r ∷ records) vault rest (h, hs) (t, ts) =
    let split : items_bytes ((record_items r ++ flat_items record_items records) ++ []) rest
        ≡ items_bytes (record_items r) (items_bytes (flat_items record_items records ++ []) rest) =
      ap (λ t. items_bytes t rest)
        (append_assoc (record_items r) (flat_items record_items records) [])
      ∙ items_bytes-append (record_items r) (flat_items record_items records ++ []) rest in
    rw (split, decode_record-items (env i) vault r _ h t)
      elim (Result-cases (added (add_record (env i) (seen_record r) vault))) [
        | inl (v, e) ↦ rw e (decode_records-items env (i + 1) records v rest hs ts)
        | inr (s, e) ↦ rw e refl
      ]
