-- ===== src/Cbor/Encode.antt =====
-- src/cbor_codec.c: `encode_field`, `encode_record` and `pv_cbor_encode`.
use pvault.Base.{ℕ, Bool, not, ◌||◌, List, [], ◌∷◌, length, map, if◌then◌else◌}
use pvault.Base.Int.{is_negative, to_u64}
use pvault.Base.Zeros.{id_is_zero}
use pvault.Cbor.Writer.{Writer, writer_uint, writer_map, writer_array, writer_blob, seq}
use pvault.Model.Types.{CustomField, Record, Vault}
use pvault.Model.Validate.{validate_record}
use pvault.Result.{Result, ok, err, ◌>>◌}
use pvault.Status.{usage, format, secure_memory}
use pvault.Util.Slice.{view, len, items}

unfoldable pub encode_field : CustomField → Writer
unfolding seq
encode_field field = seq (
    writer_map 3
    ∷ writer_uint 0
    ∷ writer_blob 3 field.name
    ∷ writer_uint 1
    ∷ writer_blob 2 field.value
    ∷ writer_uint 2
    ∷ writer_uint field.flags
    ∷ [])

unfoldable pub encode_record : Record → Writer
unfolding seq encode_field
encode_record r = seq (
    writer_map 12
    ∷ writer_uint 0
    ∷ writer_blob 2 (view r.id)
    ∷ writer_uint 1
    ∷ writer_uint r.revision
    ∷ writer_uint 2
    ∷ writer_uint (to_u64 r.created_ms)
    ∷ writer_uint 3
    ∷ writer_uint (to_u64 r.updated_ms)
    ∷ writer_uint 4
    ∷ writer_uint r.flags
    ∷ writer_uint 5
    ∷ writer_blob 3 r.title
    ∷ writer_uint 6
    ∷ writer_blob 3 r.username
    ∷ writer_uint 7
    ∷ writer_blob 2 r.password
    ∷ writer_uint 8
    ∷ writer_array (len r.urls)
    ∷ seq (map (writer_blob 3) (items r.urls))
    ∷ writer_uint 9
    ∷ writer_blob 3 r.notes
    ∷ writer_uint 10
    ∷ writer_array (len r.tags)
    ∷ seq (map (writer_blob 3) (items r.tags))
    ∷ writer_uint 11
    ∷ writer_array (len r.fields)
    ∷ seq (map encode_field (items r.fields))
    ∷ [])

-- The loop of `pv_model_validate_record` calls.
unfoldable pub validate_records : List Record → Result (Unit {0})
validate_records [] = ok tt
validate_records (r ∷ records) = validate_record r >> validate_records records

unfoldable pub write_vault : Vault → Writer
unfolding seq encode_record
write_vault vault = seq (
    writer_map 6
    ∷ writer_uint 0
    ∷ writer_uint 1
    ∷ writer_uint 1
    ∷ writer_uint vault.generation
    ∷ writer_uint 2
    ∷ writer_blob 2 (view vault.device_id)
    ∷ writer_uint 3
    ∷ writer_uint (to_u64 vault.created_ms)
    ∷ writer_uint 4
    ∷ writer_uint (to_u64 vault.updated_ms)
    ∷ writer_uint 5
    ∷ writer_array (length vault.records)
    ∷ seq (map encode_record vault.records)
    ∷ [])

-- `pv_cbor_encode`; `memory_ok` is libsodium's answer to the allocation of the output. `vault` and
-- `output` are not NULL, nor is the array of records.
unfoldable pub cbor_encode : Bool → Vault → Result (List ℕ)
cbor_encode memory_ok vault =
    if is_negative vault.created_ms || is_negative vault.updated_ms
    then err usage
    else if id_is_zero vault.device_id
    then err format
    else (validate_records vault.records
        >> (if not memory_ok then err secure_memory else write_vault vault []))
