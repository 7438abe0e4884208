-- ===== src/Cbor/Decode.antt =====
-- src/cbor_codec.c: `decode_field`, `decode_record`, `libcbor_well_formed` and `pv_cbor_decode`.
-- libcbor's stream decoder is an argument: `some n` says that it finished an item of n bytes.
use pvault.Arena.{set_readonly}
use pvault.Base.{
  ℕ, zero, suc, ◌+◌, ◌-◌, ◌/◌, ◌^◌, Bool, true, false, not, ◌||◌, Option, none, some, List, [], ◌∷◌,
  length, drop, ltb, ◌==◌, if◌then◌else◌,
}
use pvault.Base.Bits.{and_not}
use pvault.Base.Int.{pos}
use pvault.Base.Zeros.{id_is_zero}
use pvault.Cbor.Reader.{
  Reader, ◌>>=◌, ◌>>◌, pure, fail_if, reader_value, reader_expect_uint, reader_count, reader_slice,
  read_times,
}
use pvault.Header.{max_plaintext}
use pvault.Model.Add.{Env, add_record}
use pvault.Model.Types.{
  CustomField, Record, Vault, max_title, max_username, max_password, max_url, max_notes, max_tag,
  max_field_name, max_field_value, max_collection_items, record_deleted, record_favorite,
  field_secret,
}
use pvault.Result.{Result, ok, err}
use pvault.Status.{Status, usage, format}
use pvault.Util.Slice.{view, len, items}

abbrev pub int64_max : ℕ
int64_max = 2 ^ 63 - 1

abbrev pub uint32_max : ℕ
uint32_max = 2 ^ 32 - 1

unfoldable pub decode_field : Reader CustomField
decode_field = do
  map_count ← reader_count 5 3
  fail_if (not (map_count == 3)) format
  reader_expect_uint 0
  name ← reader_slice 3 max_field_name
  fail_if (len name == 0) format
  reader_expect_uint 1
  value ← reader_slice 2 max_field_value
  reader_expect_uint 2
  flags ← reader_value 0
  fail_if (ltb uint32_max flags || not (and_not flags field_secret == 0)) format
  pure (record { name = name; value = value; flags = flags })

-- What `decode_record` reads into `temporary`.
unfoldable pub decode_temporary : Reader Record
decode_temporary = do
  map_count ← reader_count 5 12
  fail_if (not (map_count == 12)) format
  reader_expect_uint 0
  id ← reader_slice 2 16
  fail_if (not (len id == 16) || id_is_zero (items id)) format
  reader_expect_uint 1
  revision ← reader_value 0
  fail_if (revision == 0) format
  reader_expect_uint 2
  created ← reader_value 0
  fail_if (ltb int64_max created) format
  reader_expect_uint 3
  updated ← reader_value 0
  fail_if (ltb int64_max updated) format
  reader_expect_uint 4
  flags ← reader_value 0
  fail_if (ltb uint32_max flags || not (and_not flags (record_deleted + record_favorite) == 0))
      format
  reader_expect_uint 5
  title ← reader_slice 3 max_title
  fail_if (len title == 0) format
  reader_expect_uint 6
  username ← reader_slice 3 max_username
  reader_expect_uint 7
  password ← reader_slice 2 max_password
  reader_expect_uint 8
  url_count ← reader_count 4 max_collection_items
  urls ← read_times url_count (reader_slice 3 max_url)
  reader_expect_uint 9
  notes ← reader_slice 3 max_notes
  reader_expect_uint 10
  tag_count ← reader_count 4 max_collection_items
  tags ← read_times tag_count (reader_slice 3 max_tag)
  reader_expect_uint 11
  field_count ← reader_count 4 max_collection_items
  fields ← read_times field_count decode_field
  pure (record {
    id = items id;
    revision = revision;
    created_ms = pos created;
    updated_ms = pos updated;
    flags = flags;
    title = title;
    username = username;
    password = password;
    notes = notes;
    urls = view urls;
    tags = view tags;
    fields = view fields;
  })

-- `status == PV_ERR_EXISTS ? PV_ERR_FORMAT : status`
unfoldable pub add_status : Status → Status
add_status Status.exists = format
add_status s = s

unfoldable pub added : Result Record × Vault → Result Vault
unfolding add_status
added (ok r, vault) = ok vault
added (err s, vault) = err (add_status s)

unfoldable pub with_rest : Result Vault → List ℕ → Result (Vault × List ℕ)
with_rest (ok vault) rest = ok (vault, rest)
with_rest (err s) rest = err s

unfoldable pub decode_record : Env → Vault → Reader Vault
unfolding with_rest
decode_record env vault = do
  temporary ← decode_temporary
  with_rest (added (add_record env temporary vault))

-- The loop over the records, by the rounds left; `env i` answers the call for record i.
unfoldable pub decode_records : (ℕ → Env) → ℕ → ℕ → Vault → Reader Vault
decode_records env i zero vault = pure vault
decode_records env i (suc n) vault = do
  vault' ← decode_record (env i) vault
  decode_records env (i + 1) n vault'

-- `libcbor_well_formed`; each item has a byte at least, so the length is fuel enough.
unfoldable pub well_formed_loop : (List ℕ → Option ℕ) → ℕ → List ℕ → Bool
well_formed_loop stream_decode fuel [] = true
well_formed_loop stream_decode zero (b ∷ rest) = false
well_formed_loop stream_decode (suc fuel) (b ∷ rest) = elim (stream_decode (b ∷ rest)) [
  | none ↦ false
  | some read ↦
      if read == 0 || ltb (length (b ∷ rest)) read
      then false
      else well_formed_loop stream_decode fuel (drop read (b ∷ rest))
]

unfoldable pub libcbor_well_formed : (List ℕ → Option ℕ) → List ℕ → Bool
unfolding well_formed_loop
libcbor_well_formed stream_decode input = well_formed_loop stream_decode (length input) input

-- The reads of `pv_cbor_decode`. With an error the source leaves a vault that is partly filled.
unfoldable pub read_vault : (ℕ → Env) → Vault → Reader Vault
read_vault env vault = do
  map_count ← reader_count 5 6
  fail_if (not (map_count == 6)) format
  reader_expect_uint 0
  reader_expect_uint 1
  reader_expect_uint 1
  generation ← reader_value 0
  reader_expect_uint 2
  device_id ← reader_slice 2 16
  fail_if (not (len device_id == 16) || id_is_zero (items device_id)) format
  reader_expect_uint 3
  created ← reader_value 0
  fail_if (ltb int64_max created) format
  reader_expect_uint 4
  updated ← reader_value 0
  fail_if (ltb int64_max updated) format
  reader_expect_uint 5
  record_count ← reader_count 4 (max_plaintext / 64)
  filled ←
      decode_records env 0 record_count
        (record vault { generation = generation; device_id = items device_id })
  λ rest.
      if not (length rest == 0)
      then err format
      else ok (
        (record filled { created_ms = pos created; updated_ms = pos updated; dirty = false }),
        rest,
      )

-- `pv_cbor_decode`; `protected` is libsodium's answer to the last step. `input` is not NULL.
unfoldable pub cbor_decode : (List ℕ → Option ℕ) → (ℕ → Env) → Bool → List ℕ → Vault → Result Vault
cbor_decode stream_decode env protected input vault =
    if length input == 0 || ltb max_plaintext (length input) || not (length vault.records == 0)
    then err usage
    else if not (libcbor_well_formed stream_decode input)
    then err format
    else elim (read_vault env vault input) [
      | err e ↦ err e
      | ok (filled, rest) ↦
          let (status, arena) = set_readonly protected filled.arena in
          elim status [ err e ↦ err e | ok u ↦ ok (record filled { arena = arena }) ]
    ]
