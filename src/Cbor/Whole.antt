-- ===== src/Cbor/Whole.antt =====
-- src/cbor_codec.c: a vault encoded by `pv_cbor_encode`, decoded by `pv_cbor_decode` into a new one.
use pvault.Arena.{Arena, set_readonly}
use pvault.Base.{
  ℕ, ◌+◌, ◌/◌, ◌≤◌, ◌≡◌, refl, ap, ◌∙◌, true, false, not, ◌||◌, Option, List, [], length, map, ltb,
  ◌==◌, arith,
}
use pvault.Base.Int.{to_u64}
use pvault.Base.Zeros.{id_is_zero}
use pvault.Cbor.Decode.{read_vault, cbor_decode, libcbor_well_formed, with_rest, int64_max}
use pvault.Cbor.Encode.{cbor_encode}
use pvault.Cbor.Items.{items_bytes, vault_items}
use pvault.Cbor.ItemsBack.{
  reader_value-item, reader_expect-item, reader_count-item, reader_slice-item,
}
use pvault.Cbor.ReadBack.{seen_record, nonnegative}
use pvault.Cbor.Refill.{add_records, all_cost, kept_record, add_records_lem}
use pvault.Cbor.RoundTrip.{IsEncodable, vault_bytes, cbor_encode-inv, decode_records-items}
use pvault.Cbor.Seen.{seen-All, seen-AllFresh, map-kept-seen, Unknown-nil}
use pvault.Cbor.Stream.{StreamDecodes, well_formed-items}
use pvault.Cbor.Subset.{FitsVault, vault-IsItem}
use pvault.Cbor.Writer.{type_value_bytes, be_bytes}
use pvault.Header.{max_plaintext}
use pvault.Model.Add.{Env}
use pvault.Model.Invariant.{Distinct}
use pvault.Model.Life.{fresh_vault}
use pvault.Model.Types.{Vault}
use pvault.Result.{ok}

-- The vault to fill when its records are read.
abbrev opened : Vault → Vault → Vault
opened v vault = record vault { generation = v.generation; device_id = v.device_id }

read_vault-items :
    (env : ℕ → Env) (v vault w : Vault)
    → IsEncodable v
    → FitsVault v
    → add_records env 0 (map seen_record v.records) (opened v vault) ≡ ok w
    → read_vault env vault (items_bytes (vault_items v) [])
      ≡ ok ((record w { created_ms = v.created_ms; updated_ms = v.updated_ms; dirty = false }), [])
unfolding read_vault with_rest
read_vault-items env v vault w e t filled =
    let known : (not (length v.device_id == 16) || id_is_zero v.device_id) ≡ false =
      ground (arith, t.device, e.device) in
    let created_ok : ltb int64_max (to_u64 v.created_ms) ≡ false = ground (arith, t.created) in
    let updated_ok : ltb int64_max (to_u64 v.updated_ms) ≡ false = ground (arith, t.updated) in
    rw (
      reader_count-item 5 6 6 _ (omega arith) (omega arith) (omega arith),
      reader_expect-item 0 _ (omega arith),
      reader_expect-item 1 _ (omega arith),
      reader_expect-item 1 _ (omega arith),
      reader_value-item 0 v.generation _ (omega arith) t.generation,
      reader_expect-item 2 _ (omega arith),
      reader_slice-item 2 16 v.device_id _ (omega arith) (omega (arith, t.device)) (omega arith)
          refl,
      known,
      reader_expect-item 3 _ (omega arith),
      reader_value-item 0 (to_u64 v.created_ms) _ (omega arith) (omega (arith, t.created)),
      created_ok,
      reader_expect-item 4 _ (omega arith),
      reader_value-item 0 (to_u64 v.updated_ms) _ (omega arith) (omega (arith, t.updated)),
      updated_ok,
      reader_expect-item 5 _ (omega arith),
      reader_count-item 4 (max_plaintext / 64) (length v.records) _ (omega arith) t.few
          (omega arith),
      decode_records-items env 0 v.records (opened v vault) [] e.records t.records,
      filled,
      nonnegative v.created_ms e.created,
      nonnegative v.updated_ms e.updated,
    )

-- What the decoder's vault has of the encoder's.
pub record ReadsBack (name : List ℕ) (v w : Vault) : Type 0 where
  pub records : w.records ≡ map kept_record v.records
  pub generation : w.generation ≡ v.generation
  pub device_id : w.device_id ≡ v.device_id
  pub created : w.created_ms ≡ v.created_ms
  pub updated : w.updated_ms ≡ v.updated_ms
  pub clean : w.dirty ≡ false
  pub protected : w.arena.readonly ≡ true
  pub path : w.path ≡ name

-- `vault` once the decoder has filled it in and protected it.
abbrev finished : Vault → Vault → Vault
finished v w = record w {
  created_ms = v.created_ms;
  updated_ms = v.updated_ms;
  dirty = false;
  arena = record w.arena { readonly = true };
}

protect :
    (a : Arena) → a.allocated ≡ true → set_readonly true a ≡ (ok tt, record a { readonly = true })
unfolding set_readonly
protect a h = ground arith

cbor_decode-reads :
    (stream_decode : List ℕ → Option ℕ) (env : ℕ → Env) (bytes : List ℕ) (vault w : Vault)
    → (length bytes == 0) ≡ false
    → length bytes ≤ max_plaintext
    → not (length vault.records == 0) ≡ false
    → libcbor_well_formed stream_decode bytes ≡ true
    → read_vault env vault bytes ≡ ok (w, [])
    → w.arena.allocated ≡ true
    → cbor_decode stream_decode env true bytes vault
      ≡ ok (record w { arena = record w.arena { readonly = true } })
unfolding cbor_decode
cbor_decode-reads stream_decode env bytes vault w starts small empty sound reads allocated =
    let sized : ltb max_plaintext (length bytes) ≡ false = ground (arith, small) in
    let done = protect w.arena allocated in
    rw (starts, sized, empty, sound, reads, ap (λ t. t.0) done)
      (ap (λ t. ok (record w { arena = t.1 })) done)

-- If the encoder returns bytes for a vault, libcbor's stream decoder measures the items of the
-- subset, the vault's numbers fit their C types with at most 32768 records, no id stands twice and
-- the arena has room for the records, then the decoder on a new vault returns a vault with the
-- same records (an empty field as NULL), generation, device id and times, not dirty, protected,
-- and with the new vault's path.
pub cbor_decode-cbor_encode :
    (stream_decode : List ℕ → Option ℕ) (env : ℕ → Env) (path : List ℕ) (v : Vault) {bytes : List ℕ}
    → cbor_encode true v ≡ ok bytes
    → StreamDecodes stream_decode
    → FitsVault v
    → Distinct v.records
    → 2560 + all_cost (map seen_record v.records) 0 16 ≤ max_plaintext
    → (w : Vault) × (cbor_decode stream_decode env true bytes (fresh_vault path) ≡ ok w)
      × ReadsBack path v w
unfolding cbor_decode vault_bytes set_readonly
cbor_decode-cbor_encode stream_decode env path v {bytes} out decodes t d room =
    let (e, same, small) = cbor_encode-inv v out in
    let (w, filled, contents, others) =
      add_records_lem env 0 (map seen_record v.records) (opened v (fresh_vault path))
        (seen-All v.records e.records) (seen-AllFresh [] v.records (Unknown-nil v.records) d)
        (record { inside = omega arith; small = omega arith }) refl refl (omega arith) room in
    let sound : libcbor_well_formed stream_decode bytes ≡ true =
      rw same (well_formed-items stream_decode decodes (vault_items v) (vault-IsItem v e t)) in
    let parsed = read_vault-items env v (fresh_vault path) w e t filled in
    let starts : (length bytes == 0) ≡ false =
      rw same (unfold type_value_bytes be_bytes in ground arith) in
    (
      finished v w,
      cbor_decode-reads stream_decode env bytes (fresh_vault path) _ starts small refl sound
          (ap (read_vault env (fresh_vault path)) same ∙ parsed) others.allocated,
      record {
        records = contents ∙ map-kept-seen v.records;
        generation = others.generation;
        device_id = others.device_id;
        created = refl;
        updated = refl;
        clean = refl;
        protected = refl;
        path = others.path;
      },
    )
