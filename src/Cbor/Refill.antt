-- ===== src/Cbor/Refill.antt =====
-- src/cbor_codec.c: the `pv_model_add_record` calls of `pv_cbor_decode`, on a new vault with room.
use pvault.Arena.Bounds.{IsArena}
use pvault.Base.{
  ℕ, ◌+◌, ◌*◌, ◌≤◌, ◌≡◌, ◌≢◌, refl, sym, ap, ◌∙◌, true, false, List, [], ◌∷◌, ◌++◌, All, length,
  length-append, ltb, ◌==◌, if◌then◌else◌, arith, map, none, append_assoc, append-nil,
}
use pvault.Cbor.Decode.{added}
use pvault.Model.Add.{Env, add_record, find_id, choose_id, push_record}
use pvault.Model.Added.{CanAdd, add_record_lem, grown_capacity}
use pvault.Model.Init.{record_size}
use pvault.Model.Room.{stored}
use pvault.Model.Stored.{stored_record, stored_array, stored_field, record_cost}
use pvault.Model.Types.{Record, Vault}
use pvault.Model.Valid.{IsRecord}
use pvault.Result.{Result, ok, ◌>>=◌}

-- The loop of `pv_model_add_record` calls alone.
unfoldable pub add_records : (ℕ → Env) → ℕ → List Record → Vault → Result Vault
add_records env i [] vault = ok vault
add_records env i (r ∷ records) vault =
    added (add_record (env i) r vault) >>= λ vault'. add_records env (i + 1) records vault'

-- An upper bound for what `records` take, for an array of `capacity` records with `count` in it.
abbrev pub all_cost : List Record → ℕ → ℕ → ℕ
all_cost [] count capacity = 0
all_cost (r ∷ records) count capacity =
    (if ltb count capacity then 0 else capacity * 2 * record_size + 7)
    + record_cost r
    + all_cost records (count + 1) (if ltb count capacity then capacity else capacity * 2)

-- The copy of a record that has a revision.
abbrev pub kept_record : Record → Record
kept_record r = record r {
  title = stored r.title;
  username = stored r.username;
  password = stored r.password;
  notes = stored r.notes;
  urls = stored_array stored r.urls;
  tags = stored_array stored r.tags;
  fields = stored_array stored_field r.fields;
}

kept_lem : (env : Env) (r : Record) → r.revision ≢ 0 → stored_record env r.id r ≡ kept_record r
kept_lem env r h = let e : (r.revision == 0) ≡ false = ground arith in rw e

-- The ids of `records` are not those of `old`, and no two of them are the same.
abbrev pub AllFresh : List Record → List Record → Type 0
AllFresh old [] = Unit
AllFresh old (r ∷ records) =
    (find_id r.id old ≡ none) × AllFresh (old ++ (kept_record r ∷ [])) records

pub record SameButRecords (v w : Vault) : Type 0 where
  pub vault_id : w.vault_id ≡ v.vault_id
  pub device_id : w.device_id ≡ v.device_id
  pub generation : w.generation ≡ v.generation
  pub vmk : w.vmk ≡ v.vmk
  pub source_hash : w.source_hash ≡ v.source_hash
  pub path : w.path ≡ v.path
  pub allocated : w.arena.allocated ≡ v.arena.allocated

grown_room : (v : Vault) → v.record_capacity ≢ 0 → grown_capacity v ≢ 0
grown_room v h = ground arith

-- With room for all of them, the records are added one after the other.
pub add_records_lem :
    (env : ℕ → Env) (i : ℕ) (records : List Record) (v : Vault)
    → All IsRecord records
    → AllFresh v.records records
    → IsArena v.arena
    → v.arena.allocated ≡ true
    → v.arena.readonly ≡ false
    → v.record_capacity ≢ 0
    → v.arena.used + all_cost records (length v.records) v.record_capacity ≤ v.arena.capacity
    → (w : Vault) × (add_records env i records v ≡ ok w)
      × (w.records ≡ v.records ++ map kept_record records)
      × SameButRecords v w
unfolding add_records added
add_records_lem env i [] v valid fresh bounds allocated writable room fits = (
  v,
  refl,
  sym (append-nil v.records),
  record {
    vault_id = refl;
    device_id = refl;
    generation = refl;
    vmk = refl;
    source_hash = refl;
    path = refl;
    allocated = refl;
  },
)
add_records_lem env i (r ∷ records) v (h, hs) (fresh, freshs) bounds allocated writable room fits =
    let can : CanAdd (env i) r r.id v = record {
      fields = h.valid;
      identified = ground (arith, h.identified);
      chosen = unfold choose_id in rw (h.identified, fresh);
      arena = record { bounds = bounds; allocated = allocated; granted = ground arith };
      some_room = room;
      room = omega arith;
    } in
    let (b, e, g) = add_record_lem (env i) r r.id v can in
    let v' : Vault =
      push_record (env i) (kept_record r)
        (record v { arena = b; record_capacity = grown_capacity v }) in
    let pushed : add_record (env i) r v ≡ (ok (kept_record r), v') =
      e
      ∙ ap
          (λ (t : Record). (
            ok t,
            push_record (env i) t (record v { arena = b; record_capacity = grown_capacity v }),
          ))
          (kept_lem (env i) r h.revised) in
    let counted : length v'.records ≡ length v.records + 1 =
      length-append v.records (kept_record r ∷ []) in
    let cost : all_cost records (length v'.records) (grown_capacity v)
        ≡ all_cost records (length v.records + 1) (grown_capacity v) =
      ap (λ t. all_cost records t (grown_capacity v)) counted in
    let (w, done, contents, same) =
      add_records_lem env (i + 1) records v' hs freshs g.opened.bounds g.opened.allocated
        g.opened.writable (grown_room v room) (omega (arith, g.high, g.capacity, cost)) in
    (
      w,
      rw (pushed, added) done,
      contents ∙ append_assoc v.records (kept_record r ∷ []) (map kept_record records),
      record {
        vault_id = same.vault_id;
        device_id = same.device_id;
        generation = same.generation;
        vmk = same.vmk;
        source_hash = same.source_hash;
        path = same.path;
        allocated = same.allocated ∙ g.opened.allocated ∙ sym allocated;
      },
    )
