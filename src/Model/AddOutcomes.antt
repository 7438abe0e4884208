-- ===== src/Model/AddOutcomes.antt =====
-- Every way in which `pv_model_add_record` of src/model.c ends.
use pvault.Arena.{Arena}
use pvault.Arena.Bounds.{IsArena}
use pvault.Base.{
  ℕ, ◌<◌, ◌≡◌, ◌∙◌, ◌⊎◌, inl, inr, true, false, not, ◌&&◌, List, length, ◌==◌, Bool-cases,
}
use pvault.Base.Zeros.{id_is_zero}
use pvault.Model.Add.{Env, make_writable, add_record, choose_id, copy_record, push_record}
use pvault.Model.Init.{ensure_record_capacity}
use pvault.Model.Invariant.{IsVault, Houses, rehoused, writable_outcome, ensure_outcome}
use pvault.Model.SettlesRecord.{Settles-copy_record}
use pvault.Model.Stored.{stored_record}
use pvault.Model.Types.{Record, Vault}
use pvault.Model.Valid.{HasValidFields, validate_record_fields_iff}
use pvault.Model.Validate.{validate_record_fields}
use pvault.Result.{ok, err, Result-cases}
use pvault.Status.{Status, limit, format}

-- The addition was refused: nothing but the arena and the capacity differs.
pub record Refused (env : Env) (source : Record) (v : Vault) (s : Status) : Type 0 where
  pub arena : Arena
  pub capacity : ℕ
  pub houses : Houses v arena capacity
  pub result : add_record env source v ≡ (err s, rehoused v arena capacity)

-- The record was copied and pushed.
pub record Added (env : Env) (source : Record) (v : Vault) (id : List ℕ) : Type 0 where
  pub arena : Arena
  pub capacity : ℕ
  pub houses : Houses v arena capacity
  pub room : length v.records < capacity
  pub fields : HasValidFields source
  pub identified : (not (source.revision == 0) && id_is_zero source.id) ≡ false
  pub chosen : choose_id env source.id v.records ≡ ok id
  pub result : add_record env source v ≡ (
    ok (stored_record env id source),
    push_record env (stored_record env id source) (rehoused v arena capacity),
  )

abbrev pub AddOutcome : Env → Record → Vault → Type 0
AddOutcome env source v =
    ((id : List ℕ) × Added env source v id) ⊎ ((s : Status) × Refused env source v s)

module _ (env : Env) (source : Record) (v : Vault) (i : IsVault v) where
  same_house : Houses v v.arena v.record_capacity
  same_house = record {
    arena = i.arena;
    allocated = i.allocated;
    fits = i.fits;
    some_room = i.some_room;
  }

  -- A status before the arena was touched.
  early : (s : Status) → add_record env source v ≡ (err s, v) → AddOutcome env source v
  early s e =
      inr (
        s,
        record { arena = v.arena; capacity = v.record_capacity; houses = same_house; result = e },
      )

  module _ (fields_ok : validate_record_fields source ≡ ok tt)
      (identified : (not (source.revision == 0) && id_is_zero source.id) ≡ false) (a : Arena)
      (writable : make_writable env.protect_rw v.arena ≡ (ok tt, a)) where
    module _ (b : Arena) (c : ℕ)
        (grown : ensure_record_capacity (record v { arena = a }) ≡ (ok tt, rehoused v b c))
        (h : Houses v b c) (room : length v.records < c) where
      after_copy :
          (id : List ℕ) → choose_id env source.id v.records ≡ ok id → AddOutcome env source v
      unfolding add_record
      after_copy id chosen =
          let fields = (validate_record_fields_iff source).0 fields_ok in
          let (moved, r) = (Settles-copy_record env id source fields).at b h.arena in
          let b' : Arena = (copy_record env id source b).1 in
          let h' : Houses v b' c = record {
            arena = moved.bounds;
            allocated = moved.allocated ∙ h.allocated;
            fits = h.fits;
            some_room = h.some_room;
          } in
          elim r [
            | inl e ↦
                let copied : copy_record env id source b ≡ (ok (stored_record env id source), b') =
                  λ k. (e k, b') in
                inl (
                  id,
                  record {
                    arena = b';
                    capacity = c;
                    houses = h';
                    room = room;
                    fields = fields;
                    identified = identified;
                    chosen = chosen;
                    result = rw (fields_ok, identified, writable, grown, chosen, copied);
                  },
                )
            | inr e ↦
                let copied : copy_record env id source b ≡ (err limit, b') = λ k. (e k, b') in
                inr (
                  limit,
                  record {
                    arena = b';
                    capacity = c;
                    houses = h';
                    result = rw (fields_ok, identified, writable, grown, chosen, copied);
                  },
                )
          ]

      after_growth : AddOutcome env source v
      unfolding add_record
      after_growth = elim (Result-cases (choose_id env source.id v.records)) [
        | inl (id, chosen) ↦ after_copy id chosen
        | inr (s, taken) ↦ inr (
          s,
          record {
            arena = b;
            capacity = c;
            houses = h;
            result = rw (fields_ok, identified, writable, grown, taken);
          },
        )
      ]

    after_writable : IsArena a → a.allocated ≡ true → AddOutcome env source v
    unfolding add_record
    after_writable sound allocated =
        let w : Vault = record v { arena = a } in
        let j : IsVault w = record {
          arena = sound;
          allocated = allocated;
          fits = i.fits;
          some_room = i.some_room;
          records = i.records;
          distinct = i.distinct;
        } in
        elim (ensure_outcome w j) [
          | inl (b, c, grown, h, room) ↦
              after_growth b c grown
                (record {
                  arena = h.arena;
                  allocated = h.allocated;
                  fits = h.fits;
                  some_room = h.some_room;
                })
                room
          | inr full ↦ inr (
            limit,
            record {
              arena = a;
              capacity = v.record_capacity;
              houses = record {
                arena = sound;
                allocated = allocated;
                fits = i.fits;
                some_room = i.some_room;
              };
              result = rw (fields_ok, identified, writable, full);
            },
          )
        ]

  -- For a vault that meets its invariant, pv_model_add_record ends in one of two ways: it returns
  -- the stored copy under the chosen id, pushed at the end of the records, or a status, and then
  -- nothing but the arena and the capacity of the array differs, and both are sound.
  pub add_record_ends : AddOutcome env source v
  unfolding add_record
  add_record_ends = elim (Result-cases (validate_record_fields source)) [
    | inr (s, bad) ↦ early s (rw bad)
    | inl (u, fields_ok) ↦ elim (Bool-cases (not (source.revision == 0) && id_is_zero source.id)) [
      | inl bad ↦ early format (rw (fields_ok, bad))
      | inr identified ↦ elim (writable_outcome env.protect_rw v.arena i.arena i.allocated) [
        | inl (a, writable, sound, allocated) ↦
            after_writable fields_ok identified a writable sound allocated
        | inr (s, bad) ↦ early s (rw (fields_ok, identified, bad))
      ]
    ]
  ]
