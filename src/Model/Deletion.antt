-- ===== src/Model/Deletion.antt =====
-- Every way in which `pv_model_delete` of src/model.c ends, and what it leaves.
use pvault.Base.{
  ℕ, zero, suc, ◌-◌, ◌^◌, ◌≡◌, ◌≢◌, refl, ap, ◌∙◌, inl, inr, Bool, Bool-cases, Option-cases, true,
  false, not, ◌&&◌, none, some, List, [], ◌∷◌, get_elem?, ◌==◌, arith,
}
use pvault.Arena.{Arena, set_readwrite}
use pvault.Base.Int.{ℤ}
use pvault.Model.Add.{make_writable}
use pvault.Model.Delete.{can_delete, deleted_record, set_record, model_delete}
use pvault.Model.Erased.{IsTombstone, deleted-IsTombstone}
use pvault.Model.Find.{is_deleted}
use pvault.Model.Types.{Record, Vault}
use pvault.Result.{Result, ok, err}
use pvault.Status.{Status, usage, limit, secure_memory}

-- A deletion at the index: a live record has its tombstone in its place, and the rest is as it was.
pub record Deleted (now : ℤ) (v w : Vault) (i : ℕ) : Type 0 where
  pub before : Record
  pub after : Record
  pub there : get_elem? v.records i ≡ some before
  pub alive : is_deleted before ≡ false
  pub raised : before.revision ≢ 2 ^ 64 - 1
  pub tombstone : IsTombstone before after
  pub stamped : after.updated_ms ≡ now
  pub place : get_elem? w.records i ≡ some after
  pub other_places : (j : ℕ) → j ≢ i → get_elem? w.records j ≡ get_elem? v.records j
  pub rest : w ≡ record v {
    arena = record v.arena { readonly = false };
    records = w.records;
    dirty = true;
    updated_ms = now;
  }

pub data Deletion (now : ℤ) (protected : Bool) (i : ℕ) (v : Vault)
    : Result (Unit {0}) × Vault → Type 0 where
  missing : get_elem? v.records i ≡ none → Deletion now protected i v (err usage, v)
  repeated :
      {r : Record}
      → get_elem? v.records i ≡ some r
      → is_deleted r ≡ true
      → Deletion now protected i v (err usage, v)
  last_revision :
      {r : Record}
      → get_elem? v.records i ≡ some r
      → is_deleted r ≡ false
      → r.revision ≡ 2 ^ 64 - 1
      → Deletion now protected i v (err limit, v)
  write_protected :
      {r : Record}
      → get_elem? v.records i ≡ some r
      → is_deleted r ≡ false
      → r.revision ≢ 2 ^ 64 - 1
      → v.arena.readonly ≡ true
      → protected ≡ false
      → Deletion now protected i v (err secure_memory, v)
  deleted :
      {w : Vault}
      → v.arena.readonly && not protected ≡ false
      → Deleted now v w i
      → Deletion now protected i v (ok tt, w)

get_elem?-set_record :
    (xs : List Record) (i : ℕ) (r t : Record)
    → get_elem? xs i ≡ some r
    → get_elem? (set_record xs i t) i ≡ some t
get_elem?-set_record [] i r t h = cc
get_elem?-set_record (x ∷ xs) zero r t h = refl
get_elem?-set_record (x ∷ xs) (suc i) r t h = get_elem?-set_record xs i r t h

get_elem?-set_other :
    (xs : List Record) (i j : ℕ) (t : Record)
    → j ≢ i
    → get_elem? (set_record xs i t) j ≡ get_elem? xs j
get_elem?-set_other [] i j t h = refl
get_elem?-set_other (x ∷ xs) zero zero t h = absurd (h refl)
get_elem?-set_other (x ∷ xs) zero (suc j) t h = refl
get_elem?-set_other (x ∷ xs) (suc i) zero t h = refl
get_elem?-set_other (x ∷ xs) (suc i) (suc j) t h = get_elem?-set_other xs i j t (λ e. h (ap suc e))

can_delete-repeated : (r : Record) → is_deleted r ≡ true → can_delete (some r) ≡ err usage
unfolding can_delete
can_delete-repeated r h = ground arith

can_delete-last :
    (r : Record) → is_deleted r ≡ false → r.revision ≡ 2 ^ 64 - 1 → can_delete (some r) ≡ err limit
unfolding can_delete
can_delete-last r h e = ground arith

can_delete-live :
    (r : Record) → is_deleted r ≡ false → r.revision ≢ 2 ^ 64 - 1 → can_delete (some r) ≡ ok r
unfolding can_delete
can_delete-live r h e = ground arith

writable :
    (protected : Bool) (a : Arena)
    → a.allocated ≡ true
    → a.readonly && not protected ≡ false
    → make_writable protected a ≡ (ok tt, record a { readonly = false })
unfolding make_writable set_readwrite
writable protected a h e = ground arith

unwritable :
    (protected : Bool) (a : Arena)
    → a.allocated ≡ true
    → a.readonly && not protected ≡ true
    → make_writable protected a ≡ (err secure_memory, a)
unfolding make_writable set_readwrite
unwritable protected a h e = ground arith

module _ (now : ℤ) (protected : Bool) (i : ℕ) (v : Vault) where
  refused :
      (e : Status)
      → can_delete (get_elem? v.records i) ≡ err e
      → model_delete now protected i v ≡ (err e, v)
  unfolding model_delete
  refused e h = rw (h, model_delete)

  module _ (r : Record) (allowed : can_delete (get_elem? v.records i) ≡ ok r) where
    stuck :
        (e : Status)
        → make_writable protected v.arena ≡ (err e, v.arena)
        → model_delete now protected i v ≡ (err e, v)
    unfolding model_delete
    stuck e h = rw (allowed, h, model_delete)

    done :
        (a : Arena)
        → make_writable protected v.arena ≡ (ok tt, a)
        → model_delete now protected i v ≡ (
          ok tt,
          record v {
            arena = a;
            records = set_record v.records i (deleted_record now r);
            dirty = true;
            updated_ms = now;
          },
        )
    unfolding model_delete
    done a h = rw (allowed, h, model_delete)

  -- For a vault with an arena, pv_model_delete ends in one of these ways. It returns PV_ERR_USAGE
  -- if the index has no record or a deleted one; else PV_ERR_LIMIT if the revision is the last
  -- one; else PV_ERR_SECURE_MEMORY if the arena is protected and cannot be made writable; in all
  -- of these the vault is as it was. Else it returns PV_OK: at the index there is a tombstone of
  -- the record with the time of the deletion, every other index has the record it had, and the
  -- rest of the vault is as it was, but for an arena that can be written, the time, and that it is
  -- dirty.
  pub model_delete-Deletion :
      v.arena.allocated ≡ true → Deletion now protected i v (model_delete now protected i v)
  model_delete-Deletion mapped = elim (Option-cases (get_elem? v.records i)) [
    | inl gone ↦
        rw (refused usage (ap can_delete gone ∙ (unfold can_delete in refl))) (missing gone)
    | inr (r, there) ↦ elim (Bool-cases (is_deleted r)) [
      | inl dead ↦
          rw (refused usage (ap can_delete there ∙ can_delete-repeated r dead))
            (repeated there dead)
      | inr alive ↦ elim (Bool-cases (r.revision == 2 ^ 64 - 1)) [
        | inl last ↦
            let e : r.revision ≡ 2 ^ 64 - 1 = ground arith in
            rw (refused limit (ap can_delete there ∙ can_delete-last r alive e))
              (last_revision there alive e)
        | inr more ↦
            let e : r.revision ≢ 2 ^ 64 - 1 = ground arith in
            let allowed = ap can_delete there ∙ can_delete-live r alive e in
            elim (Bool-cases (v.arena.readonly && not protected)) [
              | inl shut ↦
                  rw (stuck r allowed secure_memory (unwritable protected v.arena mapped shut))
                    (write_protected there alive e (ground arith) (ground arith))
              | inr free ↦ rw (done r allowed _ (writable protected v.arena mapped free)) (
                  deleted free (record {
                    before = r;
                    after = deleted_record now r;
                    there = there;
                    alive = alive;
                    raised = e;
                    tombstone = deleted-IsTombstone now r;
                    stamped = unfold deleted_record in refl;
                    place = get_elem?-set_record v.records i r (deleted_record now r) there;
                    other_places =
                        λ j h. get_elem?-set_other v.records i j (deleted_record now r) h;
                    rest = refl;
                  }))
            ]
      ]
    ]
  ]
