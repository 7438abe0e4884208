-- ===== src/Model/Erased.antt =====
-- What is left of a record after `pv_model_delete` of src/model.c, and how it is found.
use pvault.Base.{
  ℕ, zero, suc, ◌+◌, ◌≡◌, refl, sym, ap, ◌∙◌, inl, inr, Bool, true, false, none, some, List, [],
  ◌∷◌, get_elem?, bytes_eq, bytes_eq_refl, bit_and, bit_or, arith,
}
use pvault.Base.Bits.{bit_or_step, bit_and_mask}
use pvault.Base.Int.{ℤ}
use pvault.Model.Add.{find_id}
use pvault.Model.Delete.{emptied, deleted_record, set_record, model_delete}
use pvault.Model.Find.{is_deleted}
use pvault.Model.Invariant.{Distinct, IsVault}
use pvault.Model.Kept.{bytes_eq_comm}
use pvault.Model.Life.{model_delete_ends}
use pvault.Model.Types.{Record, Vault}
use pvault.Result.{Result, ok, err}
use pvault.Status.{Status}
use pvault.Util.Slice.{Span, null, view, items}

-- A tombstone keeps the id, the title and the time of creation, and nothing that is secret.
pub record IsTombstone (r t : Record) : Type 0 where
  pub id : t.id ≡ r.id
  pub title : t.title ≡ r.title
  pub created : t.created_ms ≡ r.created_ms
  pub revision : t.revision ≡ r.revision + 1
  pub deleted : is_deleted t ≡ true
  pub username : items t.username ≡ []
  pub password : items t.password ≡ []
  pub notes : items t.notes ≡ []
  pub urls : items t.urls ≡ []
  pub tags : items t.tags ≡ []
  pub fields : items t.fields ≡ []

items-emptied {ℓ} : {A : Type ℓ} (xs : Span A) → items (emptied xs) ≡ []
items-emptied (null n) = refl
items-emptied (view xs) = refl

deleted-flag : (flags : ℕ) → bit_and (bit_or flags 1) 1 ≡ 1
deleted-flag flags = bit_and_mask 1 (bit_or flags 1) ∙ omega (arith, bit_or_step flags 1)

pub deleted-IsTombstone : (now : ℤ) (r : Record) → IsTombstone r (deleted_record now r)
unfolding deleted_record
deleted-IsTombstone now r = record {
  id = refl;
  title = refl;
  created = refl;
  revision = refl;
  deleted = ground (arith, deleted-flag r.flags);
  username = refl;
  password = refl;
  notes = refl;
  urls = items-emptied r.urls;
  tags = items-emptied r.tags;
  fields = items-emptied r.fields;
}

-- An id that is not found is not that of a record.
not_found :
    (id : List ℕ) (xs : List Record) (i : ℕ) (r : Record)
    → find_id id xs ≡ none
    → get_elem? xs i ≡ some r
    → bytes_eq r.id id ≡ false
unfolding find_id
not_found id [] i r e g = cc
not_found id (x ∷ xs) zero r e g = let same : x ≡ r = cc in rw⁻¹ same (ground arith)
not_found id (x ∷ xs) (suc i) r e g = not_found id xs i r (ground arith) g

module _ (r t : Record) (same : t.id ≡ r.id) where
  find_id-replaced :
      (xs : List Record) (i : ℕ)
      → get_elem? xs i ≡ some r
      → Distinct xs
      → find_id r.id (set_record xs i t) ≡ some t
  unfolding find_id
  find_id-replaced [] i g d = cc
  find_id-replaced (x ∷ xs) zero g d =
      let found : bytes_eq t.id r.id ≡ true = ap (λ u. bytes_eq u r.id) same ∙ bytes_eq_refl r.id in
      rw found
  find_id-replaced (x ∷ xs) (suc i) g (d, ds) =
      let other : bytes_eq x.id r.id ≡ false =
        bytes_eq_comm x.id r.id ∙ not_found x.id xs i r d g in
      rw other (find_id-replaced xs i g ds)

  find_id-kept :
      (id : List ℕ) (xs : List Record) (i : ℕ)
      → get_elem? xs i ≡ some r
      → bytes_eq r.id id ≡ false
      → find_id id (set_record xs i t) ≡ find_id id xs
  unfolding find_id
  find_id-kept id [] i g n = refl
  find_id-kept id (x ∷ xs) zero g n =
      let first : x ≡ r = cc in
      let passed : bytes_eq t.id id ≡ false = ap (λ u. bytes_eq u id) same ∙ n in
      let passed' : bytes_eq x.id id ≡ false = ap (λ u. bytes_eq u.id id) first ∙ n in
      rw (passed, passed')
  find_id-kept id (x ∷ xs) (suc i) g n = rw (find_id-kept id xs i g n)

unwrapped : {a b : Record} → some a ≡ some b → a ≡ b
unwrapped e = cc

abbrev Answer : Type 0
Answer = Result (Unit {0}) × Vault

succeeded : {v w : Vault} → ◌≡◌ {A = Answer} (ok tt, v) (ok tt, w) → v ≡ w
succeeded e = cc

failed : {s : Status} {x y : Vault} → ◌≡◌ {A = Answer} (ok tt, x) (err s, y) → ⊥
failed e = cc

-- What a successful deletion leaves of the record at the index, and of the others.
pub record Erased (v w : Vault) (i : ℕ) : Type 0 where
  pub before : Record
  pub after : Record
  pub there : get_elem? v.records i ≡ some before
  pub alive : is_deleted before ≡ false
  pub tombstone : IsTombstone before after
  pub found : find_id before.id w.records ≡ some after
  pub others :
      (id : List ℕ) → bytes_eq before.id id ≡ false → find_id id w.records ≡ find_id id v.records
  pub dirty : w.dirty ≡ true

-- If pv_model_delete succeeds on a vault that meets its invariant, the record at the index was not
-- deleted; under its id there is now a deleted record with its id, title and time of creation and
-- the next revision, whose user name, password, notes, URLs, tags and fields are empty; every
-- other id finds what it found before; and the vault is dirty.
pub model_delete-Erased :
    (now : ℤ) (protected : Bool) (i : ℕ) (v w : Vault)
    → IsVault v
    → model_delete now protected i v ≡ (ok tt, w)
    → Erased v w i
model_delete-Erased now protected i v w inv e = elim (model_delete_ends now protected i v inv) [
  | inr (s, bad) ↦ absurd (failed (sym e ∙ bad))
  | inl (r, a, there, alive, revision, houses, done) ↦
      let same = succeeded (sym done ∙ e) in
      let t = deleted_record now r in
      let tomb = deleted-IsTombstone now r in
      rw⁻¹ same (record {
        before = r;
        after = t;
        there = there;
        alive = ground (arith, alive);
        tombstone = tomb;
        found = find_id-replaced r t tomb.id v.records i there inv.distinct;
        others = λ id h. find_id-kept r t tomb.id id v.records i there h;
        dirty = refl;
      })
]
