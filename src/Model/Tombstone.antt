-- ===== src/Model/Tombstone.antt =====
-- The record that `pv_model_delete` of src/model.c leaves.
use pvault.Base.{
  ℕ, zero, suc, ◌-◌, ◌^◌, ◌<◌, ◌≡◌, ◌≢◌, refl, sym, ap, subst, ◌∙◌, false, List, [], ◌∷◌, All,
  length, get_elem?, arith, some, none, Option, bit_and, bit_or, bytes_eq,
}
use pvault.Base.Bits.{and_not, bit_and_mask}
use pvault.Base.Int.{ℤ, is_negative}
use pvault.Model.Add.{find_id}
use pvault.Model.Delete.{emptied, deleted_record, set_record, can_delete}
use pvault.Model.Invariant.{Distinct}
use pvault.Model.Types.{Record, record_deleted, max_url, max_tag}
use pvault.Model.Valid.{IsRecord, IsText, IsField, IsArray}
use pvault.Result.{ok}
use pvault.Util.Utf8.{utf8_valid}
use pvault.Util.Slice.{Span, null, view}

flags_small : (f : ℕ) → and_not f 3 ≡ 0 → f < 4
flags_small f h = omega (arith, bit_and_mask 2 f)

flags_deleted : (f : ℕ) → and_not f 3 ≡ 0 → and_not (bit_or f 1) 3 ≡ 0
flags_deleted f h = cases f (flags_small f h)
  where
    cases : (n : ℕ) → n < 4 → and_not (bit_or n 1) 3 ≡ 0
    cases zero h = refl
    cases (suc zero) h = refl
    cases (suc (suc zero)) h = refl
    cases (suc (suc (suc zero))) h = refl
    cases (suc (suc (suc (suc n)))) h = absurd (omega arith)

emptied-IsArray {ℓ κ} : {A : Type ℓ} (P : A → Type κ) (xs : Span A) → IsArray P (emptied xs)
emptied-IsArray P (null n) = record { sound = refl; few = omega arith; each = tt }
emptied-IsArray P (view xs) = record { sound = refl; few = omega arith; each = tt }

pub deleted-IsRecord :
    (now : ℤ) (r : Record) → is_negative now ≡ false → IsRecord r → IsRecord (deleted_record now r)
unfolding deleted_record utf8_valid
deleted-IsRecord now r clock v = record {
  valid = record {
    created = v.valid.created;
    updated = clock;
    flags = flags_deleted r.flags v.valid.flags;
    title = v.valid.title;
    titled = v.valid.titled;
    username = record { sound = refl; fits = omega arith; utf8 = refl };
    password = record { sound = refl; fits = omega arith };
    notes = record { sound = refl; fits = omega arith; utf8 = refl };
    urls = emptied-IsArray (IsText max_url) r.urls;
    tags = emptied-IsArray (IsText max_tag) r.tags;
    fields = emptied-IsArray IsField r.fields;
  };
  revised = omega arith;
  identified = v.identified;
}

some_eq : (a b : Record) → some a ≡ some b → a ≡ b
some_eq a b e = cc

module _ (P : Record → Type 0) where
  pub All-set_record :
      (xs : List Record) (i : ℕ) (r : Record) → All P xs → P r → All P (set_record xs i r)
  All-set_record [] i r h k = tt
  All-set_record (x ∷ xs) zero r (h, hs) k = (k, hs)
  All-set_record (x ∷ xs) (suc i) r (h, hs) k = (h, All-set_record xs i r hs k)

  pub All-get_elem? :
      (xs : List Record) (i : ℕ) (r : Record) → All P xs → get_elem? xs i ≡ some r → P r
  All-get_elem? [] i r h e = cc
  All-get_elem? (x ∷ xs) zero r (h, hs) e = subst P (some_eq x r e) h
  All-get_elem? (x ∷ xs) (suc i) r (h, hs) e = All-get_elem? xs i r hs e

pub length-set_record :
    (xs : List Record) (i : ℕ) (r : Record) → length (set_record xs i r) ≡ length xs
length-set_record [] i r = refl
length-set_record (x ∷ xs) zero r = refl
length-set_record (x ∷ xs) (suc i) r = ap suc (length-set_record xs i r)

find_id-set_record :
    (id : List ℕ) (xs : List Record) (i : ℕ) (r s : Record)
    → get_elem? xs i ≡ some r
    → s.id ≡ r.id
    → find_id id xs ≡ none
    → find_id id (set_record xs i s) ≡ none
unfolding find_id
find_id-set_record id [] i r s e same h = cc
find_id-set_record id (x ∷ xs) zero r s e same h =
    let old : bytes_eq x.id id ≡ false = ground arith in
    let new : bytes_eq s.id id ≡ false =
      ap (λ t. bytes_eq t id) (same ∙ ap (λ (t : Record). t.id) (sym (some_eq x r e))) ∙ old in
    ground (arith, old, new)
find_id-set_record id (x ∷ xs) (suc i) r s e same h =
    ground (arith, find_id-set_record id xs i r s e same)

pub Distinct-set_record :
    (xs : List Record) (i : ℕ) (r s : Record)
    → get_elem? xs i ≡ some r
    → s.id ≡ r.id
    → Distinct xs
    → Distinct (set_record xs i s)
Distinct-set_record [] i r s e same d = tt
Distinct-set_record (x ∷ xs) zero r s e same (d, ds) =
    (ap (λ t. find_id t xs) (same ∙ ap (λ (t : Record). t.id) (sym (some_eq x r e))) ∙ d, ds)
Distinct-set_record (x ∷ xs) (suc i) r s e same (d, ds) =
    (find_id-set_record x.id xs i r s e same d, Distinct-set_record xs i r s e same ds)

pub can_delete_inv :
    (o : Option Record) (r : Record)
    → can_delete o ≡ ok r
    → (o ≡ some r) × (bit_and r.flags record_deleted ≡ 0) × (r.revision ≢ 2 ^ 64 - 1)
unfolding can_delete
can_delete_inv none r e = cc
can_delete_inv (some x) r e = ground arith
