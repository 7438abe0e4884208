-- ===== src/Model/Found.antt =====
-- What `pv_model_find` of src/model.c finds.
use pvault.Base.{
  ℕ, suc, ◌+◌, ◌≡◌, refl, ap, ◌∙◌, inl, inr, not, ◌||◌, Option, none, some, List, [], ◌∷◌, length,
  ◌==◌, if◌then◌else◌, arith, Bool-cases, Option-cases,
}
use pvault.Model.Find.{is_deleted, record_matches, keep_first, find_loop, found_by_id, model_find}
use pvault.Model.Types.{Record}
use pvault.Util.Hex.{hex_decode}

-- The records that are not deleted and match, in their order.
abbrev pub matching : List ℕ → List Record → List Record
matching query [] = []
matching query (r ∷ records) =
    let rest = matching query records in
    if is_deleted r || not (record_matches r query) then rest else r ∷ rest

abbrev pub first_of : Option Record → List Record → Option Record
first_of (some f) records = some f
first_of none [] = none
first_of none (r ∷ records) = some r

first-keep_first :
    (first : Option Record) (r : Record) (records : List Record)
    → first_of (keep_first first r) records ≡ first_of first (r ∷ records)
first-keep_first none r records = refl
first-keep_first (some f) r records = refl

find_loop_lem :
    (query : List ℕ) (first : Option Record) (count : ℕ) (records : List Record)
    → find_loop query first count records
      ≡ (first_of first (matching query records), count + length (matching query records))
unfolding find_loop
find_loop_lem query none count [] =
    let same : count ≡ count + 0 = omega arith in ap (λ n. (none, n)) same
find_loop_lem query (some f) count [] =
    let same : count ≡ count + 0 = omega arith in ap (λ n. (some f, n)) same
find_loop_lem query first count (r ∷ records) =
    elim (Bool-cases (is_deleted r || not (record_matches r query))) [
      | inl skipped ↦ rw skipped (find_loop_lem query first count records)
      | inr taken ↦
          let found = matching query records in
          let more : count + 1 + length found ≡ count + suc (length found) = omega arith in
          rw taken (
            find_loop_lem query (keep_first first r) (count + 1) records ∙ λ i.
            (first-keep_first first r found i, more i))
    ]

-- The answer, from what is found by id and what matches.
abbrev pub answer : Option Record → List Record → Option Record × ℕ
answer none found = (first_of none found, length found)
answer (some r) found = if is_deleted r then (some r, length found) else (some r, 1)

from_zero : (o : Option Record) (n : ℕ) → ◌≡◌ {A = Option Record × ℕ} (o, 0 + n) (o, n)
from_zero o n = let same : 0 + n ≡ n = omega arith in ap (λ t. (o, t)) same

-- pv_model_find answers nothing for an empty query; a record whose id is the query in hexadecimal
-- with the count 1 if it is not deleted; and otherwise the count of the records that are not
-- deleted and match, with the first of these, or with the deleted record of that id if there is
-- one.
pub model_find_lem :
    (records : List Record) (query : List ℕ)
    → model_find records query ≡ (
        if length query == 0
        then (none, 0)
        else answer (found_by_id records (hex_decode query 16)) (matching query records))
unfolding model_find
model_find_lem records query = elim (Bool-cases (length query == 0)) [
  | inl none_asked ↦ rw none_asked
  | inr asked ↦ elim (Option-cases (found_by_id records (hex_decode query 16))) [
    | inl no_id ↦
        rw (asked, no_id)
          (find_loop_lem query none 0 records
            ∙ from_zero (first_of none (matching query records)) _)
    | inr (r, by_id) ↦ elim (Bool-cases (is_deleted r)) [
      | inl deleted ↦
          rw (asked, by_id, deleted) (find_loop_lem query (some r) 0 records ∙ from_zero (some r) _)
      | inr live ↦ rw (asked, by_id, live)
    ]
  ]
]
