-- ===== src/Model/Tests.antt =====
-- Runs of src/model.c on small vaults.
use pvault.Arena.{set_readwrite, Arena, arena_init, arena_alloc}
use pvault.Base.{◌≡◌, ◌≢◌, ◌↔◌, refl, true, false, [], arith, bytes_eq, some}
use pvault.Base.Int.{pos}
use pvault.Base.Zeros.{id_is_zero}
use pvault.Model.Add.{make_writable, add_record, draw_id, usable, choose_id, push_record, find_id}
use pvault.Model.Added.{CanAdd, add_record_lem, add_cost, grown_capacity, opened}
use pvault.Model.AddOutcomes.{AddOutcome, add_record_ends}
use pvault.Base.{ℕ, length, List, [], ◌∷◌, none, if◌then◌else◌, ◌==◌}
use pvault.Util.Hex.{ascii_fold, hex_decode, hex_bytes, hex_value, hex_digits}
use pvault.Util.Search.{slice_contains_cstr, search_loop, starts_with}
use pvault.Model.Clone.{model_clone}
use pvault.Model.Cloned.{IsClone, model_clone-IsClone, memory_ok}
use pvault.Model.Find.{model_find, find_loop, record_matches, any_contains, found_by_id}
use pvault.Model.Found.{answer, matching, model_find_lem}
use pvault.Model.Erased.{Erased, model_delete-Erased}
use pvault.Model.Deletion.{Deletion, model_delete-Deletion}
use pvault.Model.Delete.{can_delete, deleted_record, model_delete}
use pvault.Model.Init.{Memory, model_init}
use pvault.Model.Invariant.{IsVault}
use pvault.Model.Kept.{Ending}
use pvault.Model.Life.{
  add_record-IsVault, model_delete-IsVault, fresh_vault, Reach, here, next, add, delete,
  init-Reach-IsVault,
}
use pvault.Model.Room.{Grew}
use pvault.Model.Samples.{mail_id, mail, bank, answers, one_record, bank_id}
use pvault.Model.Stored.{stored_record}
use pvault.Model.Types.{Record, Vault}
use pvault.Model.Validate.{
  validate_record, validate_record_fields, over_limit, malformed, text_slice_valid, check_slices,
  check_fields, check_field,
}
use pvault.Model.Valid.{HasValidFields, IsRecord, validate_record_fields_iff, validate_record_iff}
use pvault.Result.{ok}
use pvault.Util.{size_add}
use pvault.Util.Utf8.{utf8_valid}

mail-validated : validate_record mail ≡ ok tt
unfolding validate_record validate_record_fields over_limit malformed text_slice_valid utf8_valid
    check_slices check_fields check_field id_is_zero
mail-validated = refl

pub mail-IsRecord : IsRecord mail
mail-IsRecord =
    let (valid, revised, identified) = (validate_record_iff mail).0 mail-validated in
    record { valid = valid; revised = revised; identified = identified }

bank-HasValidFields : HasValidFields bank
unfolding validate_record validate_record_fields over_limit malformed text_slice_valid utf8_valid
    check_slices check_fields check_field id_is_zero
bank-HasValidFields = (validate_record_fields_iff bank).0 refl

one_record-IsVault : IsVault one_record
unfolding find_id
one_record-IsVault = record {
  arena = record { inside = omega arith; small = omega arith };
  allocated = refl;
  fits = omega arith;
  some_room = omega arith;
  records = (mail-IsRecord, tt);
  distinct = (refl, tt);
}

answers-Ending : Ending answers one_record.records
unfolding usable find_id id_is_zero bytes_eq
answers-Ending = refl

-- The first id that is drawn is that of the record which the vault has.
bank-CanAdd : CanAdd answers bank bank_id one_record
unfolding choose_id draw_id usable find_id id_is_zero bytes_eq
bank-CanAdd = record {
  fields = bank-HasValidFields;
  identified = refl;
  chosen = refl;
  arena = record { bounds = one_record-IsVault.arena; allocated = refl; granted = refl };
  some_room = omega arith;
  room = omega arith;
}

validate_record_iff_example :
    (validate_record mail ≡ ok tt)
    ↔ (HasValidFields mail × (mail.revision ≢ 0) × (id_is_zero mail.id ≡ false))
validate_record_iff_example = validate_record_iff mail

add_record_lem_example :
    (b : Arena) × (add_record answers bank one_record ≡ (
      ok (stored_record answers bank_id bank),
      push_record answers
          (stored_record answers bank_id bank)
          (record one_record { arena = b; record_capacity = grown_capacity one_record }),
    ))
    × Grew (add_cost bank one_record) (opened one_record.arena) b
add_record_lem_example = add_record_lem answers bank bank_id one_record bank-CanAdd

add_record-IsVault_example : IsVault (add_record answers bank one_record).1
add_record-IsVault_example =
    add_record-IsVault answers bank one_record one_record-IsVault refl answers-Ending

add_record_ends_example : AddOutcome answers bank one_record
add_record_ends_example = add_record_ends answers bank one_record one_record-IsVault

model_delete-IsVault_example : IsVault (model_delete (pos 9000) true 0 one_record).1
model_delete-IsVault_example =
    model_delete-IsVault (pos 9000) true 0 one_record one_record-IsVault refl

model_delete-Deletion_example :
    Deletion (pos 9000) true 0 one_record (model_delete (pos 9000) true 0 one_record)
model_delete-Deletion_example = model_delete-Deletion (pos 9000) true 0 one_record refl

abbrev memory : Memory
memory = record { arena_malloc = true; arena_mlock = true; key_malloc = true; key_mlock = true }

-- A vault that was made, got a record, and lost it.
abbrev lived : Vault
lived = (model_delete (pos 9000) true 0 (add_record answers bank (fresh_vault [])).1).1

some_life : Reach (fresh_vault []) lived
unfolding usable find_id id_is_zero
some_life = next (next here (add answers bank refl refl)) (delete (pos 9000) true 0 refl)

init-Reach-IsVault_example : IsVault lived
unfolding model_init arena_init arena_alloc size_add
init-Reach-IsVault_example = init-Reach-IsVault memory [] refl some_life

model_clone-IsClone_example :
    (w : Vault) × (model_clone memory_ok (λ i. answers) one_record ≡ ok w) × IsClone one_record w
model_clone-IsClone_example =
    model_clone-IsClone (λ i. answers) one_record one_record-IsVault (omega arith) (omega arith)

-- The id of a record that is deleted, in hexadecimal, finds its tombstone.
abbrev gone : Record
gone = deleted_record (pos 9000) mail

abbrev mail_query : List ℕ
mail_query = hex_digits mail_id

found_gone : model_find (gone ∷ []) mail_query ≡ (some gone, 0)
unfolding model_find find_loop record_matches any_contains slice_contains_cstr search_loop
    starts_with ascii_fold hex_decode hex_bytes hex_value hex_digits find_id bytes_eq deleted_record
found_gone = refl

model_find_lem_example : model_find (mail ∷ gone ∷ []) mail_query ≡ (
    if length mail_query == 0
    then (none, 0)
    else answer
        (found_by_id (mail ∷ gone ∷ []) (hex_decode mail_query 16))
        (matching mail_query (mail ∷ gone ∷ [])))
model_find_lem_example = model_find_lem (mail ∷ gone ∷ []) mail_query

abbrev after_delete : Vault
after_delete = (model_delete (pos 9000) true 0 one_record).1

mail_deleted : model_delete (pos 9000) true 0 one_record ≡ (ok tt, after_delete)
unfolding model_delete can_delete make_writable set_readwrite
mail_deleted = refl

model_delete-Erased_example : Erased one_record after_delete 0
model_delete-Erased_example =
    model_delete-Erased (pos 9000) true 0 one_record after_delete one_record-IsVault mail_deleted
