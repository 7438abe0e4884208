-- ===== src/Model/Kept.antt =====
-- What `pv_model_add_record` of src/model.c stores is valid, and its id is new.
use pvault.Base.{
  ℕ, ◌<◌, ◌≡◌, refl, inl, inr, true, false, ◌&&◌, List, [], ◌∷◌, ◌++◌, All, ◌==◌, arith, map, none,
  Bool-cases, bytes_eq, length-map,
}
use pvault.Base.Int.{ℤ, is_negative, is_zero}
use pvault.Base.Zeros.{id_is_zero}
use pvault.Model.Add.{Env, find_id, choose_id, draw_id, usable, stamped}
use pvault.Model.Invariant.{Distinct}
use pvault.Model.Room.{stored}
use pvault.Model.Stored.{stored_record, stored_field, stored_array}
use pvault.Model.Types.{
  Record, CustomField, max_title, max_username, max_password, max_notes, max_url, max_tag,
  max_field_name, max_field_value,
}
use pvault.Model.Valid.{HasValidFields, IsText, IsBlob, IsField, IsArray}
use pvault.Result.{ok}
use pvault.Util.Slice.{Slice, Span, null, view, len, dangling}

stored-IsBlob : (maximum : ℕ) (s : Slice) → IsBlob maximum s → IsBlob maximum (stored s)
stored-IsBlob maximum (null n) v = record { sound = refl; fits = omega arith }
stored-IsBlob maximum (view []) v = record { sound = refl; fits = omega arith }
stored-IsBlob maximum (view (x ∷ xs)) v = v

stored-IsText : (maximum : ℕ) (s : Slice) → IsText maximum s → IsText maximum (stored s)
stored-IsText maximum (null n) v = record { sound = refl; fits = omega arith; utf8 = v.utf8 }
stored-IsText maximum (view []) v = record { sound = refl; fits = omega arith; utf8 = v.utf8 }
stored-IsText maximum (view (x ∷ xs)) v = v

stored_nonempty : (s : Slice) → dangling s ≡ false → 0 < len s → 0 < len (stored s)
stored_nonempty (null n) d h = ground arith
stored_nonempty (view []) d h = h
stored_nonempty (view (x ∷ xs)) d h = h

stored-IsField : (x : CustomField) → IsField x → IsField (stored_field x)
stored-IsField x v = record {
  name = stored-IsText max_field_name x.name v.name;
  named = stored_nonempty x.name v.name.sound v.named;
  value = stored-IsBlob max_field_value x.value v.value;
  flags = v.flags;
}

pub All-map {ℓ κ} :
    {A : Type ℓ} (P : A → Type κ) (f : A → A) (xs : List A)
    → ((x : A) → P x → P (f x))
    → All P xs
    → All P (map f xs)
All-map P f [] k h = tt
All-map P f (x ∷ xs) k (h, hs) = (k x h, All-map P f xs k hs)

stored-IsArray {ℓ κ} :
    {A : Type ℓ} (P : A → Type κ) (f : A → A) (xs : Span A)
    → ((x : A) → P x → P (f x))
    → IsArray P xs
    → IsArray P (stored_array f xs)
stored-IsArray P f (null n) k v = record { sound = refl; few = omega arith; each = tt }
stored-IsArray P f (view []) k v = record { sound = refl; few = omega arith; each = tt }
stored-IsArray P f (view (x ∷ xs)) k v = record {
  sound = refl;
  few = omega (arith, v.few, length-map f xs);
  each = All-map P f (x ∷ xs) k v.each;
}

stamped_nonnegative :
    (source : Record) (now time : ℤ)
    → is_negative now ≡ false
    → is_negative time ≡ false
    → is_negative (stamped source now time) ≡ false
stamped_nonnegative source now time h k = elim (Bool-cases (source.revision == 0 && is_zero time)) [
  | inl e ↦ rw e h
  | inr e ↦ rw e k
]

-- The fields of the copy are as valid as those of the source.
pub stored-HasValidFields :
    (env : Env) (id : List ℕ) (r : Record)
    → is_negative env.now ≡ false
    → HasValidFields r
    → HasValidFields (stored_record env id r)
stored-HasValidFields env id r clock v = record {
  created = stamped_nonnegative r env.now r.created_ms clock v.created;
  updated = stamped_nonnegative r env.now r.updated_ms clock v.updated;
  flags = v.flags;
  title = stored-IsText max_title r.title v.title;
  titled = stored_nonempty r.title v.title.sound v.titled;
  username = stored-IsText max_username r.username v.username;
  password = stored-IsBlob max_password r.password v.password;
  notes = stored-IsText max_notes r.notes v.notes;
  urls = stored-IsArray (IsText max_url) stored r.urls (stored-IsText max_url) v.urls;
  tags = stored-IsArray (IsText max_tag) stored r.tags (stored-IsText max_tag) v.tags;
  fields = stored-IsArray IsField stored_field r.fields stored-IsField v.fields;
}

-- The loop that draws an id ends: its last draw is one that it takes.
abbrev pub Ending : Env → List Record → Type 0
Ending env records = usable records env.last_draw ≡ true

draw_id-usable :
    (records : List Record) (draws : List (List ℕ)) (last : List ℕ)
    → usable records last ≡ true
    → usable records (draw_id records draws last) ≡ true
unfolding draw_id
draw_id-usable records [] last h = h
draw_id-usable records (d ∷ ds) last h = elim (Bool-cases (usable records d)) [
  | inl e ↦ rw (e, draw_id) e
  | inr e ↦ rw (e, draw_id) (draw_id-usable records ds last h)
]

usable_inv :
    (records : List Record) (id : List ℕ)
    → usable records id ≡ true
    → (id_is_zero id ≡ false) × (find_id id records ≡ none)
unfolding usable
usable_inv records id h = ground arith

-- The id of a new record is not zero and not that of another record.
pub choose_id-new :
    (env : Env) (id : List ℕ) (records : List Record) (chosen : List ℕ)
    → Ending env records
    → choose_id env id records ≡ ok chosen
    → (id_is_zero chosen ≡ false) × (find_id chosen records ≡ none)
unfolding choose_id
choose_id-new env id records chosen ending e = elim (Bool-cases (id_is_zero id)) [
  | inl zero_id ↦
      let drawn = draw_id-usable records env.draws env.last_draw ending in
      let same : draw_id records env.draws env.last_draw ≡ chosen = ground arith in
      usable_inv records chosen (rw (← same) drawn)
  | inr given ↦ ground arith
]

pub bytes_eq_comm : (xs ys : List ℕ) → bytes_eq xs ys ≡ bytes_eq ys xs
unfolding bytes_eq
bytes_eq_comm [] [] = refl
bytes_eq_comm [] (y ∷ ys) = refl
bytes_eq_comm (x ∷ xs) [] = refl
bytes_eq_comm (x ∷ xs) (y ∷ ys) = ground (arith, bytes_eq_comm xs ys)

pub find_id-append :
    (id : List ℕ) (records : List Record) (r : Record)
    → find_id id records ≡ none
    → bytes_eq r.id id ≡ false
    → find_id id (records ++ (r ∷ [])) ≡ none
unfolding find_id
find_id-append id [] r h k = rw k
find_id-append id (x ∷ xs) r h k = ground (arith, find_id-append id xs r)

pub Distinct-append :
    (records : List Record) (r : Record)
    → Distinct records
    → find_id r.id records ≡ none
    → Distinct (records ++ (r ∷ []))
unfolding find_id
Distinct-append [] r d h = (refl, tt)
Distinct-append (x ∷ xs) r (d, ds) h = (
  find_id-append x.id xs r d (ground (arith, bytes_eq_comm x.id r.id)),
  Distinct-append xs r ds (ground arith),
)
