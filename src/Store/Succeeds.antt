-- ===== src/Store/Succeeds.antt =====
-- src/store.c: when the calls of the system answer well, `write_atomic_at` succeeds.
use pvault.Base.{
  ◌≤◌, leb→le, Bool-cases, Option-cases, suc, ℕ, zero, ◌<◌, ◌≡◌, refl, sym, ap, ◌∙◌, ◌⊎◌, inl, inr,
  Bool, true, false, not, none, List, [], ◌∷◌, length, drop, All, leb, ◌==◌, if◌then◌else◌, arith,
}
use pvault.Exec.{Exec, proceed, refuse_if, fail, ◌>>◌}
use pvault.Result.{Result, ok, err}
use pvault.Status.{io}
use pvault.Store.{Name, Dir, file_at}
use pvault.Store.Disk.{Disk, append, sync, create}
use pvault.Store.Steps.{IsQuiet, name-IsOther, create-Keeps, staged-Keeps}
use pvault.Store.Write.{
  Answers, Attempt, WriteAnswer, interrupted, failed, wrote, while_left, temporary, path_max,
  write_all, open_temporary, staged, published, settle, write_atomic,
}

-- A call of `write` that does not fail.
abbrev pub IsProgress : WriteAnswer → Type 0
IsProgress interrupted = Unit
IsProgress failed = ⊥
IsProgress (wrote zero) = ⊥
IsProgress (wrote (suc n)) = Unit

-- All calls answer well, and a first temporary name is free.
pub record AnswersWell (a : Answers) (name : Name) (suffix : ℕ) (d : Dir) : Type 0 where
  pub attempt :
      (rest : List Attempt) × (a.attempts ≡ record { suffix = suffix; openable = true } ∷ rest)
  pub short : length (temporary name suffix) < path_max
  pub free : file_at (temporary name suffix) d ≡ none
  pub first_stat : a.stat_first ≡ true
  pub header_progress : All IsProgress a.header_writes
  pub body_progress : All IsProgress a.body_writes
  pub last_stat : a.stat_last ≡ true
  pub file_synced : a.file_sync ≡ true
  pub closed : a.close_ok ≡ true
  pub renamed : a.renames ≡ true
  pub directory_synced : a.directory_sync ≡ true

then-succeeds :
    (m k : Exec Disk (Unit {0})) (s : Disk)
    → (m s).0 ≡ ok tt
    → (k (m s).1).0 ≡ ok tt
    → ((m >> k) s).0 ≡ ok tt
then-succeeds m k s = go (m s)
  where
    go :
        (r : Result (Unit {0}) × Disk)
        → r.0 ≡ ok tt
        → (k r.1).0 ≡ ok tt
        → (proceed r (λ _. k)).0 ≡ ok tt
    go (ok u, s') h next = next
    go (err e, s') h next = cc

while_left-succeeds :
    (bytes : List ℕ) (m : Exec Disk (Unit {0})) (s : Disk)
    → (m s).0 ≡ ok tt
    → (while_left bytes m s).0 ≡ ok tt
while_left-succeeds [] m s h = refl
while_left-succeeds (b ∷ bytes) m s h = h

write_all-succeeds :
    (t : Name) (answers : List WriteAnswer) (bytes : List ℕ) (s : Disk)
    → All IsProgress answers
    → (write_all t answers bytes s).0 ≡ ok tt
unfolding write_all
write_all-succeeds t [] bytes s p = while_left-succeeds bytes (append t bytes) s refl
write_all-succeeds t (interrupted ∷ answers) bytes s (p, ps) =
    while_left-succeeds bytes _ s (write_all-succeeds t answers bytes s ps)
write_all-succeeds t (failed ∷ answers) bytes s (p, ps) = absurd p
write_all-succeeds t (wrote zero ∷ answers) bytes s (p, ps) = absurd p
write_all-succeeds t (wrote (suc m) ∷ answers) bytes s (p, ps) =
    while_left-succeeds bytes _ s (write_all-succeeds t answers (drop (suc m) bytes) _ ps)

module _ (a : Answers) (name : Name) (suffix : ℕ) (d : Dir) (w : AnswersWell a name suffix d) where
  staged-succeeds :
      (header ciphertext : List ℕ) (s : Disk)
      → (staged a (temporary name suffix) header ciphertext s).0 ≡ ok tt
  unfolding staged
  staged-succeeds header ciphertext s =
      let t : Name = temporary name suffix in
      let head : Exec Disk (Unit {0}) = write_all t a.header_writes header in
      let both : Exec Disk (Unit {0}) = head >> write_all t a.body_writes ciphertext in
      let seen : Exec Disk (Unit {0}) = both >> refuse_if (not a.stat_last) io in
      let kept : Exec Disk (Unit {0}) = seen >> (if a.file_sync then sync t else fail io) in
      then-succeeds kept (refuse_if (not a.close_ok) io) s
        (then-succeeds seen (if a.file_sync then sync t else fail io) s
          (then-succeeds both (refuse_if (not a.stat_last) io) s
            (then-succeeds head (write_all t a.body_writes ciphertext) s
              (write_all-succeeds t a.header_writes header s w.header_progress)
              (write_all-succeeds t a.body_writes ciphertext _ w.body_progress))
            (passes a.stat_last w.last_stat _))
          (synced a.file_sync w.file_synced _))
        (passes a.close_ok w.closed _)
    where
      passes : (b : Bool) → b ≡ true → (s' : Disk) → (refuse_if (not b) io s').0 ≡ ok tt
      passes true h s' = refl
      passes false h s' = cc

      synced :
          (b : Bool)
          → b ≡ true
          → (s' : Disk) → ((if b then sync (temporary name suffix) else fail io) s').0 ≡ ok tt
      synced true h s' = refl
      synced false h s' = cc

  opens :
      (left : ℕ) (s : Disk)
      → s.files ≡ d
      → open_temporary (suc left) a.attempts name s
        ≡ (ok (temporary name suffix), (create (temporary name suffix) s).1)
  unfolding open_temporary
  opens left s here =
      let (rest, first) = w.attempt in
      let fits : leb path_max (length (temporary name suffix)) ≡ false =
        elim (Bool-cases (leb path_max (length (temporary name suffix)))) [
          | inr low ↦ low
          | inl high ↦
              absurd (omega (arith, leb→le path_max (length (temporary name suffix)) high, w.short))
        ] in
      let nothing : file_at (temporary name suffix) s.files ≡ none =
        ap (file_at (temporary name suffix)) here ∙ w.free in
      rw (first, open_temporary, fits, nothing) refl

  publishes :
      (no_replace : Bool) (s : Disk)
      → (no_replace ≡ false) ⊎ (file_at name s.files ≡ none)
      → (published a (temporary name suffix) name no_replace s).0 ≡ ok tt
  unfolding published
  publishes no_replace s may = elim (Option-cases (file_at name s.files)) [
    | inl gone ↦ rw (published, gone, w.renamed) refl
    | inr (f, there) ↦ elim may [
      | inl over ↦ rw (published, there, over, w.renamed) refl
      | inr gone ↦ let clash = sym gone ∙ there in cc
    ]
  ]

settles :
    (a : Answers) (t : Name) (r : Result (Unit {0}) × Disk)
    → a.directory_sync ≡ true
    → r.0 ≡ ok tt
    → (settle a t r).0 ≡ ok tt
settles a t (ok u, s) synced h = rw synced refl
settles a t (err e, s) synced h = cc

-- If the first temporary name is short enough and free, each call of write writes something or is
-- interrupted, the other calls of the system succeed, there is a body, and the name is free or may
-- be replaced, then write_atomic_at returns PV_OK.
pub write_atomic_succeeds :
    (a : Answers) (name : Name) (suffix : ℕ) (header ciphertext : List ℕ) (no_replace : Bool)
    (old : Dir)
    → AnswersWell a name suffix old
    → 1 ≤ length ciphertext
    → (no_replace ≡ false) ⊎ (file_at name old ≡ none)
    → (write_atomic a name header ciphertext no_replace (record { files = old; seen = [] })).0
      ≡ ok tt
unfolding write_atomic
write_atomic_succeeds a name suffix header ciphertext no_replace old w some_bytes may =
    let t : Name = temporary name suffix in
    let start : Disk = record { files = old; seen = [] } in
    let opened : Disk = (create t start).1 in
    let quiet : IsQuiet name old opened =
      (create-Keeps name old suffix).run start
        (record { now = record { kept = λ k o. refl }; before = tt }) in
    let held : IsQuiet name old (staged a t header ciphertext opened).1 =
      (staged-Keeps name old suffix a header ciphertext).run opened quiet in
    let same : file_at name (staged a t header ciphertext opened).1.files ≡ file_at name old =
      held.now.kept name (name-IsOther name) in
    let may_now : (no_replace ≡ false)
        ⊎ (file_at name (staged a t header ciphertext opened).1.files ≡ none) =
      elim may [ inl over ↦ inl over | inr gone ↦ inr (same ∙ gone) ] in
    let nonempty : (length ciphertext == 0) ≡ false = ground arith in
    simp (nonempty, opens a name suffix old w 31 start refl, w.first_stat)
      (settles a t _ w.directory_synced (
        then-succeeds (staged a t header ciphertext) (published a t name no_replace) opened
          (staged-succeeds a name suffix old w header ciphertext opened)
          (publishes a name suffix old w no_replace _ may_now)))
