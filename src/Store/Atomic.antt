-- ===== src/Store/Atomic.antt =====
-- src/store.c: how `write_atomic_at` ends.
use pvault.Base.{
  subst, ℕ, zero, suc, ◌≡◌, refl, sym, ◌∙◌, ◌⊎◌, inl, inr, Bool, Bool-cases, Option-cases, true,
  false, not, none, some, List, [], ◌∷◌, ◌++◌, length, All, leb, ◌==◌, bytes_eq, if◌then◌else◌,
}
use pvault.Exec.{Exec, proceed, refuse_if, ◌>>=◌, ◌>>◌}
use pvault.Result.{Result, ok, err}
use pvault.Status.{Status, usage, io, exists, durability}
use pvault.Store.{Name, Dir, file_at, remove}
use pvault.Store.Content.{After, done, stopped, Early, Holds, IsOnDisk, staged-After}
use pvault.Store.Disk.{
  Disk, on_file, rename, create, file_at-put, file_at-put_other, file_at-remove_other,
}
use pvault.Store.Steps.{
  IsOther, name-IsOther, IsIntact, IsQuiet, Keeps, create-Keeps, staged-Keeps, discard-Keeps,
}
use pvault.Store.Write.{
  Answers, Attempt, temporary, path_max, open_temporary, staged, published, settle, discard,
  write_atomic,
}

-- The new file is in its place, with all its bytes on the disk; up to then nothing had changed.
pub record IsReplaced (name : Name) (old : Dir) (new : List ℕ) (no_replace : Bool) (s : Disk)
    : Type 0 where
  pub found : file_at name s.files ≡ some (record { bytes = new; synced = true })
  pub fresh : no_replace ≡ true → file_at name old ≡ none
  pub others :
      (k : Name) → IsOther name k → bytes_eq name k ≡ false → file_at k s.files ≡ file_at k old
  pub before : All (IsIntact name old) s.seen

pub data Outcome (name : Name) (old : Dir) (new : List ℕ) (no_replace : Bool)
    : Result (Unit {0}) × Disk → Type 0 where
  replaced :
      {r : Result (Unit {0})} {s : Disk}
      → (r ≡ ok tt) ⊎ (r ≡ err durability)
      → IsReplaced name old new no_replace s
      → Outcome name old new no_replace (r, s)
  untouched :
      {e : Status} {s : Disk}
      → Early e
      → IsQuiet name old s
      → Outcome name old new no_replace (err e, s)

-- A temporary file was made, or not.
data Opened (name : Name) (old : Dir) : Result Name × Disk → Type 0 where
  opened :
      (suffix : ℕ) {s : Disk}
      → IsQuiet name old s
      → Holds (temporary name suffix) [] s
      → Opened name old (ok (temporary name suffix), s)
  unopened : {e : Status} {s : Disk} → Early e → IsQuiet name old s → Opened name old (err e, s)

module _ (name : Name) (old : Dir) where
  create-Opened :
      (suffix : ℕ) (b : Bool) (s : Disk)
      → IsQuiet name old s
      → Opened name old (
          if b
          then (ok (temporary name suffix), (create (temporary name suffix) s).1)
          else (err io, s))
  create-Opened suffix true s q =
      opened suffix ((create-Keeps name old suffix).run s q)
        (record { synced = false; found = file_at-put (temporary name suffix) _ s.files })
  create-Opened suffix false s q = unopened (inr (inl refl)) q

  open_temporary-Opened :
      (left : ℕ) (attempts : List Attempt) (s : Disk)
      → IsQuiet name old s
      → Opened name old (open_temporary left attempts name s)
  unfolding open_temporary
  open_temporary-Opened zero attempts s q = unopened (inr (inl refl)) q
  open_temporary-Opened (suc left) [] s q = unopened (inr (inl refl)) q
  open_temporary-Opened (suc left) (a ∷ attempts) s q =
      elim (Bool-cases (leb path_max (length (temporary name a.suffix)))) [
        | inl long ↦ rw (open_temporary, long) (unopened (inr (inr (inl refl))) q)
        | inr short ↦ elim (Option-cases (file_at (temporary name a.suffix) s.files)) [
          | inr (f, there) ↦
              rw (open_temporary, short, there) (open_temporary-Opened left attempts s q)
          | inl free ↦ rw (open_temporary, short, free) (create-Opened a.suffix a.openable s q)
        ]
      ]

  renamed :
      (new : List ℕ) (no_replace : Bool) (suffix : ℕ) (s : Disk)
      → (no_replace ≡ true → file_at name old ≡ none)
      → IsQuiet name old s
      → IsOnDisk (temporary name suffix) new s
      → IsReplaced name old new no_replace (rename (temporary name suffix) name s).1
  renamed new no_replace suffix s free q held =
      let t : Name = temporary name suffix in
      record {
        found = rw (on_file, held.found) (file_at-put name _ (remove t s.files));
        fresh = free;
        others = λ k o far.
            rw (on_file, held.found)
              (file_at-put_other name k _ (remove t s.files) far
                ∙ file_at-remove_other t k s.files (o.apart suffix))
            ∙ q.now.kept k o;
        before = (q.now, q.before);
      }

  directory_synced :
      (new : List ℕ) (no_replace b : Bool) (s : Disk)
      → IsReplaced name old new no_replace s
      → Outcome name old new no_replace (refuse_if (not b) durability s)
  directory_synced new no_replace true s h = replaced (inl refl) h
  directory_synced new no_replace false s h = replaced (inr refl) h

  module _ (a : Answers) (new : List ℕ) (suffix : ℕ) where
    stopped-Outcome :
        (no_replace : Bool) (e : Status) (s : Disk)
        → Early e
        → IsQuiet name old s
        → Outcome name old new no_replace (settle a (temporary name suffix) (err e, s))
    stopped-Outcome no_replace e s early q = untouched early (discard-Keeps name old suffix a s q)

    moved :
        (no_replace b : Bool) (s : Disk)
        → (no_replace ≡ true → file_at name old ≡ none)
        → IsQuiet name old s
        → IsOnDisk (temporary name suffix) new s
        → Outcome name old new no_replace (
            settle a
              (temporary name suffix)
              (if b then rename (temporary name suffix) name s else (err io, s)))
    moved no_replace true s free q held =
        directory_synced new no_replace a.directory_sync _
          (renamed new no_replace suffix s free q held)
    moved no_replace false s free q held = stopped-Outcome no_replace io s (inr (inl refl)) q

    -- The renaming after a new file was staged, and what follows it.
    settled :
        (no_replace : Bool) (s : Disk)
        → IsQuiet name old s
        → IsOnDisk (temporary name suffix) new s
        → Outcome name old new no_replace (
            settle a
              (temporary name suffix)
              (published a (temporary name suffix) name no_replace s))
    unfolding published
    settled no_replace s q held =
        let same : file_at name s.files ≡ file_at name old = q.now.kept name (name-IsOther name) in
        let out : Result (Unit {0}) × Disk =
          published a (temporary name suffix) name no_replace s in
        let move : Result (Unit {0}) × Disk =
          if a.renames then rename (temporary name suffix) name s else (err io, s) in
        let by : out ≡ move
            → (no_replace ≡ true → file_at name old ≡ none)
            → Outcome name old new no_replace (settle a (temporary name suffix) out) =
          λ e free.
            subst (λ r. Outcome name old new no_replace (settle a (temporary name suffix) r))
              (sym e) (moved no_replace a.renames s free q held) in
        elim (Option-cases (file_at name s.files)) [
          | inl none_there ↦ by (rw (published, none_there) refl) (λ _. sym same ∙ none_there)
          | inr (f, there) ↦ elim (Bool-cases no_replace) [
            | inr over ↦ by (rw (published, there, over) refl) (λ h. let e = sym over ∙ h in cc)
            | inl only_new ↦
                let stop : (e : Status)
                    → Early e
                    → out ≡ (err e, s)
                    → Outcome name old new no_replace (settle a (temporary name suffix) out) =
                  λ e early refusal.
                    subst
                      (λ r. Outcome name old new no_replace (settle a (temporary name suffix) r))
                      (sym refusal) (stopped-Outcome no_replace e s early q) in
                elim (Bool-cases a.renames) [
                  | inl answered ↦
                      stop exists (inr (inr (inr refl)))
                        (rw (published, there, only_new, answered) refl)
                  | inr broken ↦
                      stop io (inr (inl refl)) (rw (published, there, only_new, broken) refl)
                ]
          ]
        ]

    staged_settled :
        (no_replace : Bool) (r : Result (Unit {0}) × Disk)
        → IsQuiet name old r.1
        → After (IsOnDisk (temporary name suffix) new) r
        → Outcome name old new no_replace (
            settle a
              (temporary name suffix)
              (proceed r (λ _. published a (temporary name suffix) name no_replace)))
    staged_settled no_replace r q (done {s = s} held) = settled no_replace s q held
    staged_settled no_replace r q (stopped {e = e} {s = s} early) =
        stopped-Outcome no_replace e s early q

looked :
    {name : Name} {old : Dir} {new : List ℕ} {no_replace : Bool} {x y : Result (Unit {0}) × Disk}
    (b : Bool)
    → Outcome name old new no_replace x
    → Outcome name old new no_replace y
    → Outcome name old new no_replace (if not b then x else y)
looked true p q = q
looked false p q = p

-- A file that is staged in a temporary one and then renamed, however it is staged.
module _ (a : Answers) (name : Name) (stage : Name → Exec Disk (Unit {0})) (new : List ℕ)
    (no_replace : Bool) (old : Dir)
    (keeps : (suffix : ℕ) → Keeps name old (stage (temporary name suffix)))
    (after : (suffix : ℕ) (s : Disk)
      → Holds (temporary name suffix) [] s
      → After (IsOnDisk (temporary name suffix) new) (stage (temporary name suffix) s)) where
  begun :
      (r : Result Name × Disk)
      → Opened name old r
      → Outcome name old new no_replace (
          proceed r (λ t s.
            if not a.stat_first
            then (err io, discard a t s)
            else settle a t (proceed (stage t s) (λ _. published a t name no_replace))))
  begun r (unopened early q) = untouched early q
  begun r (opened suffix {s = s} q held) =
      looked a.stat_first (stopped-Outcome name old a new suffix no_replace io s (inr (inl refl)) q)
        (staged_settled name old a new suffix no_replace (stage (temporary name suffix) s)
          ((keeps suffix).run s q) (after suffix s held))

  pub published-Outcome :
      (empty : Bool)
      → Outcome name old new no_replace (
          (refuse_if empty usage
              >> (open_temporary 32 a.attempts name >>= λ t s.
                  if not a.stat_first
                  then (err io, discard a t s)
                  else settle a t ((stage t >> published a t name no_replace) s)))
            (record { files = old; seen = [] }))
  published-Outcome empty =
      let start : Disk = record { files = old; seen = [] } in
      let quiet : IsQuiet name old start = record {
        now = record { kept = λ k o. refl };
        before = tt;
      } in
      elim (Bool-cases empty) [
        | inl none_given ↦ rw none_given (untouched (inl refl) quiet)
        | inr more ↦ rw more (begun _ (open_temporary-Opened name old 32 a.attempts start quiet))
      ]

-- write_atomic_at refines an atomic replacement: it returns PV_OK or PV_ERR_DURABILITY with the
-- new file synced under the name, where nothing was before if it may not replace, and all files
-- but the temporary ones and that one as before; or PV_ERR_USAGE, PV_ERR_IO, PV_ERR_LIMIT or
-- PV_ERR_EXISTS with all files but the temporary ones as before. In all earlier states these were
-- as before.
pub write_atomic-Outcome :
    (a : Answers) (name : Name) (header ciphertext : List ℕ) (no_replace : Bool) (old : Dir)
    → Outcome name old
        (header ++ ciphertext)
        no_replace
        (write_atomic a name header ciphertext no_replace (record { files = old; seen = [] }))
unfolding write_atomic
write_atomic-Outcome a name header ciphertext no_replace old =
    published-Outcome a name (λ t. staged a t header ciphertext) (header ++ ciphertext) no_replace
      old (λ suffix. staged-Keeps name old suffix a header ciphertext)
      (λ suffix s held. staged-After (temporary name suffix) a header ciphertext s held)
      (length ciphertext == 0)
