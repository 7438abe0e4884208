-- ===== src/Store/Content.antt =====
-- src/store.c: what stands in the temporary file of `write_atomic_at` at each step that succeeds.
use pvault.Base.{
  subst, ℕ, zero, suc, ◌≡◌, refl, sym, ap, ◌∙◌, ◌⊎◌, inl, inr, Bool, true, false, not, some, List,
  [], ◌∷◌, ◌++◌, take, drop, take-append-drop, append_assoc, append-nil, if◌then◌else◌,
}
use pvault.Exec.{Exec, proceed, fail, refuse_if, ◌>>◌}
use pvault.Result.{Result, ok, err}
use pvault.Status.{Status, usage, io, limit, exists}
use pvault.Store.{Name, File, file_at, put}
use pvault.Store.Disk.{Disk, append, sync, on_file, file_at-put}
use pvault.Store.Write.{
  Answers, WriteAnswer, interrupted, failed, wrote, while_left, write_all, staged,
}

-- The errors before the new file is in its place.
abbrev pub Early : Status → Type 0
Early e = (e ≡ usage) ⊎ (e ≡ io) ⊎ (e ≡ limit) ⊎ (e ≡ exists)

-- How an action ends: with Q, or early.
pub data After (Q : Disk → Type 0) : Result (Unit {0}) × Disk → Type 0 where
  done : {s : Disk} → Q s → After Q (ok tt, s)
  stopped : {e : Status} {s : Disk} → Early e → After Q (err e, s)

pub then-After :
    {Q R : Disk → Type 0} (m k : Exec Disk (Unit {0})) (s : Disk)
    → After Q (m s)
    → ((s' : Disk) → Q s' → After R (k s'))
    → After R ((m >> k) s)
then-After {Q} {R} m k s h next = go (m s) h
  where
    go : (r : Result (Unit {0}) × Disk) → After Q r → After R (proceed r (λ _. k))
    go r (done {s = s'} q) = next s' q
    go r (stopped e) = stopped e

pub refuse-After :
    {Q : Disk → Type 0} (b : Bool) (e : Status) (s : Disk)
    → Early e
    → Q s
    → After Q (refuse_if b e s)
refuse-After true e s h q = stopped h
refuse-After false e s h q = done q

-- The file has these bytes, and, if that is asked for, they are on the disk.
pub record Holds (t : Name) (bytes : List ℕ) (s : Disk) : Type 0 where
  pub synced : Bool
  pub found : file_at t s.files ≡ some (record { bytes = bytes; synced = synced })

pub record IsOnDisk (t : Name) (bytes : List ℕ) (s : Disk) : Type 0 where
  pub found : file_at t s.files ≡ some (record { bytes = bytes; synced = true })

module _ (t : Name) where
  rewritten :
      (bytes : List ℕ) (g : File → File) (s : Disk) (h : Holds t bytes s)
      → file_at t (on_file t (λ f. put t (g f)) s.files)
        ≡ some (g (record { bytes = bytes; synced = h.synced }))
  rewritten bytes g s h = rw (on_file, h.found) (file_at-put t _ s.files)

  append-After :
      (old more : List ℕ) (s : Disk)
      → Holds t old s
      → After (Holds t (old ++ more)) (append t more s)
  append-After old more s h = done (record {
    synced = false;
    found = rewritten old (λ f. record { bytes = f.bytes ++ more; synced = false }) s h;
  })

  while_left-After :
      (old bytes : List ℕ) (m : Exec Disk (Unit {0})) (s : Disk)
      → Holds t old s
      → After (Holds t (old ++ bytes)) (m s)
      → After (Holds t (old ++ bytes)) (while_left bytes m s)
  while_left-After old [] m s h k = done (subst (λ x. Holds t x s) (sym (append-nil old)) h)
  while_left-After old (b ∷ bytes) m s h k = k

  pub write_all-After :
      (answers : List WriteAnswer) (old bytes : List ℕ) (s : Disk)
      → Holds t old s
      → After (Holds t (old ++ bytes)) (write_all t answers bytes s)
  unfolding write_all
  write_all-After [] old bytes s h = while_left-After old bytes _ s h (append-After old bytes s h)
  write_all-After (interrupted ∷ answers) old bytes s h =
      while_left-After old bytes _ s h (write_all-After answers old bytes s h)
  write_all-After (failed ∷ answers) old bytes s h =
      while_left-After old bytes _ s h (stopped (inr (inl refl)))
  write_all-After (wrote zero ∷ answers) old bytes s h =
      while_left-After old bytes _ s h (stopped (inr (inl refl)))
  write_all-After (wrote (suc m) ∷ answers) old bytes s h = while_left-After old bytes _ s h (
      then-After (append t (take (suc m) bytes)) (write_all t answers (drop (suc m) bytes)) s
        (append-After old (take (suc m) bytes) s h)
        (λ s' h'.
          subst (λ x. After (Holds t x) (write_all t answers (drop (suc m) bytes) s'))
            (append_assoc old (take (suc m) bytes) (drop (suc m) bytes)
              ∙ ap (λ x. old ++ x) (take-append-drop (suc m) bytes))
            (write_all-After answers (old ++ take (suc m) bytes) (drop (suc m) bytes) s' h')))

  pub sync-After :
      (bytes : List ℕ) (b : Bool) (s : Disk)
      → Holds t bytes s
      → After (IsOnDisk t bytes) ((if b then sync t else fail io) s)
  sync-After bytes true s h =
      done (record { found = rewritten bytes (λ f. record { bytes = f.bytes; synced = true }) s h })
  sync-After bytes false s h = stopped (inr (inl refl))

  pub staged-After :
      (a : Answers) (header ciphertext : List ℕ) (s : Disk)
      → Holds t [] s
      → After (IsOnDisk t (header ++ ciphertext)) (staged a t header ciphertext s)
  unfolding staged
  staged-After a header ciphertext s h =
      let head : Exec Disk (Unit {0}) = write_all t a.header_writes header in
      let both : Exec Disk (Unit {0}) = head >> write_all t a.body_writes ciphertext in
      let seen : Exec Disk (Unit {0}) = both >> refuse_if (not a.stat_last) io in
      let kept : Exec Disk (Unit {0}) = seen >> (if a.file_sync then sync t else fail io) in
      then-After kept (refuse_if (not a.close_ok) io) s
        (then-After seen (if a.file_sync then sync t else fail io) s
          (then-After both (refuse_if (not a.stat_last) io) s
            (then-After head (write_all t a.body_writes ciphertext) s
              (write_all-After a.header_writes [] header s h)
              (λ s1 h1. write_all-After a.body_writes header ciphertext s1 h1))
            (λ s2 h2. refuse-After (not a.stat_last) io s2 (inr (inl refl)) h2))
          (λ s3 h3. sync-After (header ++ ciphertext) a.file_sync s3 h3))
        (λ s4 h4. refuse-After (not a.close_ok) io s4 (inr (inl refl)) h4)
