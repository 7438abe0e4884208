-- ===== src/Store/Steps.antt =====
-- src/store.c: which files `write_atomic_at` leaves alone on its way.
use pvault.Base.{
  ℕ, zero, suc, ◌≡◌, refl, ap, ◌∙◌, Bool, Bool-cases, Option-cases, inl, inr, true, false, not,
  List, [], ◌∷◌, ◌++◌, length, length-append, take, drop, All, bytes_eq, bytes_eq→eq, if◌then◌else◌,
  arith,
}
use pvault.Exec.{Exec, proceed, fail, refuse_if, ◌>>◌}
use pvault.Result.{Result, ok, err}
use pvault.Status.{Status, io}
use pvault.Store.{Name, File, Dir, file_at, put}
use pvault.Store.Disk.{
  Disk, change, create, sync, unlink, on_file, file_at-put_other, file_at-remove_other,
}
use pvault.Store.Write.{
  Answers, WriteAnswer, interrupted, failed, wrote, while_left, temporary, write_all, staged,
  discard, hex_eight,
}

-- A name that is not one of the temporary names of `name`.
pub record IsOther (name k : Name) : Type 0 where
  pub apart : (suffix : ℕ) → bytes_eq (temporary name suffix) k ≡ false

-- The files other than the temporary ones are those of `old`.
pub record IsIntact (name : Name) (old d : Dir) : Type 0 where
  pub kept : (k : Name) → IsOther name k → file_at k d ≡ file_at k old

pub name-IsOther : (name : Name) → IsOther name name
name-IsOther name = record {
  apart = λ suffix. elim (Bool-cases (bytes_eq (temporary name suffix) name)) [
    | inr other ↦ other
    | inl same ↦
        let e : length (temporary name suffix) ≡ length name =
          ap length (bytes_eq→eq (temporary name suffix) name same) in
        absurd (
          omega
            (arith, e, length-append name (b'.' ∷ b't' ∷ b'm' ∷ b'p' ∷ b'.' ∷ hex_eight 8 suffix)))
  ];
}

-- All the states up to now are intact, and the present one.
pub record IsQuiet (name : Name) (old : Dir) (s : Disk) : Type 0 where
  pub now : IsIntact name old s.files
  pub before : All (IsIntact name old) s.seen

-- An action that keeps them so.
pub record Keeps {ℓ} {A : Type ℓ} (name : Name) (old : Dir) (m : Exec Disk A) : Type ℓ where
  pub run : (s : Disk) → IsQuiet name old s → IsQuiet name old (m s).1

module _ (name : Name) (old : Dir) where
  pub then-Keeps {ℓ} :
      {A : Type ℓ} (m : Exec Disk (Unit {0})) (k : Exec Disk A)
      → Keeps name old m
      → Keeps name old k
      → Keeps name old (m >> k)
  then-Keeps m k hm hk = record { run = λ s q. after (m s) (hm.run s q) }
    where
      after :
          (r : Result (Unit {0}) × Disk)
          → IsQuiet name old r.1
          → IsQuiet name old (proceed r (λ _. k)).1
      after (ok u, s) q = hk.run s q
      after (err e, s) q = q

  stay-Keeps {ℓ} : {A : Type ℓ} (r : Result A) → Keeps name old (λ s. (r, s))
  stay-Keeps r = record { run = λ s q. q }

  pub refuse-Keeps : (b : Bool) (e : Status) → Keeps name old (refuse_if b e)
  refuse-Keeps true e = record { run = λ s q. q }
  refuse-Keeps false e = record { run = λ s q. q }

  change-Keeps :
      (g : Dir → Dir)
      → ((k : Name) (d : Dir) → IsOther name k → file_at k (g d) ≡ file_at k d)
      → Keeps name old (change g)
  change-Keeps g h = record {
    run = λ s q. record {
      now = record { kept = λ k o. h k s.files o ∙ q.now.kept k o };
      before = (q.now, q.before);
    };
  }

  while_left-Keeps :
      (bytes : List ℕ) (m : Exec Disk (Unit {0}))
      → Keeps name old m
      → Keeps name old (while_left bytes m)
  while_left-Keeps [] m h = stay-Keeps (ok tt)
  while_left-Keeps (b ∷ bytes) m h = h

  module _ (suffix : ℕ) where
    -- Another content for the temporary file.
    put-Keeps :
        (g : File → File)
        → Keeps name old
            (change (on_file (temporary name suffix) (λ f. put (temporary name suffix) (g f))))
    put-Keeps g = change-Keeps _ (λ k d o. elim (Option-cases (file_at (temporary name suffix) d)) [
      | inl gone ↦ rw (on_file, gone) refl
      | inr (f, here) ↦
          rw (on_file, here) (file_at-put_other (temporary name suffix) k (g f) d (o.apart suffix))
    ])

    pub create-Keeps : Keeps name old (create (temporary name suffix))
    create-Keeps =
        change-Keeps _ (λ k d o. file_at-put_other (temporary name suffix) k _ d (o.apart suffix))

    unlink-Keeps : Keeps name old (unlink (temporary name suffix))
    unlink-Keeps =
        change-Keeps _ (λ k d o. file_at-remove_other (temporary name suffix) k d (o.apart suffix))

    pub write_all-Keeps :
        (answers : List WriteAnswer) (bytes : List ℕ)
        → Keeps name old (write_all (temporary name suffix) answers bytes)
    unfolding write_all
    write_all-Keeps [] bytes =
        while_left-Keeps bytes _
          (put-Keeps (λ f. record { bytes = f.bytes ++ bytes; synced = false }))
    write_all-Keeps (interrupted ∷ answers) bytes =
        while_left-Keeps bytes _ (write_all-Keeps answers bytes)
    write_all-Keeps (failed ∷ answers) bytes = while_left-Keeps bytes _ (stay-Keeps (err io))
    write_all-Keeps (wrote zero ∷ answers) bytes = while_left-Keeps bytes _ (stay-Keeps (err io))
    write_all-Keeps (wrote (suc m) ∷ answers) bytes = while_left-Keeps bytes _ (
        then-Keeps _ _
          (put-Keeps (λ f. record { bytes = f.bytes ++ take (suc m) bytes; synced = false }))
          (write_all-Keeps answers (drop (suc m) bytes)))

    pub sync-Keeps :
        (b : Bool) → Keeps name old (if b then sync (temporary name suffix) else fail io)
    sync-Keeps true = put-Keeps (λ f. record { bytes = f.bytes; synced = true })
    sync-Keeps false = stay-Keeps (err io)

    pub staged-Keeps :
        (a : Answers) (header ciphertext : List ℕ)
        → Keeps name old (staged a (temporary name suffix) header ciphertext)
    unfolding staged
    staged-Keeps a header ciphertext =
        then-Keeps _ _
          (then-Keeps _ _
            (then-Keeps _ _
              (then-Keeps _ _ (write_all-Keeps a.header_writes header)
                (write_all-Keeps a.body_writes ciphertext))
              (refuse-Keeps (not a.stat_last) io))
            (sync-Keeps a.file_sync))
          (refuse-Keeps (not a.close_ok) io)

    pub discard-Keeps :
        (a : Answers) (s : Disk)
        → IsQuiet name old s
        → IsQuiet name old (discard a (temporary name suffix) s)
    discard-Keeps a s q = elim (Bool-cases a.unlinks) [
      | inl done ↦ rw done (unlink-Keeps.run s q)
      | inr kept ↦ rw kept q
    ]
