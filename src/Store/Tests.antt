-- ===== src/Store/Tests.antt =====
-- Runs of the atomic write, and its theorems at concrete inputs.
use pvault.Base.{◌≡◌, ◌⊎◌, refl, true, false, some, [], ◌∷◌, All, bytes_eq, inl, arith}
use pvault.Result.{ok, err}
use pvault.Status.{exists}
use pvault.Store.{Name, Dir, file_at, put, remove}
use pvault.Store.Crash.{write_atomic_crash}
use pvault.Store.Atomic.{Outcome, write_atomic-Outcome}
use pvault.Store.Succeeds.{AnswersWell, write_atomic_succeeds}
use pvault.Store.Disk.{Disk}
use pvault.Store.Write.{
  Answers, interrupted, wrote, open_temporary, write_all, staged, published, write_atomic,
}

abbrev vault_name : Name
vault_name = b'v' ∷ []

abbrev old_files : Dir
old_files = (vault_name, record { bytes = 1 ∷ 2 ∷ []; synced = true }) ∷ []

-- A call of `write` is interrupted, another writes one byte only.
abbrev good : Answers
good = record {
  attempts = record { suffix = 7; openable = true } ∷ record { suffix = 8; openable = true } ∷ [];
  stat_first = true;
  header_writes = interrupted ∷ wrote 1 ∷ [];
  body_writes = [];
  stat_last = true;
  file_sync = true;
  close_ok = true;
  renames = true;
  directory_sync = true;
  unlinks = true;
}

abbrev start : Disk
start = record { files = old_files; seen = [] }

replaces : (write_atomic good vault_name (3 ∷ 4 ∷ []) (5 ∷ []) false start).0 ≡ ok tt
unfolding write_atomic open_temporary write_all staged published file_at put remove bytes_eq
replaces = refl

new_content :
    file_at vault_name (write_atomic good vault_name (3 ∷ 4 ∷ []) (5 ∷ []) false start).1.files
    ≡ some (record { bytes = 3 ∷ 4 ∷ 5 ∷ []; synced = true })
unfolding write_atomic open_temporary write_all staged published file_at put remove bytes_eq
new_content = refl

only_new : (write_atomic good vault_name (3 ∷ 4 ∷ []) (5 ∷ []) true start).0 ≡ err exists
unfolding write_atomic open_temporary write_all staged published file_at put remove bytes_eq
only_new = refl

write_atomic-Outcome_example :
    Outcome vault_name old_files
      (3 ∷ 4 ∷ 5 ∷ [])
      false
      (write_atomic good vault_name (3 ∷ 4 ∷ []) (5 ∷ []) false start)
write_atomic-Outcome_example =
    write_atomic-Outcome good vault_name (3 ∷ 4 ∷ []) (5 ∷ []) false old_files

write_atomic_crash_example :
    All
      (λ d.
        (file_at vault_name d ≡ file_at vault_name old_files)
        ⊎ (file_at vault_name d ≡ some (record { bytes = 3 ∷ 4 ∷ 5 ∷ []; synced = true })))
      ((write_atomic good vault_name (3 ∷ 4 ∷ []) (5 ∷ []) false start).1.files
        ∷ (write_atomic good vault_name (3 ∷ 4 ∷ []) (5 ∷ []) false start).1.seen)
write_atomic_crash_example =
    write_atomic_crash good vault_name (3 ∷ 4 ∷ []) (5 ∷ []) false old_files

good-AnswersWell : AnswersWell good vault_name 7 old_files
unfolding file_at bytes_eq
good-AnswersWell = record {
  attempt = (_, refl);
  short = omega arith;
  free = refl;
  first_stat = refl;
  header_progress = (tt, (tt, tt));
  body_progress = tt;
  last_stat = refl;
  file_synced = refl;
  closed = refl;
  renamed = refl;
  directory_synced = refl;
}

write_atomic_succeeds_example :
    (write_atomic good vault_name
      (3 ∷ 4 ∷ [])
      (5 ∷ [])
      false
      (record { files = old_files; seen = [] })).0
    ≡ ok tt
write_atomic_succeeds_example =
    write_atomic_succeeds good vault_name 7 (3 ∷ 4 ∷ []) (5 ∷ []) false old_files good-AnswersWell
      (omega arith) (inl refl)
