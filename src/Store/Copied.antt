-- ===== src/Store/Copied.antt =====
-- src/store.c: what an automatic backup leaves in the directory of backups.
use pvault.Backup.{format_automatic_backup_name}
use pvault.Base.{
  subst, ℕ, ◌≡◌, refl, sym, ap, ◌∙◌, ◌⊎◌, inl, inr, Bool, Option-cases, true, false, not, ◌||◌,
  some, List, [], ◌++◌, length, ◌==◌, bytes_eq, bytes_eq→eq, if◌then◌else◌, arith,
}
use pvault.Exec.{Exec, fail, refuse_if, ◌>>◌}
use pvault.Result.{Result, ok, err, unless-ok}
use pvault.Status.{Status, io, exists}
use pvault.Store.{Name, File, Dir, file_at}
use pvault.Store.Atomic.{Outcome, replaced, untouched, published-Outcome}
use pvault.Store.Content.{
  After, Early, Holds, IsOnDisk, then-After, refuse-After, write_all-After, sync-After,
}
use pvault.Store.Disk.{Disk, sync}
use pvault.Store.Hashed.{read_disk_file-ok}
use pvault.Store.Read.{DiskFile, Hash, read_disk_file}
use pvault.Store.Snapshot.{
  SnapshotAnswers, BackupAnswers, is_damaged, copied, write_snapshot, collided, after_snapshot,
  backup_made, backup_named, automatic_backup,
}
use pvault.Store.Steps.{
  IsOther, name-IsOther, Keeps, then-Keeps, refuse-Keeps, write_all-Keeps, sync-Keeps,
}
use pvault.Store.Write.{temporary, write_all}

copied-Keeps :
    (name : Name) (old : Dir) (suffix : ℕ) (a : SnapshotAnswers) (header ciphertext : List ℕ)
    → Keeps name old (copied a (temporary name suffix) header ciphertext)
unfolding copied
copied-Keeps name old suffix a header ciphertext =
    let both =
      then-Keeps name old _ _ (write_all-Keeps name old suffix a.write.header_writes header)
        (write_all-Keeps name old suffix a.write.body_writes ciphertext) in
    let set = then-Keeps name old _ _ both (refuse-Keeps name old (not a.chmods) io) in
    let seen = then-Keeps name old _ _ set (refuse-Keeps name old (not a.write.stat_last) io) in
    let kept = then-Keeps name old _ _ seen (sync-Keeps name old suffix a.write.file_sync) in
    then-Keeps name old _ _ kept (refuse-Keeps name old (not a.write.close_ok) io)

copied-After :
    (t : Name) (a : SnapshotAnswers) (header ciphertext : List ℕ) (s : Disk)
    → Holds t [] s
    → After (IsOnDisk t (header ++ ciphertext)) (copied a t header ciphertext s)
unfolding copied
copied-After t a header ciphertext s h =
    let head : Exec Disk (Unit {0}) = write_all t a.write.header_writes header in
    let both : Exec Disk (Unit {0}) = head >> write_all t a.write.body_writes ciphertext in
    let set : Exec Disk (Unit {0}) = both >> refuse_if (not a.chmods) io in
    let seen : Exec Disk (Unit {0}) = set >> refuse_if (not a.write.stat_last) io in
    let kept : Exec Disk (Unit {0}) = seen >> (if a.write.file_sync then sync t else fail io) in
    then-After kept (refuse_if (not a.write.close_ok) io) s
      (then-After seen (if a.write.file_sync then sync t else fail io) s
        (then-After set (refuse_if (not a.write.stat_last) io) s
          (then-After both (refuse_if (not a.chmods) io) s
            (then-After head (write_all t a.write.body_writes ciphertext) s
              (write_all-After t a.write.header_writes [] header s h)
              (λ s1 h1. write_all-After t a.write.body_writes header ciphertext s1 h1))
            (λ s2 h2. refuse-After (not a.chmods) io s2 (inr (inl refl)) h2))
          (λ s3 h3. refuse-After (not a.write.stat_last) io s3 (inr (inl refl)) h3))
        (λ s4 h4. sync-After t (header ++ ciphertext) a.write.file_sync s4 h4))
      (λ s5 h5. refuse-After (not a.write.close_ok) io s5 (inr (inl refl)) h5)

-- A snapshot is a new file or nothing, as `write_atomic_at` would write it.
write_snapshot-Outcome :
    (a : SnapshotAnswers) (name : Name) (header ciphertext : List ℕ) (old : Dir)
    → Outcome name old
        (header ++ ciphertext)
        true
        (write_snapshot a name header ciphertext (record { files = old; seen = [] }))
unfolding write_snapshot
write_snapshot-Outcome a name header ciphertext old =
    published-Outcome a.write name (λ t. copied a t header ciphertext) (header ++ ciphertext) true
      old (λ suffix. copied-Keeps name old suffix a header ciphertext)
      (λ suffix s held. copied-After (temporary name suffix) a header ciphertext s held)
      (length ciphertext == 0)

neither :
    (b : Bool) (e e' : Status)
    → ◌≡◌ {A = Result (Unit {0})} (if b then err e else err e') (ok tt)
    → ⊥
neither true e e' h = cc
neither false e e' h = cc

collided-ok :
    (b : Bool) (vault_id digest : List ℕ) (r : Result DiskFile)
    → collided b vault_id digest r ≡ ok tt
    → (w : DiskFile) × (r ≡ ok w) × (w.hash ≡ digest)
collided-ok b vault_id digest (err e) h = absurd (neither (is_damaged e) exists e h)
collided-ok b vault_id digest (ok w) h =
    let differs = not (bytes_eq w.header.vault_id vault_id) || not (bytes_eq w.hash digest) in
    let last : Result (Unit {0}) = if not b then err io else ok tt in
    let (same, _) = unless-ok differs exists last tt h in
    (w, refl, bytes_eq→eq w.hash digest (ground arith))

-- The collision is looked at only after `PV_ERR_EXISTS`.
collision-ok :
    (e : Status) (c : Result (Unit {0})) → Early e → after_snapshot e c ≡ ok tt → c ≡ ok tt
collision-ok e c early h = elim early [
  | inl p ↦ let bad = sym (ap (λ x. after_snapshot x c) p) ∙ h in cc
  | inr (inl p) ↦ let bad = sym (ap (λ x. after_snapshot x c) p) ∙ h in cc
  | inr (inr (inl p)) ↦ let bad = sym (ap (λ x. after_snapshot x c) p) ∙ h in cc
  | inr (inr (inr p)) ↦ sym (ap (λ x. after_snapshot x c) p) ∙ h
]

apart {ℓ} : {A : Type ℓ} (e : Status) (x : A) → err e ≡ ok x → ⊥
apart e x h = cc

-- Under the name there is a file with the hash: a new one with all its bytes on the disk, or one
-- that was there; other files are as before.
pub record IsBackedUp (hash : Hash) (name : Name) (digest : List ℕ) (old : Dir) (s : Disk)
    : Type 0 where
  pub file : File
  pub found : file_at name s.files ≡ some file
  pub hashed : hash file.bytes ≡ some digest
  pub kept : (file.synced ≡ true) ⊎ (file_at name old ≡ some file)
  pub others :
      (k : Name) → IsOther name k → bytes_eq name k ≡ false → file_at k s.files ≡ file_at k old

module _ (a : BackupAnswers) (hash : Hash) (vault_id : List ℕ) (snapshot : DiskFile) (name : Name)
    (old : Dir)
    (hashed : hash (snapshot.header_bytes ++ snapshot.ciphertext) ≡ some snapshot.hash) where
  state_kept :
      (r : Result (Unit {0}) × Disk) → (backup_made a hash vault_id snapshot name r).1 ≡ r.1
  state_kept (ok u, s) = refl
  state_kept (err e, s) = refl

  backup_made-IsBackedUp :
      (r : Result (Unit {0}) × Disk)
      → Outcome name old (snapshot.header_bytes ++ snapshot.ciphertext) true r
      → (backup_made a hash vault_id snapshot name r).0 ≡ ok tt
      → IsBackedUp hash name snapshot.hash old (backup_made a hash vault_id snapshot name r).1
  backup_made-IsBackedUp r (replaced {r = x} {s = d} ends new) h =
      subst (IsBackedUp hash name snapshot.hash old) (sym (state_kept (x, d))) (record {
        file = record { bytes = snapshot.header_bytes ++ snapshot.ciphertext; synced = true };
        found = new.found;
        hashed = hashed;
        kept = inl refl;
        others = new.others;
      })
  backup_made-IsBackedUp r (untouched {e = e} {s = d} early quiet) h =
      let (w, read, same) =
        collided-ok a.directory_sync vault_id snapshot.hash _ (collision-ok e _ early h) in
      elim (Option-cases (file_at name d.files)) [
        | inl gone ↦
            let lost : err io ≡ ok w =
              sym (ap (read_disk_file a.existing hash) gone ∙ (unfold read_disk_file in refl))
              ∙ read in
            absurd (apart io w lost)
        | inr (f, there) ↦ record {
          file = f;
          found = there;
          hashed =
              (read_disk_file-ok a.existing hash f w
                (sym (ap (read_disk_file a.existing hash) there) ∙ read)).0
              ∙ ap some same;
          kept = inr (sym (quiet.now.kept name (name-IsOther name)) ∙ there);
          others = λ k o far. quiet.now.kept k o;
        }
      ]

module _ (a : BackupAnswers) (hash : Hash) (vault_id : List ℕ) (snapshot : DiskFile) (old : Dir)
    (hashed : hash (snapshot.header_bytes ++ snapshot.ciphertext) ≡ some snapshot.hash) where
  abbrev made : Bool → Result Name → Result (Unit {0}) × Disk
  made directory name =
      if not directory
      then (err io, record { files = old; seen = [] })
      else backup_named a hash vault_id snapshot name (record { files = old; seen = [] })

  made-IsBackedUp :
      (directory : Bool) (n : Result Name)
      → (made directory n).0 ≡ ok tt
      → (name : Name) × (n ≡ ok name) × IsBackedUp hash name snapshot.hash old (made directory n).1
  made-IsBackedUp false n h = absurd (apart io tt h)
  made-IsBackedUp true (err e) h = absurd (apart e tt h)
  made-IsBackedUp true (ok name) h = (
    name,
    refl,
    backup_made-IsBackedUp a hash vault_id snapshot name old hashed _
        (write_snapshot-Outcome a.snapshot name snapshot.header_bytes snapshot.ciphertext old) h,
  )

  pub automatic_backup-IsBackedUp :
      (generation : ℕ)
      → (automatic_backup a hash vault_id generation snapshot (record { files = old; seen = [] })).0
        ≡ ok tt
      → (name : Name) × (format_automatic_backup_name vault_id generation ≡ ok name)
        × IsBackedUp hash name snapshot.hash old
            (automatic_backup a hash vault_id generation snapshot
              (record { files = old; seen = [] })).1
  unfolding automatic_backup
  automatic_backup-IsBackedUp generation h =
      made-IsBackedUp a.directory (format_automatic_backup_name vault_id generation) h
