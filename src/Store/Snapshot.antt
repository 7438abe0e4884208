-- ===== src/Store/Snapshot.antt =====
-- src/store.c: `write_snapshot_exclusive_at` and `automatic_backup`, on the directory of backups.
use pvault.Backup.{format_automatic_backup_name}
use pvault.Base.{ℕ, not, ◌||◌, Bool, List, length, ◌==◌, bytes_eq, true, false, if◌then◌else◌}
use pvault.Exec.{Exec, fail, refuse_if, ◌>>=◌, ◌>>◌}
use pvault.Result.{Result, ok, err}
use pvault.Status.{Status, usage, io, exists, format, unsupported, durability}
use pvault.Store.{Name, file_at}
use pvault.Store.Disk.{Disk, sync}
use pvault.Store.Read.{ReadAnswers, DiskFile, Hash, read_disk_file}
use pvault.Store.Write.{Answers, write_all, open_temporary, published, settle, discard}

pub record SnapshotAnswers : Type 0 where
  pub write : Answers
  -- `fchmod`
  pub chmods : Bool

-- The copy in the temporary file, and on the disk.
unfoldable pub copied : SnapshotAnswers → Name → List ℕ → List ℕ → Exec Disk (Unit {0})
copied a t header ciphertext =
    write_all t a.write.header_writes header
    >> write_all t a.write.body_writes ciphertext
    >> refuse_if (not a.chmods) io
    >> refuse_if (not a.write.stat_last) io
    >> (if a.write.file_sync then sync t else fail io)
    >> refuse_if (not a.write.close_ok) io

-- `write_snapshot_exclusive_at`
unfoldable pub write_snapshot : SnapshotAnswers → Name → List ℕ → List ℕ → Exec Disk (Unit {0})
write_snapshot a name header ciphertext =
    refuse_if (length ciphertext == 0) usage
    >> (open_temporary 32 a.write.attempts name >>= λ t s.
        if not a.write.stat_first
        then (err io, discard a.write t s)
        else settle a.write t ((copied a t header ciphertext >> published a.write t name true) s))

pub record BackupAnswers : Type 0 where
  -- `make_private_directory_at`, whose other answer is `PV_ERR_IO`
  pub directory : Bool
  pub snapshot : SnapshotAnswers
  pub existing : ReadAnswers
  pub directory_sync : Bool

abbrev pub is_durability : Status → Bool
is_durability durability = true
is_durability e = false

abbrev pub is_exists : Status → Bool
is_exists exists = true
is_exists e = false

-- `status == PV_ERR_FORMAT || status == PV_ERR_UNSUPPORTED`
abbrev pub is_damaged : Status → Bool
is_damaged format = true
is_damaged unsupported = true
is_damaged e = false

-- A backup that is there already must be of the same vault, and the same file.
abbrev pub collided : Bool → List ℕ → List ℕ → Result DiskFile → Result (Unit {0})
collided syncs vault_id digest (ok existing) =
    if not (bytes_eq existing.header.vault_id vault_id) || not (bytes_eq existing.hash digest)
    then err exists
    else if not syncs
    then err io
    else ok tt
collided syncs vault_id digest (err e) = if is_damaged e then err exists else err e

-- The status of the snapshot, looked at.
abbrev pub after_snapshot : Status → Result (Unit {0}) → Result (Unit {0})
after_snapshot e collision =
    if is_durability e then err io else if is_exists e then collision else err e

abbrev pub backup_made :
    BackupAnswers
    → Hash
    → List ℕ
    → DiskFile
    → Name
    → Result (Unit {0}) × Disk
    → Result (Unit {0}) × Disk
backup_made a hash vault_id snapshot name (ok u, s) = (ok tt, s)
backup_made a hash vault_id snapshot name (err e, s) = (
  after_snapshot e (
      collided a.directory_sync vault_id snapshot.hash
        (read_disk_file a.existing hash (file_at name s.files))),
  s,
)

abbrev pub backup_named :
    BackupAnswers → Hash → List ℕ → DiskFile → Result Name → Exec Disk (Unit {0})
backup_named a hash vault_id snapshot (err e) s = (err e, s)
backup_named a hash vault_id snapshot (ok name) s =
    backup_made a hash vault_id snapshot name
      (write_snapshot a.snapshot name snapshot.header_bytes snapshot.ciphertext s)

-- `automatic_backup` of a file with this generation.
unfoldable pub automatic_backup :
    BackupAnswers → Hash → List ℕ → ℕ → DiskFile → Exec Disk (Unit {0})
automatic_backup a hash vault_id generation snapshot s =
    if not a.directory
    then (err io, s)
    else backup_named a hash vault_id snapshot (format_automatic_backup_name vault_id generation) s
