-- ===== src/Store/Backed.antt =====
-- src/store.c: the backup that `save_locked` makes of the file that is there.
use pvault.Backup.{format_automatic_backup_name}
use pvault.Base.{◌≡◌, ap, ◌∙◌, some, []}
use pvault.Model.Types.{Vault}
use pvault.Result.{ok, bind-ok}
use pvault.Store.{Name, File}
use pvault.Store.Copied.{IsBackedUp, automatic_backup-IsBackedUp}
use pvault.Store.Disk.{Disk}
use pvault.Store.Hashed.{read_disk_file-ok}
use pvault.Store.Read.{DiskFile, Hash, read_disk_file}
use pvault.Store.Save.{Answers, backed_up}
use pvault.Store.Snapshot.{automatic_backup}

-- The directory of backups, as automatic_backup leaves it, has a file with the hash of this one,
-- under the vault's id and generation.
pub record HasBackup (a : Answers) (hash : Hash) (vault : Vault) (f : File) : Type 0 where
  pub name : Name
  pub current : DiskFile
  pub read : read_disk_file a.current hash (some f) ≡ ok current
  pub named : format_automatic_backup_name vault.vault_id vault.generation ≡ ok name
  pub hashed : hash f.bytes ≡ some current.hash
  pub backed_up :
      IsBackedUp hash name current.hash a.backups
        (automatic_backup a.backup hash vault.vault_id vault.generation current
          (record { files = a.backups; seen = [] })).1

pub backed_up-HasBackup :
    (a : Answers) (hash : Hash) (vault : Vault) (f : File)
    → backed_up a hash vault (some f) ≡ ok tt
    → HasBackup a hash vault f
backed_up-HasBackup a hash vault f e =
    let start : Disk = record { files = a.backups; seen = [] } in
    let (current, read, made) =
      bind-ok (read_disk_file a.current hash (some f))
        (λ current.
          (automatic_backup a.backup hash vault.vault_id vault.generation current start).0)
        e in
    let (hashed, content) = read_disk_file-ok a.current hash f current read in
    let (name, named, kept) =
      automatic_backup-IsBackedUp a.backup hash vault.vault_id current a.backups
        (ap hash content ∙ hashed) vault.generation made in
    record {
      name = name;
      current = current;
      read = read;
      named = named;
      hashed = hashed;
      backed_up = kept;
    }
