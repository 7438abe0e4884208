-- ===== src/Store/Save.antt =====
-- src/store.c: `save_locked`. `prune_automatic_backups`, whose status is not looked at, is left out.
use pvault.Base.{
  ℕ, ◌+◌, ◌-◌, ◌%◌, ◌^◌, not, ◌&&◌, ◌||◌, Bool, true, false, Option, none, some, List, [], length,
  ◌==◌, bytes_eq, if◌then◌else◌,
}
use pvault.Arena.{set_readonly}
use pvault.Base.Int.{ℤ}
use pvault.Cbor.Encode.{cbor_encode}
use pvault.Crypto
use pvault.Crypto.{Sodium, or_fail, serialized}
use pvault.Crypto.Encrypt.{encrypt_body}
use pvault.Header.{FileHeader}
use pvault.Model.Types.{Vault}
use pvault.Result.{Result, ok, err, ◌>>=◌, ◌>>◌}
use pvault.Status.{io, limit, exists, locked, durability}
use pvault.Store.{Name, File, Dir, file_at}
use pvault.Store.Disk.{Disk}
use pvault.Store.Read.{ReadAnswers, Hash, read_disk_file}
use pvault.Store.Snapshot.{BackupAnswers, is_durability, automatic_backup}
use pvault.Store.Write
use pvault.Store.Write.{write_atomic}

pub record Answers : Type 0 where
  -- `fstatat` finds the file, or finds that there is none.
  pub looks : Bool
  pub current : ReadAnswers
  pub now_ms : ℤ
  pub memory : Bool
  pub crypto : Crypto.Answers
  pub backup : BackupAnswers
  -- The files of the directory of backups.
  pub backups : Dir
  -- `revalidate_store_location`, before the write and after it
  pub stays : Bool
  pub write : Write.Answers
  pub readback : ReadAnswers
  pub stayed : Bool
  pub protected : Bool

pub record Session : Type 0 where
  pub vault : Vault
  pub header : FileHeader
  pub disk : Disk

abbrev pub is_there : Option File → Bool
is_there none = false
is_there (some f) = true

-- The file that is there must be the one that the vault was read from.
unfoldable pub check_current : Answers → Hash → Vault → Option File → Result (Unit {0})
check_current a hash vault none = ok tt
check_current a hash vault (some f) = read_disk_file a.current hash (some f) >>= λ current.
    if not (current.mode == 0x180)
    then err io
    else if not (bytes_eq current.hash vault.source_hash)
        || not (bytes_eq current.header.vault_id vault.vault_id)
    then err locked
    else ok tt

-- Everything before the first change.
unfoldable pub save_refused : Answers → Hash → Bool → Name → Session → Result (Unit {0})
save_refused a hash create_only name s =
    let there = is_there (file_at name s.disk.files) in
    if s.vault.generation == 2 ^ 64 - 1
    then err limit
    else if not a.looks
    then err io
    else if create_only && there
    then err exists
    else if not create_only && not there
    then err locked
    else check_current a hash s.vault (file_at name s.disk.files)

abbrev pub next_vault : Answers → Vault → Vault
next_vault a vault = record vault {
  generation = (vault.generation + 1) % 2 ^ 64;
  updated_ms = a.now_ms;
}

-- The next vault encoded and encrypted.
unfoldable pub sealed_vault : Sodium → Answers → Vault → FileHeader → Result (List ℕ) × FileHeader
sealed_vault sodium a vault header = elim (cbor_encode a.memory vault) [
  | err e ↦ (err e, header)
  | ok encoded ↦ encrypt_body sodium a.crypto vault.vmk encoded header
]

-- The hash of the file that was written, if it reads back as what was meant.
unfoldable pub read_back : Answers → Hash → List ℕ → List ℕ → Option File → Option (List ℕ)
read_back a hash header_bytes ciphertext file = elim (read_disk_file a.readback hash file) [
  | err e ↦ none
  | ok written ↦
      if length written.ciphertext == length ciphertext
        && (bytes_eq written.header_bytes header_bytes && bytes_eq written.ciphertext ciphertext)
      then some written.hash
      else none
]

-- The vault of a file that was verified.
abbrev pub saved_vault : Answers → List ℕ → Vault → Vault
saved_vault a digest vault = record vault {
  source_hash = digest;
  dirty = false;
  arena = (set_readonly a.protected vault.arena).1;
}

-- After the file is in its place; `warned` is a directory that was not synced.
abbrev pub committed : Answers → Bool → Option (List ℕ) → Session → Result (Unit {0}) × Session
committed a warned none s = (err durability, s)
committed a warned (some digest) s = (
  if warned || not a.stayed then err durability else ok tt,
  record s { vault = saved_vault a digest s.vault },
)

-- The vault as it was, up to the header's fields of the body.
abbrev pub undone : ℤ → Session → Session
undone previous_ms s = record s {
  vault = record s.vault { generation = s.vault.generation - 1; updated_ms = previous_ms };
}

-- What follows the write, by its status.
abbrev pub after_write :
    Answers
    → Hash
    → Name
    → List ℕ
    → ℤ
    → Vault
    → FileHeader
    → Result (Unit {0}) × Disk
    → Result (Unit {0}) × Session
after_write a hash name ciphertext previous_ms vault header (ok u, d) =
    committed a false (read_back a hash (serialized header) ciphertext (file_at name d.files))
      (record { vault = vault; header = header; disk = d })
after_write a hash name ciphertext previous_ms vault header (err e, d) =
    let s : Session = record { vault = vault; header = header; disk = d } in
    if is_durability e
    then committed a true (read_back a hash (serialized header) ciphertext (file_at name d.files)) s
    else (err e, undone previous_ms s)

-- The file that is there gets a backup under its generation.
abbrev pub backed_up : Answers → Hash → Vault → Option File → Result (Unit {0})
backed_up a hash vault none = ok tt
backed_up a hash vault (some f) = read_disk_file a.current hash (some f) >>= λ current.
    (automatic_backup a.backup hash vault.vault_id vault.generation current
      (record { files = a.backups; seen = [] })).0

-- The ciphertext, if the backup is made and the directory is still the same.
abbrev pub cleared : Answers → Hash → Vault → Option File → Result (List ℕ) → Result (List ℕ)
cleared a hash vault file sealed = sealed >>= λ ciphertext.
    backed_up a hash vault file >> ((if not a.stays then err locked else ok tt) >> ok ciphertext)

abbrev pub write_sealed :
    Answers
    → Hash
    → Bool
    → Name
    → Session
    → Vault
    → Result (List ℕ) × FileHeader
    → Result (Unit {0}) × Session
write_sealed a hash create_only name s vault (sealed, header) =
    elim (cleared a hash s.vault (file_at name s.disk.files) sealed) [
      | err e ↦ (
        err e,
        undone s.vault.updated_ms (record { vault = vault; header = header; disk = s.disk }),
      )
      | ok ciphertext ↦
          after_write a hash name ciphertext s.vault.updated_ms vault header
            (write_atomic a.write name (serialized header) ciphertext create_only s.disk)
    ]

-- `save_locked`
unfoldable pub save_locked :
    Sodium → Answers → Hash → Bool → Name → Session → Result (Unit {0}) × Session
save_locked sodium a hash create_only name s = elim (save_refused a hash create_only name s) [
  | err e ↦ (err e, s)
  | ok u ↦
      let vault = next_vault a s.vault in
      write_sealed a hash create_only name s vault (sealed_vault sodium a vault s.header)
]
