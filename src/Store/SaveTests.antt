-- ===== src/Store/SaveTests.antt =====
-- A save that is refused, and the theorem of `save_locked` at a new vault.
use pvault.Backup.{format_automatic_backup_name, decimal}
use pvault.Base.{
  ◌≡◌, refl, true, false, none, some, [], ◌∷◌, ◌++◌, replicate, take, bytes_eq, arith,
}
use pvault.Base.Int.{pos}
use pvault.Crypto.{Sodium}
use pvault.Header.{FileHeader}
use pvault.Model.Samples.{one_record}
use pvault.Result.{ok, err}
use pvault.Status.{exists}
use pvault.Util.Hex.{hex_digits}
use pvault.Store.{Name, Dir, file_at, put, remove}
use pvault.Store.Read.{DiskFile, Hash, ReadAnswers}
use pvault.Store.Save.{Answers, Session, save_locked, save_refused}
use pvault.Store.Snapshot.{automatic_backup, write_snapshot, copied}
use pvault.Store.Write
use pvault.Store.Write.{write_all, open_temporary, published}
use pvault.Store.Saved.{SaveOutcome, save_locked-SaveOutcome}

-- Stand-ins for libsodium and its hash.
abbrev plain : Sodium
plain = record {
  pwhash = λ password salt opslimit memlimit. salt;
  kdf = λ i context key. some key;
  encrypt = λ m a n k. some (m ++ replicate 16 0);
  decrypt = λ c a n k. none;
}

abbrev first_bytes : Hash
first_bytes bytes = some (take 32 bytes)

abbrev readable : ReadAnswers
readable = record {
  opens = true;
  mode = 0x180;
  header_reads = true;
  memory = true;
  body_reads = true;
  grew = false;
  close_ok = true;
}

abbrev good_write : Write.Answers
good_write = record {
  attempts = record { suffix = 7; openable = true } ∷ [];
  stat_first = true;
  header_writes = [];
  body_writes = [];
  stat_last = true;
  file_sync = true;
  close_ok = true;
  renames = true;
  directory_sync = true;
  unlinks = true;
}

abbrev answers : Answers
answers = record {
  looks = true;
  current = readable;
  now_ms = pos 5;
  memory = true;
  crypto = record {
    key_malloc = true;
    key_mlock = true;
    pwhash_memory = true;
    body_memory = true;
    salt = replicate 16 7;
    nonce = replicate 24 9;
    random = λ n. replicate n 1;
  };
  backup = record {
    directory = true;
    snapshot = record { write = good_write; chmods = true };
    existing = readable;
    directory_sync = true;
  };
  backups = [];
  stays = true;
  write = good_write;
  readback = readable;
  stayed = true;
  protected = true;
}

abbrev header : FileHeader
header = record {
  magic = replicate 8 0;
  major = 1;
  minor = 0;
  header_len = 252;
  flags = 0;
  vault_id = replicate 16 3;
  kdf_id = 1;
  wrap_aead_id = 1;
  body_aead_id = 1;
  slot_count = 2;
  password_slot = record {
    opslimit = 3;
    memlimit = 268435456;
    salt = replicate 16 9;
    nonce = replicate 24 8;
    wrapped_vmk = replicate 48 255;
  };
  recovery_slot = record { nonce = replicate 24 6; wrapped_vmk = replicate 48 5 };
  body_nonce = replicate 24 4;
  body_ciphertext_len = 8208;
}

abbrev vault_name : Name
vault_name = b'v' ∷ []

abbrev taken : Dir
taken = (vault_name, record { bytes = 1 ∷ []; synced = true }) ∷ []

abbrev session : Dir → Session
session files = record {
  vault = one_record;
  header = header;
  disk = record { files = files; seen = [] };
}

-- A vault is not created over a file.
not_over : (save_locked plain answers first_bytes true vault_name (session taken)).0 ≡ err exists
unfolding save_locked save_refused file_at bytes_eq
not_over = refl

abbrev read_before : DiskFile
read_before = record {
  header_bytes = 1 ∷ [];
  header = header;
  ciphertext = 2 ∷ [];
  hash = 1 ∷ 2 ∷ [];
  mode = 0x180;
}

-- A backup of generation 7 in an empty directory.
backed_up_first :
    (automatic_backup answers.backup first_bytes
      (replicate 16 3)
      7
      read_before
      (record { files = []; seen = [] })).0
    ≡ ok tt
unfolding automatic_backup write_snapshot copied write_all open_temporary published file_at put
    remove bytes_eq format_automatic_backup_name hex_digits decimal
backed_up_first = refl

save_locked-SaveOutcome_example :
    SaveOutcome plain answers first_bytes vault_name
      (session [])
      (save_locked plain answers first_bytes true vault_name (session []))
save_locked-SaveOutcome_example =
    save_locked-SaveOutcome plain answers first_bytes true vault_name one_record header []
      (omega arith)
