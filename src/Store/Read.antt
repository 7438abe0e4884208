-- ===== src/Store/Read.antt =====
-- src/store.c: `read_disk_file_at`.
use pvault.Base.{
  ℕ, ◌+◌, ◌-◌, ◌^◌, not, ◌||◌, Bool, Option, none, some, List, length, take, drop, ltb, ◌==◌,
  if◌then◌else◌,
}
use pvault.Header.{FileHeader, file_header_len, header_decode}
use pvault.Result.{Result, ok, err, or_fail, ◌>>=◌}
use pvault.Status.{io, format, nomem, state}
use pvault.Store.{File}

-- What the calls of `read_disk_file_at` answer.
pub record ReadAnswers : Type 0 where
  -- `openat`, and a regular file of the user alone
  pub opens : Bool
  pub mode : ℕ
  pub header_reads : Bool
  pub memory : Bool
  pub body_reads : Bool
  -- There is a byte more than the size that was looked at.
  pub grew : Bool
  pub close_ok : Bool

-- `pv_disk_file`
pub record DiskFile : Type 0 where
  pub header_bytes : List ℕ
  pub header : FileHeader
  pub ciphertext : List ℕ
  pub hash : List ℕ
  pub mode : ℕ

abbrev pub Hash : Type 0
Hash = List ℕ → Option (List ℕ)

-- The rest of the file behind a header that was decoded.
abbrev pub read_rest : ReadAnswers → Hash → List ℕ → FileHeader → Result DiskFile
read_rest a hash bytes h =
    if ltb (2 ^ 63 - 1) (file_header_len + h.body_ciphertext_len)
      || not (length bytes == file_header_len + h.body_ciphertext_len)
    then err format
    else if not a.memory
    then err nomem
    else if not a.body_reads
    then err io
    else if a.grew
    then err format
    else if not a.close_ok
    then err io
    else or_fail (hash bytes) state >>= λ digest. ok (record {
      header_bytes = take file_header_len bytes;
      header = h;
      ciphertext = drop file_header_len bytes;
      hash = digest;
      mode = a.mode;
    })

-- `read_disk_file_at`; a file that is not there cannot be opened.
unfoldable pub read_disk_file : ReadAnswers → Hash → Option File → Result DiskFile
read_disk_file a hash none = err io
read_disk_file a hash (some f) =
    if not a.opens
    then err io
    else if ltb (length f.bytes) file_header_len
    then err format
    else if not a.header_reads
    then err io
    else header_decode (take file_header_len f.bytes) >>= λ h. read_rest a hash f.bytes h
