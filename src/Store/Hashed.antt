-- ===== src/Store/Hashed.antt =====
-- src/store.c: what `read_disk_file_at` returns of a file.
use pvault.Base.{
  ◌+◌, ◌-◌, ◌^◌, ◌≡◌, sym, ap, ◌∙◌, not, ◌||◌, some, List, [], ◌++◌, ℕ, length, take,
  take-append-drop, ltb, ◌==◌,
}
use pvault.Header.{FileHeader, file_header_len, header_decode}
use pvault.Result.{Result, ok, err, bind-ok, or_fail, or_fail-ok, unless-ok}
use pvault.Status.{io, format, nomem, state}
use pvault.Store.{File}
use pvault.Store.Read.{ReadAnswers, DiskFile, Hash, read_rest, read_disk_file}

abbrev hash_of : List ℕ → Result DiskFile → List ℕ
hash_of digest (ok w) = w.hash
hash_of digest (err e) = digest

abbrev bytes_of : Result DiskFile → List ℕ
bytes_of (ok w) = w.header_bytes ++ w.ciphertext
bytes_of (err e) = []

read_rest-ok :
    (a : ReadAnswers) (hash : Hash) (bytes : List ℕ) (h : FileHeader) (w : DiskFile)
    → read_rest a hash bytes h ≡ ok w
    → (hash bytes ≡ some w.hash) × (w.header_bytes ++ w.ciphertext ≡ bytes)
read_rest-ok a hash bytes h w e =
    let after_size =
      unless-ok
        (ltb (2 ^ 63 - 1) (file_header_len + h.body_ciphertext_len)
          || not (length bytes == file_header_len + h.body_ciphertext_len))
        format _ w e in
    let after_memory = unless-ok (not a.memory) nomem _ w after_size.1 in
    let after_body = unless-ok (not a.body_reads) io _ w after_memory.1 in
    let after_end = unless-ok a.grew format _ w after_body.1 in
    let after_close = unless-ok (not a.close_ok) io _ w after_end.1 in
    let (digest, hashed, made) = bind-ok (or_fail (hash bytes) state) _ after_close.1 in
    let same : digest ≡ w.hash = ap (hash_of digest) made in
    (
      or_fail-ok (hash bytes) state digest hashed ∙ ap some same,
      sym (ap bytes_of made) ∙ take-append-drop file_header_len bytes,
    )

-- The hash is that of the file, which is the header and the body that are returned.
pub read_disk_file-ok :
    (a : ReadAnswers) (hash : Hash) (f : File) (w : DiskFile)
    → read_disk_file a hash (some f) ≡ ok w
    → (hash f.bytes ≡ some w.hash) × (w.header_bytes ++ w.ciphertext ≡ f.bytes)
unfolding read_disk_file
read_disk_file-ok a hash f w e =
    let after_open = unless-ok (not a.opens) io _ w e in
    let after_size = unless-ok (ltb (length f.bytes) file_header_len) format _ w after_open.1 in
    let after_read = unless-ok (not a.header_reads) io _ w after_size.1 in
    let (h, _, rest) =
      bind-ok (header_decode (take file_header_len f.bytes)) (λ h. read_rest a hash f.bytes h)
        after_read.1 in
    read_rest-ok a hash f.bytes h w rest
