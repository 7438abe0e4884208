-- ===== src/Store/Verified.antt =====
-- src/store.c: the file that `save_locked` reads back.
use pvault.Base.{
  ℕ, ◌≡◌, refl, sym, ap, ◌∙◌, inl, inr, Bool, true, false, ◌&&◌, Option, none, some, List, length,
  ◌==◌, bytes_eq, if◌then◌else◌,
}
use pvault.Result.{ok, err, Result-cases}
use pvault.Status.{Status}
use pvault.Store.{File}
use pvault.Store.Hashed.{read_disk_file-ok}
use pvault.Store.Read.{DiskFile, Hash, read_disk_file}
use pvault.Store.Save.{Answers, read_back}

some_if : (b : Bool) (x d : List ℕ) → (if b then some x else none) ≡ some d → x ≡ d
some_if true x d h = cc
some_if false x d h = cc

module _ (a : Answers) (hash : Hash) (header_bytes ciphertext : List ℕ) where
  read_back-failed :
      (o : Option File) (e : Status)
      → read_disk_file a.readback hash o ≡ err e
      → read_back a hash header_bytes ciphertext o ≡ none
  unfolding read_back
  read_back-failed o e h = rw (read_back, h) refl

  read_back-read :
      (o : Option File) (w : DiskFile)
      → read_disk_file a.readback hash o ≡ ok w
      → read_back a hash header_bytes ciphertext o ≡ (
          if length w.ciphertext == length ciphertext
            && (bytes_eq w.header_bytes header_bytes && bytes_eq w.ciphertext ciphertext)
          then some w.hash
          else none)
  unfolding read_back
  read_back-read o w h = rw (read_back, h) refl

  pub hash-read_back :
      (f : File) (digest : List ℕ)
      → read_back a hash header_bytes ciphertext (some f) ≡ some digest
      → hash f.bytes ≡ some digest
  hash-read_back f digest h = elim (Result-cases (read_disk_file a.readback hash (some f))) [
    | inr (e, failed) ↦ let lost = sym (read_back-failed (some f) e failed) ∙ h in cc
    | inl (w, read) ↦
        (read_disk_file-ok a.readback hash f w read).0
        ∙ ap some (some_if _ w.hash digest (sym (read_back-read (some f) w read) ∙ h))
  ]
