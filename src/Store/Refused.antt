-- ===== src/Store/Refused.antt =====
-- src/store.c: the statuses with which `save_locked` stops before the write.
use pvault.Backup.{printed, format_automatic_backup_name}
use pvault.Base.{
  subst, ℕ, refl, inl, inr, Bool, true, false, not, ◌||◌, Option, none, some, List, [], ◌∷◌, length,
  ltb, ◌==◌, if◌then◌else◌,
}
use pvault.Cbor.Encode.{cbor_encode}
use pvault.Crypto
use pvault.Crypto.{Sodium, serialized, secure_key_alloc, body_key}
use pvault.Crypto.Encrypt.{encrypt_body, body_header, seal, whole_pages, padded}
use pvault.Exec.{Exec, proceed, refuse_if}
use pvault.Header.{FileHeader, max_plaintext}
use pvault.Model.Types.{Vault}
use pvault.Result.{Result, ok, err, or_fail, Result-cases}
use pvault.Result.Ends.{value, error, bind-Ends, then-Ends, or_fail-Ends, refuse-Ends}
use pvault.Status.{Status, usage, io, limit, exists, locked, nomem, state, secure_memory}
use pvault.Store.{Name, File, file_at}
use pvault.Store.Disk.{Disk}
use pvault.Store.Prior.{Prior, IsPrior, cbor_encode-IsPrior, read_disk_file-IsPrior, unless, either}
use pvault.Store.Read.{DiskFile, Hash}
use pvault.Store.Save.{
  Answers, Session, check_current, save_refused, sealed_vault, backed_up, cleared,
}
use pvault.Store.Snapshot.{
  BackupAnswers, is_damaged, is_durability, is_exists, collided, after_snapshot, backup_made,
  backup_named, automatic_backup,
}
use pvault.Util.{size_add}
use pvault.Util.Hex.{hex_encode}

proceed-IsPrior {ℓ κ μ} :
    {S : Type ℓ} {A : Type κ} {B : Type μ} (r : Result A × S) (f : A → Exec S B)
    → IsPrior r.0
    → ((x : A) (s : S) → IsPrior (f x s).0)
    → IsPrior (proceed r f).0
proceed-IsPrior (ok a, s) f h k = k a s
proceed-IsPrior (err e, s) f (error h) k = error h

refuse_if-IsPrior {ℓ} :
    {S : Type ℓ} (b : Bool) (e : Status) (s : S) → Prior e → IsPrior (refuse_if b e s).0
refuse_if-IsPrior true e s h = error h
refuse_if-IsPrior false e s h = value tt

collided-IsPrior :
    (b : Bool) (vault_id digest : List ℕ) (r : Result DiskFile)
    → IsPrior r
    → IsPrior (collided b vault_id digest r)
collided-IsPrior b vault_id digest (ok w) h =
    unless _ exists refl (unless (not b) io refl (value tt))
collided-IsPrior b vault_id digest (err e) (error h) = either (is_damaged e) (error refl) (error h)

after_snapshot-IsPrior :
    (e : Status) (c : Result (Unit {0})) → IsPrior c → IsPrior (after_snapshot e c)
after_snapshot-IsPrior e c h =
    refuse-Ends (is_durability e) io refl (λ prior. either (is_exists e) h (error prior))

body_key-IsPrior : (s : Sodium) (vmk : List ℕ) → IsPrior (body_key s vmk)
unfolding body_key
body_key-IsPrior s vmk = or_fail-Ends _ state refl

key_alloc-IsPrior : (a : Crypto.Answers) → IsPrior (secure_key_alloc a)
unfolding secure_key_alloc
key_alloc-IsPrior a = unless _ nomem refl (unless _ secure_memory refl (value tt))

seal-IsPrior :
    (s : Sodium) (a : Crypto.Answers) (key : List ℕ) (n : ℕ) (message : List ℕ) (h : FileHeader)
    → IsPrior (seal s a key n message h).0
unfolding seal
seal-IsPrior s a key n message h =
    let h' : FileHeader = body_header a n h in
    bind-Ends (or_fail-Ends (s.encrypt message (serialized h') h'.body_nonce key) state refl)
      (λ c _. unless (not (length c == h'.body_ciphertext_len)) state refl (value tt))

encrypt_body-IsPrior :
    (s : Sodium) (a : Crypto.Answers) (vmk plaintext : List ℕ) (h : FileHeader)
    → IsPrior (encrypt_body s a vmk plaintext h).0
unfolding encrypt_body
encrypt_body-IsPrior s a vmk plaintext h =
    proceed-IsPrior (refuse_if (length plaintext == 0) usage h) _
      (refuse_if-IsPrior (length plaintext == 0) usage h refl)
      (λ _ s1.
        proceed-IsPrior (or_fail (size_add (length plaintext) 4) limit, s1) _
          (or_fail-Ends _ limit refl)
          (λ raw s2.
            proceed-IsPrior (refuse_if (ltb max_plaintext raw) limit s2) _
              (refuse_if-IsPrior _ limit s2 refl)
              (λ _ s3.
                let pages = whole_pages raw in
                let large = pages == 0 || ltb max_plaintext pages in
                proceed-IsPrior
                  (proceed (refuse_if large limit s3) (λ _ s4. (secure_key_alloc a, s4))) _
                  (proceed-IsPrior (refuse_if large limit s3) (λ _ s4. (secure_key_alloc a, s4))
                    (refuse_if-IsPrior large limit s3 refl) (λ _ s4. key_alloc-IsPrior a))
                  (λ _ s5.
                    proceed-IsPrior (body_key s vmk, s5) _ (body_key-IsPrior s vmk)
                      (λ key s6.
                        proceed-IsPrior (refuse_if (not a.body_memory) secure_memory s6) _
                          (refuse_if-IsPrior _ secure_memory s6 refl)
                          (λ _ s7.
                            seal-IsPrior s a key pages (padded a plaintext raw pages) s7))))))

printed-IsPrior : (hex : Option (List ℕ)) (generation : ℕ) → IsPrior (printed hex generation)
printed-IsPrior none generation = error refl
printed-IsPrior (some []) generation = error refl
printed-IsPrior (some (c ∷ hex)) generation = either _ (value tt) (error refl)

format-IsPrior :
    (vault_id : List ℕ) (generation : ℕ)
    → IsPrior (format_automatic_backup_name vault_id generation)
unfolding format_automatic_backup_name
format-IsPrior vault_id generation =
    unless (generation == 0) usage refl (printed-IsPrior (hex_encode vault_id 33) generation)

module _ (a : BackupAnswers) (hash : Hash) (vault_id : List ℕ) (snapshot : DiskFile) where
  backup_made-IsPrior :
      (name : Name) (r : Result (Unit {0}) × Disk)
      → IsPrior (backup_made a hash vault_id snapshot name r).0
  backup_made-IsPrior name (ok u, s) = value tt
  backup_made-IsPrior name (err e, s) = after_snapshot-IsPrior e _ (
      collided-IsPrior a.directory_sync vault_id snapshot.hash _
        (read_disk_file-IsPrior a.existing hash (file_at name s.files)))

  backup_named-IsPrior :
      (directory : Bool) (n : Result Name) (s : Disk)
      → IsPrior n
      → IsPrior (if not directory then (err io, s) else backup_named a hash vault_id snapshot n s).0
  backup_named-IsPrior false n s h = error refl
  backup_named-IsPrior true (err e) s (error h) = error h
  backup_named-IsPrior true (ok name) s h = backup_made-IsPrior name _

  automatic_backup-IsPrior :
      (generation : ℕ) (s : Disk)
      → IsPrior (automatic_backup a hash vault_id generation snapshot s).0
  unfolding automatic_backup
  automatic_backup-IsPrior generation s =
      backup_named-IsPrior a.directory _ s (format-IsPrior vault_id generation)

module _ (a : Answers) (hash : Hash) where
  backed_up-IsPrior : (vault : Vault) (f : Option File) → IsPrior (backed_up a hash vault f)
  backed_up-IsPrior vault none = value tt
  backed_up-IsPrior vault (some f) =
      bind-Ends (read_disk_file-IsPrior a.current hash (some f)) (λ current _.
        automatic_backup-IsPrior a.backup hash vault.vault_id current vault.generation _)

  check_current-IsPrior : (vault : Vault) (f : Option File) → IsPrior (check_current a hash vault f)
  unfolding check_current
  check_current-IsPrior vault none = value tt
  check_current-IsPrior vault (some f) =
      bind-Ends (read_disk_file-IsPrior a.current hash (some f))
        (λ current _. unless _ io refl (unless _ locked refl (value tt)))

  pub save_refused-IsPrior :
      (create_only : Bool) (name : Name) (s : Session)
      → IsPrior (save_refused a hash create_only name s)
  unfolding save_refused
  save_refused-IsPrior create_only name s = unless _ limit refl (
      unless _ io refl (
        unless _ exists refl
          (unless _ locked refl (check_current-IsPrior s.vault (file_at name s.disk.files)))))

  sealed_vault-IsPrior :
      (sodium : Sodium) (vault : Vault) (header : FileHeader)
      → IsPrior (sealed_vault sodium a vault header).0
  unfolding sealed_vault
  sealed_vault-IsPrior sodium vault header = elim (Result-cases (cbor_encode a.memory vault)) [
    | inr (e, failed) ↦
        rw (sealed_vault, failed) (subst IsPrior failed (cbor_encode-IsPrior a.memory vault))
    | inl (encoded, made) ↦
        rw (sealed_vault, made) (encrypt_body-IsPrior sodium a.crypto vault.vmk encoded header)
  ]

  -- Whatever stops save_locked before the write is not PV_ERR_DURABILITY.
  pub cleared-IsPrior :
      (sodium : Sodium) (before vault : Vault) (header : FileHeader) (f : Option File)
      → IsPrior (cleared a hash before f (sealed_vault sodium a vault header).0)
  cleared-IsPrior sodium before vault header f =
      bind-Ends (sealed_vault-IsPrior sodium vault header) (λ c _.
        then-Ends (backed_up-IsPrior before f)
          (then-Ends (unless (not a.stays) locked refl (value tt)) (value tt)))
