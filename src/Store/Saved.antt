-- ===== src/Store/Saved.antt =====
-- src/store.c: how `save_locked` ends.
use pvault.Base.{
  subst, ℕ, ◌+◌, ◌-◌, ◌^◌, ◌<◌, ◌≡◌, ◌≢◌, refl, sym, ap, ◌∙◌, ◌⊎◌, inl, inr, Bool, true, false, not,
  ◌||◌, Option, none, some, List, [], ◌++◌, ◌==◌, if◌then◌else◌, arith,
}
use pvault.Cbor.Encode.{cbor_encode}
use pvault.Crypto.{Sodium, serialized}
use pvault.Crypto.Encrypt.{encrypt_body}
use pvault.Header.{FileHeader}
use pvault.Model.Types.{Vault}
use pvault.Result.{Result, ok, err, Result-cases, bind-ok, then-ok, then_first-ok, unless-ok}
use pvault.Status.{Status, durability, limit, locked}
use pvault.Store.{Name, File, Dir, file_at}
use pvault.Store.Atomic.{Outcome, replaced, untouched, write_atomic-Outcome}
use pvault.Store.Backed.{HasBackup, backed_up-HasBackup}
use pvault.Store.Content.{Early}
use pvault.Store.Disk.{Disk}
use pvault.Store.Verified.{hash-read_back}
use pvault.Store.Prior.{IsPrior, error-distinct}
use pvault.Store.Refused.{save_refused-IsPrior, cleared-IsPrior}
use pvault.Store.Read.{Hash}
use pvault.Store.Save.{
  Answers, Session, save_refused, backed_up, next_vault, sealed_vault, read_back, committed, undone,
  after_write, cleared, write_sealed, save_locked,
}
use pvault.Store.Snapshot.{is_durability}
use pvault.Store.Steps.{IsQuiet}

-- The vault of `before` is in the file, one generation on.
pub record IsSaved (sodium : Sodium) (a : Answers) (hash : Hash) (name : Name) (before : Session)
    (r : Result (Unit {0})) (s : Session) : Type 0 where
  pub encoded : List ℕ
  pub ciphertext : List ℕ
  pub encoding : cbor_encode a.memory (next_vault a before.vault) ≡ ok encoded
  pub encryption :
      encrypt_body sodium a.crypto before.vault.vmk encoded before.header
      ≡ (ok ciphertext, s.header)
  pub found :
      file_at name s.disk.files
      ≡ some (record { bytes = serialized s.header ++ ciphertext; synced = true })
  pub generation : s.vault.generation ≡ before.vault.generation + 1
  pub backup :
      (f : File) → file_at name before.disk.files ≡ some f → HasBackup a hash before.vault f
  pub verified :
      r ≡ ok tt
      → (s.vault.dirty ≡ false)
        × (hash (serialized s.header ++ ciphertext) ≡ some s.vault.source_hash)

pub data SaveOutcome (sodium : Sodium) (a : Answers) (hash : Hash) (name : Name) (before : Session)
    : Result (Unit {0}) × Session → Type 0 where
  saved :
      {r : Result (Unit {0})} {s : Session}
      → (r ≡ ok tt) ⊎ (r ≡ err durability)
      → IsSaved sodium a hash name before r s
      → SaveOutcome sodium a hash name before (r, s)
  unsaved :
      {e : Status} {s : Session}
      → e ≢ durability
      → s.vault ≡ before.vault
      → IsQuiet name before.disk.files s.disk
      → SaveOutcome sodium a hash name before (err e, s)

status_of :
    (b : Bool)
    → (let r : Result (Unit {0}) = if b then err durability else ok tt in
        (r ≡ ok tt) ⊎ (r ≡ err durability))
status_of true = inr refl
status_of false = inl refl

-- Up to two numbers the vault did not change, and these are put back.
undone_same :
    (a : Answers) (before : Session)
    → before.vault.generation + 1 < 2 ^ 64
    → (header : FileHeader) (d : Disk)
    → (undone before.vault.updated_ms
        (record { vault = next_vault a before.vault; header = header; disk = d })).vault
      ≡ before.vault
undone_same a before fits header d =
    ap (λ (n : ℕ). record before.vault { generation = n; updated_ms = before.vault.updated_ms })
      (omega arith)

Early-not_durable : (e : Status) → Early e → is_durability e ≡ false
Early-not_durable e early = elim early [
  | inl p ↦ ap is_durability p
  | inr (inl p) ↦ ap is_durability p
  | inr (inr (inl p)) ↦ ap is_durability p
  | inr (inr (inr p)) ↦ ap is_durability p
]

module _ (sodium : Sodium) (a : Answers) (hash : Hash) (name : Name) (before : Session)
    (encoded ciphertext : List ℕ) (header : FileHeader)
    (encoding : cbor_encode a.memory (next_vault a before.vault) ≡ ok encoded)
    (encryption : encrypt_body sodium a.crypto before.vault.vmk encoded before.header
      ≡ (ok ciphertext, header))
    (fits : before.vault.generation + 1 < 2 ^ 64)
    (backup : (f : File)
      → file_at name before.disk.files ≡ some f
      → HasBackup a hash before.vault f) where
  abbrev session : Disk → Session
  session d = record { vault = next_vault a before.vault; header = header; disk = d }

  committed-SaveOutcome :
      (warned : Bool) (o : Option (List ℕ)) (d : Disk)
      → file_at name d.files
        ≡ some (record { bytes = serialized header ++ ciphertext; synced = true })
      → ((digest : List ℕ) → o ≡ some digest → hash (serialized header ++ ciphertext) ≡ some digest)
      → SaveOutcome sodium a hash name before (committed a warned o (session d))
  committed-SaveOutcome warned none d found hashed = saved (inr refl) (record {
    encoded = encoded;
    ciphertext = ciphertext;
    encoding = encoding;
    encryption = encryption;
    found = found;
    generation = omega arith;
    backup = backup;
    verified = λ h. cc;
  })
  committed-SaveOutcome warned (some digest) d found hashed =
      saved (status_of (warned || not a.stayed)) (record {
        encoded = encoded;
        ciphertext = ciphertext;
        encoding = encoding;
        encryption = encryption;
        found = found;
        generation = omega arith;
        backup = backup;
        verified = λ _. (refl, hashed digest refl);
      })

  placed :
      (warned : Bool) (d : Disk)
      → file_at name d.files
        ≡ some (record { bytes = serialized header ++ ciphertext; synced = true })
      → SaveOutcome sodium a hash name before (
          committed a warned
            (read_back a hash (serialized header) ciphertext (file_at name d.files))
            (session d))
  placed warned d found = committed-SaveOutcome warned _ d found (λ digest e.
      hash-read_back a hash (serialized header) ciphertext
        (record { bytes = serialized header ++ ciphertext; synced = true }) digest
        (sym (ap (read_back a hash (serialized header) ciphertext) found) ∙ e))

  after_write-SaveOutcome :
      (create_only : Bool) (r : Result (Unit {0}) × Disk)
      → Outcome name before.disk.files (serialized header ++ ciphertext) create_only r
      → SaveOutcome sodium a hash name before (
          after_write a hash name ciphertext before.vault.updated_ms
            (next_vault a before.vault)
            header
            r)
  after_write-SaveOutcome create_only r (replaced {r = x} {s = d} ends h) =
      let by : (y : Result (Unit {0}))
          → x ≡ y
          → SaveOutcome sodium a hash name before (
              after_write a hash name ciphertext before.vault.updated_ms (next_vault a before.vault)
                header (y, d))
          → SaveOutcome sodium a hash name before (
              after_write a hash name ciphertext before.vault.updated_ms (next_vault a before.vault)
                header (x, d)) =
        λ y e.
          subst
            (λ z. SaveOutcome sodium a hash name before (
              after_write a hash name ciphertext before.vault.updated_ms (next_vault a before.vault)
                header (z, d)))
            (sym e) in
      elim ends [
        | inl e ↦ by (ok tt) e (placed false d h.found)
        | inr e ↦ by (err durability) e (placed true d h.found)
      ]
  after_write-SaveOutcome create_only r (untouched {e = e} {s = d} early q) =
      rw (Early-not_durable e early) (
        unsaved (λ p. let clash = sym (Early-not_durable e early) ∙ ap is_durability p in cc)
          (undone_same a before fits header d) q)

sealed_vault-ok :
    (sodium : Sodium) (a : Answers) (vault : Vault) (header : FileHeader) (c : List ℕ)
    → (sealed_vault sodium a vault header).0 ≡ ok c
    → (encoded : List ℕ) × (cbor_encode a.memory vault ≡ ok encoded)
      × (encrypt_body sodium a.crypto vault.vmk encoded header
          ≡ (ok c, (sealed_vault sodium a vault header).1))
unfolding sealed_vault
sealed_vault-ok sodium a vault header c h = elim (Result-cases (cbor_encode a.memory vault)) [
  | inr (e, failed) ↦ let lost = sym (ap (λ p. p.0) (refusal e failed)) ∙ h in cc
  | inl (encoded, made) ↦ (
    encoded,
    made,
    λ i. (
      (sym (ap (λ p. p.0) (sealing encoded made)) ∙ h) i,
      (sym (ap (λ p. p.1) (sealing encoded made))) i,
    ),
  )
]
  where
    refusal :
        (e : Status)
        → cbor_encode a.memory vault ≡ err e
        → sealed_vault sodium a vault header ≡ (err e, header)
    refusal e failed = rw (sealed_vault, failed) refl

    sealing :
        (encoded : List ℕ)
        → cbor_encode a.memory vault ≡ ok encoded
        → sealed_vault sodium a vault header ≡ encrypt_body sodium a.crypto vault.vmk encoded header
    sealing encoded made = rw (sealed_vault, made) refl

module _ (sodium : Sodium) (a : Answers) (hash : Hash) (create_only : Bool) (name : Name)
    (vault : Vault) (header : FileHeader) (files : Dir) where
  abbrev before : Session
  before = record { vault = vault; header = header; disk = record { files = files; seen = [] } }

  quiet : IsQuiet name files (record { files = files; seen = [] })
  quiet = record { now = record { kept = λ k o. refl }; before = tt }

  below_limit :
      vault.generation < 2 ^ 64
      → save_refused a hash create_only name before ≡ ok tt
      → vault.generation + 1 < 2 ^ 64
  unfolding save_refused
  below_limit fits h =
      let (test, _) = unless-ok (vault.generation == 2 ^ 64 - 1) limit _ tt h in ground arith

  sealed-SaveOutcome :
      vault.generation + 1 < 2 ^ 64
      → SaveOutcome sodium a hash name before (
          write_sealed a hash create_only name before
            (next_vault a vault)
            (sealed_vault sodium a (next_vault a vault) header))
  sealed-SaveOutcome fits =
      let p : Result (List ℕ) × FileHeader = sealed_vault sodium a (next_vault a vault) header in
      let file : Option File = file_at name files in
      elim (Result-cases (cleared a hash vault file p.0)) [
        | inr (e, failed) ↦
            rw (write_sealed, failed)
              (unsaved
                (error-distinct e (
                  subst IsPrior failed
                    (cleared-IsPrior a hash sodium vault (next_vault a vault) header file)))
                (undone_same a before fits p.1 before.disk) quiet)
        | inl (c, clear) ↦
            let (c0, made, rest) = bind-ok p.0 _ clear in
            let last =
              then-ok (if not a.stays then err locked else ok tt) (ok c0)
                (then-ok (backed_up a hash vault file) _ rest) in
            let same : c0 ≡ c = cc in
            let made_backup = then_first-ok (backed_up a hash vault file) _ rest in
            let kept : (f : File) → file ≡ some f → HasBackup a hash vault f = λ f here.
              backed_up-HasBackup a hash vault f
                (sym (ap (backed_up a hash vault) here) ∙ made_backup) in
            let (encoded, encoding, encryption) =
              sealed_vault-ok sodium a (next_vault a vault) header c (made ∙ ap ok same) in
            rw (write_sealed, clear)
              (after_write-SaveOutcome sodium a hash name before encoded c p.1 encoding encryption
                fits kept create_only _
                (write_atomic-Outcome a.write name (serialized p.1) c create_only files))
      ]

  -- For a vault with a generation below 2^64 and a directory, save_locked ends in one of two ways.
  -- It returns PV_OK or PV_ERR_DURABILITY: then the file holds, synced, the header and the
  -- encrypted encoding of the vault with its next generation, the vault has that generation, with
  -- PV_OK it is not dirty and its source hash is the hash of that file, and if a file was there
  -- before, the directory of backups has, as automatic_backup leaves it, a file with that file's
  -- hash under the vault's id and old generation. Or it returns a status other than these: then
  -- the vault is what it was, and neither at the end nor in any state on the way did a file other
  -- than the temporary ones differ from before.
  pub save_locked-SaveOutcome :
      vault.generation < 2 ^ 64
      → SaveOutcome sodium a hash name before (save_locked sodium a hash create_only name before)
  unfolding save_locked
  save_locked-SaveOutcome fits = elim (Result-cases (save_refused a hash create_only name before)) [
    | inr (e, refusal) ↦
        rw (save_locked, refusal)
          (unsaved
            (error-distinct e
              (subst IsPrior refusal (save_refused-IsPrior a hash create_only name before)))
            refl quiet)
    | inl (u, clear) ↦ rw (save_locked, clear) (sealed-SaveOutcome (below_limit fits clear))
  ]
