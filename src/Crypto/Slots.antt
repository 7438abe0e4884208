-- ===== src/Crypto/Slots.antt =====
-- src/crypto.c: the two key slots, `pv_crypto_rewrap_password`, `pv_crypto_rewrap_recovery`,
-- `pv_crypto_create_header`, `pv_crypto_unlock_password` and `pv_crypto_unlock_recovery`.
use pvault.Base.{ℕ, ◌==◌, Bool, false, not, ◌||◌, ◌∷◌, List, [], replicate, take, if◌then◌else◌}
use pvault.Crypto.{
  Sodium, Answers, opslimit, memlimit, serialized, secure_key_alloc, password_key,
  recovery_wrap_key, wrap_vmk, unwrap_vmk,
}
use pvault.Exec.{Exec, proceed}
use pvault.Header.{FileHeader, file_header_len, magic}
use pvault.Result.{Result, ok, err, ◌>>=◌, ◌>>◌}

-- The header with the parameters, salt and nonce of a new password slot.
abbrev pub fresh_password_slot : Answers → FileHeader → FileHeader
fresh_password_slot a h = record h {
  password_slot = record h.password_slot {
    opslimit = opslimit;
    memlimit = memlimit;
    salt = a.salt;
    nonce = a.nonce;
  };
}

abbrev pub fresh_recovery_slot : Answers → FileHeader → FileHeader
fresh_recovery_slot a h = record h { recovery_slot = record h.recovery_slot { nonce = a.nonce } }

abbrev pub put_password_vmk : List ℕ → FileHeader → FileHeader
put_password_vmk wrapped h = record h {
  password_slot = record h.password_slot { wrapped_vmk = wrapped };
}

abbrev pub put_recovery_vmk : List ℕ → FileHeader → FileHeader
put_recovery_vmk wrapped h = record h {
  recovery_slot = record h.recovery_slot { wrapped_vmk = wrapped };
}

-- The vault's key, wrapped for the password slot; `PV_PASSWORD_AAD_LEN` is 76.
unfoldable pub wrap_password : Sodium → Answers → List ℕ → List ℕ → FileHeader → Result (List ℕ)
wrap_password s a password vmk h =
    secure_key_alloc a
    >> (password_key s a h.password_slot password >>= λ key.
        wrap_vmk s (take 76 (serialized h)) h.password_slot.nonce key vmk)

-- The same for the recovery slot; `PV_RECOVERY_AAD_LEN` is 44.
unfoldable pub wrap_recovery : Sodium → Answers → List ℕ → List ℕ → FileHeader → Result (List ℕ)
wrap_recovery s a recovery_key vmk h =
    secure_key_alloc a
    >> (recovery_wrap_key s recovery_key >>= λ key.
        wrap_vmk s (take 44 (serialized h)) h.recovery_slot.nonce key vmk)

-- The slot gets the wrapped key, if there is one.
abbrev pub stored_in :
    (List ℕ → FileHeader → FileHeader)
    → Result (List ℕ)
    → FileHeader
    → Result (Unit {0}) × FileHeader
stored_in put (ok wrapped) h = (ok tt, put wrapped h)
stored_in put (err e) h = (err e, h)

-- `pv_crypto_rewrap_password`
unfoldable pub rewrap_password : Sodium → Answers → List ℕ → List ℕ → Exec FileHeader (Unit {0})
rewrap_password s a password vmk header =
    let h = fresh_password_slot a header in
    stored_in put_password_vmk (wrap_password s a password vmk h) h

-- `pv_crypto_rewrap_recovery`
unfoldable pub rewrap_recovery : Sodium → Answers → List ℕ → List ℕ → Exec FileHeader (Unit {0})
rewrap_recovery s a recovery_key vmk header =
    let h = fresh_recovery_slot a header in
    stored_in put_recovery_vmk (wrap_recovery s a recovery_key vmk h) h

-- `has_requested_id = has_requested_id || requested_id[i] != 0U;` for each byte
abbrev pub has_requested_id : Bool → List ℕ → Bool
has_requested_id found [] = found
has_requested_id found (b ∷ bs) = has_requested_id (found || not (b == 0)) bs

-- The header of zeros with the fixed fields; `random_id` is what `randombytes_buf` gives, for an id
-- that is not asked for.
abbrev pub new_header : List ℕ → List ℕ → FileHeader
new_header random_id requested_id = record {
  magic = magic;
  major = 1;
  minor = 0;
  header_len = file_header_len;
  flags = 0;
  vault_id = if has_requested_id false requested_id then requested_id else random_id;
  kdf_id = 1;
  wrap_aead_id = 1;
  body_aead_id = 1;
  slot_count = 2;
  password_slot = record {
    opslimit = 0;
    memlimit = 0;
    salt = replicate 16 0;
    nonce = replicate 24 0;
    wrapped_vmk = replicate 48 0;
  };
  recovery_slot = record { nonce = replicate 24 0; wrapped_vmk = replicate 48 0 };
  body_nonce = replicate 24 0;
  body_ciphertext_len = 0;
}

-- `pv_crypto_create_header`; `a` and `b` answer the two calls, one for each slot.
unfoldable pub create_header :
    Sodium → Answers → Answers → List ℕ → List ℕ → List ℕ → List ℕ → Exec FileHeader (Unit {0})
create_header s a b random_id password recovery_key vmk header =
    proceed (rewrap_password s a password vmk (new_header random_id header.vault_id))
      (λ _. rewrap_recovery s b recovery_key vmk)

-- `pv_crypto_unlock_password`
unfoldable pub unlock_password : Sodium → Answers → List ℕ → FileHeader → Result (List ℕ)
unlock_password s a password h =
    secure_key_alloc a
    >> (password_key s a h.password_slot password >>= λ key.
        unwrap_vmk s (take 76 (serialized h)) h.password_slot.nonce key h.password_slot.wrapped_vmk)

-- `pv_crypto_unlock_recovery`
unfoldable pub unlock_recovery : Sodium → Answers → List ℕ → FileHeader → Result (List ℕ)
unlock_recovery s a recovery_key h =
    secure_key_alloc a
    >> (recovery_wrap_key s recovery_key >>= λ key.
        unwrap_vmk s (take 44 (serialized h)) h.recovery_slot.nonce key h.recovery_slot.wrapped_vmk)
