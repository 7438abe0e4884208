-- ===== src/Crypto/Shapes.antt =====
-- src/crypto.c: headers keep fitting their C type while the slots and the body are filled in.
use pvault.Base.{ℕ, ◌+◌, ◌^◌, ◌<◌, ◌≡◌, List, length, arith}
use pvault.Crypto.{Answers, IsFresh}
use pvault.Crypto.Encrypt.{body_header}
use pvault.Crypto.Slots.{
  fresh_password_slot, fresh_recovery_slot, put_password_vmk, put_recovery_vmk,
}
use pvault.Header.{FileHeader, PasswordSlot, RecoverySlot, IsShaped, body_tag_bytes}

-- The parts of a header that change, and the fixed fields of a header before the change.
record AreShaped (p : PasswordSlot) (r : RecoverySlot) (nonce : List ℕ) (n : ℕ) : Type 0 where
  salt_len : length p.salt ≡ 16
  password_nonce_len : length p.nonce ≡ 24
  password_vmk_len : length p.wrapped_vmk ≡ 48
  recovery_nonce_len : length r.nonce ≡ 24
  recovery_vmk_len : length r.wrapped_vmk ≡ 48
  body_nonce_len : length nonce ≡ 24
  opslimit_fits : p.opslimit < 2 ^ 64
  memlimit_fits : p.memlimit < 2 ^ 64
  ciphertext_fits : n < 2 ^ 64

replaced :
    (h : FileHeader) {p : PasswordSlot} {r : RecoverySlot} {nonce : List ℕ} {n : ℕ}
    → IsShaped h
    → AreShaped p r nonce n
    → IsShaped (record h {
      password_slot = p;
      recovery_slot = r;
      body_nonce = nonce;
      body_ciphertext_len = n;
    })
replaced h s q = record {
  magic_len = s.magic_len;
  id_len = s.id_len;
  salt_len = q.salt_len;
  password_nonce_len = q.password_nonce_len;
  password_vmk_len = q.password_vmk_len;
  recovery_nonce_len = q.recovery_nonce_len;
  recovery_vmk_len = q.recovery_vmk_len;
  body_nonce_len = q.body_nonce_len;
  major_fits = s.major_fits;
  minor_fits = s.minor_fits;
  header_len_fits = s.header_len_fits;
  flags_fits = s.flags_fits;
  kdf_fits = s.kdf_fits;
  wrap_fits = s.wrap_fits;
  body_fits = s.body_fits;
  slots_fits = s.slots_fits;
  opslimit_fits = q.opslimit_fits;
  memlimit_fits = q.memlimit_fits;
  ciphertext_fits = q.ciphertext_fits;
}

module _ (h : FileHeader) (s : IsShaped h) where
  pub fresh_password-IsShaped : (a : Answers) → IsFresh a → IsShaped (fresh_password_slot a h)
  fresh_password-IsShaped a f = replaced h s record {
    salt_len = f.salt_len;
    password_nonce_len = f.nonce_len;
    password_vmk_len = s.password_vmk_len;
    recovery_nonce_len = s.recovery_nonce_len;
    recovery_vmk_len = s.recovery_vmk_len;
    body_nonce_len = s.body_nonce_len;
    opslimit_fits = omega arith;
    memlimit_fits = omega arith;
    ciphertext_fits = s.ciphertext_fits;
  }

  pub fresh_recovery-IsShaped : (a : Answers) → IsFresh a → IsShaped (fresh_recovery_slot a h)
  fresh_recovery-IsShaped a f = replaced h s record {
    salt_len = s.salt_len;
    password_nonce_len = s.password_nonce_len;
    password_vmk_len = s.password_vmk_len;
    recovery_nonce_len = f.nonce_len;
    recovery_vmk_len = s.recovery_vmk_len;
    body_nonce_len = s.body_nonce_len;
    opslimit_fits = s.opslimit_fits;
    memlimit_fits = s.memlimit_fits;
    ciphertext_fits = s.ciphertext_fits;
  }

  pub put_password-IsShaped : (w : List ℕ) → length w ≡ 48 → IsShaped (put_password_vmk w h)
  put_password-IsShaped w l = replaced h s record {
    salt_len = s.salt_len;
    password_nonce_len = s.password_nonce_len;
    password_vmk_len = l;
    recovery_nonce_len = s.recovery_nonce_len;
    recovery_vmk_len = s.recovery_vmk_len;
    body_nonce_len = s.body_nonce_len;
    opslimit_fits = s.opslimit_fits;
    memlimit_fits = s.memlimit_fits;
    ciphertext_fits = s.ciphertext_fits;
  }

  pub put_recovery-IsShaped : (w : List ℕ) → length w ≡ 48 → IsShaped (put_recovery_vmk w h)
  put_recovery-IsShaped w l = replaced h s record {
    salt_len = s.salt_len;
    password_nonce_len = s.password_nonce_len;
    password_vmk_len = s.password_vmk_len;
    recovery_nonce_len = s.recovery_nonce_len;
    recovery_vmk_len = l;
    body_nonce_len = s.body_nonce_len;
    opslimit_fits = s.opslimit_fits;
    memlimit_fits = s.memlimit_fits;
    ciphertext_fits = s.ciphertext_fits;
  }

  pub body_header-IsShaped :
      (a : Answers) (n : ℕ) → IsFresh a → n + body_tag_bytes < 2 ^ 64 → IsShaped (body_header a n h)
  body_header-IsShaped a n f l = replaced h s record {
    salt_len = s.salt_len;
    password_nonce_len = s.password_nonce_len;
    password_vmk_len = s.password_vmk_len;
    recovery_nonce_len = s.recovery_nonce_len;
    recovery_vmk_len = s.recovery_vmk_len;
    body_nonce_len = f.nonce_len;
    opslimit_fits = s.opslimit_fits;
    memlimit_fits = s.memlimit_fits;
    ciphertext_fits = l;
  }
