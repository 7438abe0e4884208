-- ===== src/Crypto/Outcomes.antt =====
-- src/crypto.c: every way in which the functions that open a vault can end.
use pvault.Base.{
  ℕ, ◌+◌, ◌-◌, ◌%◌, ◌≤◌, ◌≡◌, refl, ◌∙◌, ◌⊎◌, inl, inr, not, ◌||◌, ◌==◌, List, length, length-take,
  length-drop, take, drop, ltb, arith,
}
use pvault.Base.Words.{get_u32_le}
use pvault.Crypto.{
  Sodium, Answers, secure_key_alloc, password_key, recovery_wrap_key, body_key, unwrap_vmk,
  serialized, passwd_max, body_kdf_context, recovery_kdf_context,
}
use pvault.Crypto.Decrypt.{content, decrypt_body}
use pvault.Crypto.Slots.{unlock_password, unlock_recovery}
use pvault.Header.{
  FileHeader, PasswordSlot, max_plaintext, body_tag_bytes, opslimit_min, opslimit_max, memlimit_min,
  memlimit_max,
}
use pvault.Result.Ends.{Ends, value, Any, bind-Ends, then-Ends, or_fail-Ends, refuse-Ends}
use pvault.Status.{Status, auth, format, nomem, secure_memory, state}

module _ {E : Status → Type 0} where
  pub key_alloc-Ends : (a : Answers) → E nomem → E secure_memory → Ends Any E (secure_key_alloc a)
  unfolding secure_key_alloc
  key_alloc-Ends a m l =
      refuse-Ends (not a.key_malloc) nomem m
        (λ _. refuse-Ends (not a.key_mlock) secure_memory l (λ _. value tt))

  unwrap_vmk-Ends :
      (s : Sodium) (aad nonce key wrapped : List ℕ)
      → E auth
      → Ends (λ vmk. length vmk ≡ 32) E (unwrap_vmk s aad nonce key wrapped)
  unfolding unwrap_vmk
  unwrap_vmk-Ends s aad nonce key wrapped h =
      bind-Ends (or_fail-Ends (s.decrypt wrapped aad nonce key) auth h)
        (λ vmk _. refuse-Ends (not (length vmk == 32)) auth h (λ e. value (ground arith)))

  password_key-Ends :
      (s : Sodium) (a : Answers) (slot : PasswordSlot) (password : List ℕ)
      → E auth
      → E secure_memory
      → Ends Any E (password_key s a slot password)
  unfolding password_key
  password_key-Ends s a slot password refused memory =
      refuse-Ends
        (length password == 0
          || ltb passwd_max (length password)
          || ltb slot.opslimit opslimit_min
          || ltb opslimit_max slot.opslimit
          || ltb slot.memlimit memlimit_min
          || ltb memlimit_max slot.memlimit)
        auth refused (λ _. refuse-Ends (not a.pwhash_memory) secure_memory memory (λ _. value tt))

-- What the functions may answer instead of a value.
abbrev pub UnlockError : Status → Type 0
UnlockError e = (e ≡ nomem) ⊎ (e ≡ secure_memory) ⊎ (e ≡ auth) ⊎ (e ≡ state)

abbrev pub BodyError : Status → Type 0
BodyError e = (e ≡ format) ⊎ UnlockError e

-- Whatever libsodium answers, pv_crypto_unlock_password returns a key of 32 bytes, PV_ERR_NOMEM,
-- PV_ERR_SECURE_MEMORY or PV_ERR_AUTH, and pv_crypto_unlock_recovery one of these or PV_ERR_STATE.
pub unlock_outcomes :
    (s : Sodium) (a : Answers) (password recovery_key : List ℕ) (h : FileHeader)
    → Ends
        (λ vmk. length vmk ≡ 32)
        (λ e. (e ≡ nomem) ⊎ (e ≡ secure_memory) ⊎ (e ≡ auth))
        (unlock_password s a password h)
      × Ends (λ vmk. length vmk ≡ 32) UnlockError (unlock_recovery s a recovery_key h)
unfolding unlock_password unlock_recovery recovery_wrap_key
unlock_outcomes s a password recovery_key h = (
  then-Ends (key_alloc-Ends a (inl refl) (inr (inl refl))) (
      bind-Ends (password_key-Ends s a h.password_slot password (inr (inr refl)) (inr (inl refl)))
        (λ key _. unwrap_vmk-Ends s _ _ key _ (inr (inr refl)))),
  then-Ends (key_alloc-Ends a (inl refl) (inr (inl refl))) (
      bind-Ends
        (or_fail-Ends (s.kdf 0 recovery_kdf_context recovery_key) state (inr (inr (inr refl))))
        (λ key _. unwrap_vmk-Ends s _ _ key _ (inr (inr (inl refl))))),
)

abbrev pub IsText : List ℕ → Type 0
IsText text = (1 ≤ length text) × (length text + 4 ≤ max_plaintext)

content-Ends : (decoded : List ℕ) → Ends IsText BodyError (content decoded)
unfolding content
content-Ends decoded =
    let n : ℕ = get_u32_le (take 4 decoded) in
    refuse-Ends
      (ltb (length decoded) 4
        || ltb max_plaintext (length decoded)
        || not (length decoded % 4096 == 0))
      format (inl refl)
      (λ whole. refuse-Ends (ltb (length decoded - 4) n || n == 0) format (inl refl) (λ fits.
        let size : length (take n (drop 4 decoded)) ≡ n =
          length-take n (drop 4 decoded) ∙ ground (arith, length-drop 4 decoded) in
        value (ground (arith, size), ground (arith, size))))

-- Whatever libsodium answers, pv_crypto_decrypt_body returns a text of at least one byte that fits
-- the plaintext limit with its length, or PV_ERR_FORMAT, PV_ERR_NOMEM, PV_ERR_SECURE_MEMORY,
-- PV_ERR_AUTH or PV_ERR_STATE.
pub decrypt_outcomes :
    (s : Sodium) (a : Answers) (vmk : List ℕ) (h : FileHeader) (c : List ℕ)
    → Ends IsText BodyError (decrypt_body s a vmk h c)
unfolding decrypt_body body_key
decrypt_outcomes s a vmk h c =
    refuse-Ends
      (not (length c == h.body_ciphertext_len)
        || ltb (length c) (4096 + body_tag_bytes)
        || not ((length c - body_tag_bytes) % 4096 == 0))
      format (inl refl)
      (λ _. then-Ends (key_alloc-Ends a (inr (inl refl)) (inr (inr (inl refl)))) (
        bind-Ends (or_fail-Ends (s.kdf 1 body_kdf_context vmk) state (inr (inr (inr (inr refl)))))
          (λ key _.
            then-Ends
              (refuse-Ends (not a.body_memory) secure_memory (inr (inr (inl refl))) (λ _. value tt))
              (bind-Ends
                (or_fail-Ends (s.decrypt c (serialized h) h.body_nonce key) auth
                  (inr (inr (inr (inl refl)))))
                (λ decoded _. content-Ends decoded)))))
