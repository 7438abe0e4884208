-- ===== src/Crypto/NewFile.antt =====
-- src/crypto.c: a new header and a body, and what the file that they make gives back.
use pvault.Base.{
  ℕ, ◌+◌, ◌≤◌, ◌≡◌, refl, ap, ◌∙◌, inl, inr, Bool-cases, true, false, List, [], ◌∷◌, length, All,
  replicate, if◌then◌else◌, arith,
}
use pvault.Base.Zeros.{id_is_zero, id_is_zero_iff}
use pvault.Crypto.{Sodium, IsSodium, Answers, IsReady, IsFresh, passwd_max, serialized}
use pvault.Crypto.Body.{body_made}
use pvault.Crypto.Created.{rewrapped, header_created}
use pvault.Crypto.Decrypt.{decrypt_body}
use pvault.Crypto.Encrypt.{encrypt_body, whole_pages, body_header}
use pvault.Crypto.Shapes.{body_header-IsShaped}
use pvault.Crypto.Slots.{
  new_header, fresh_password_slot, fresh_recovery_slot, put_password_vmk, put_recovery_vmk,
  has_requested_id, create_header, unlock_password, unlock_recovery,
}
use pvault.Crypto.Unlock.{unlock_password-others, unlock_recovery-others}
use pvault.Header.{FileHeader, IsShaped, header_decode, check_header, max_plaintext}
use pvault.Header.Checks.{IsV1, check_header-V1}
use pvault.Header.RoundTrip.{read_header-encode}
use pvault.Result.{ok}

zeros-has_requested : (id : List ℕ) → All (λ b. b ≡ 0) id → has_requested_id false id ≡ false
zeros-has_requested [] z = refl
zeros-has_requested (b ∷ bs) (z, zs) = rw z (zeros-has_requested bs zs)

requested-nonzero : (id : List ℕ) → has_requested_id false id ≡ true → id_is_zero id ≡ false
requested-nonzero id asked = elim (Bool-cases (id_is_zero id)) [
  | inr other ↦ other
  | inl zero ↦ absurd (ground (arith, zeros-has_requested id ((id_is_zero_iff id).0 zero)))
]

chosen_id :
    (random_id requested_id : List ℕ)
    → id_is_zero random_id ≡ false
    → id_is_zero (if has_requested_id false requested_id then requested_id else random_id) ≡ false
chosen_id random_id requested_id h = elim (Bool-cases (has_requested_id false requested_id)) [
  | inl asked ↦ rw asked (requested-nonzero requested_id asked)
  | inr free ↦ rw free h
]

decode-serialized : (h : FileHeader) → IsShaped h → IsV1 h → header_decode (serialized h) ≡ ok h
unfolding header_decode
decode-serialized h shaped v =
    ap check_header (read_header-encode h shaped (replicate 252 0) refl) ∙ check_header-V1 h v

module _ (s : Sodium) (l : IsSodium s) (a b c d : Answers) (fresh_a : IsFresh a)
    (fresh_b : IsFresh b) (fresh_c : IsFresh c) (ra : IsReady a) (rb : IsReady b) (rc : IsReady c)
    (rd : IsReady d) (vmk : List ℕ) (vl : length vmk ≡ 32)
    (password recovery_key plaintext random_id : List ℕ) (low : 1 ≤ length password)
    (high : length password ≤ passwd_max) (some_text : 1 ≤ length plaintext)
    (text_fits : length plaintext + 4 ≤ max_plaintext) (idl : length random_id ≡ 16)
    (nonzero : id_is_zero random_id ≡ false) where
  -- With libsodium as documented, allocations that succeed, random bytes of the lengths asked for
  -- and a drawn id that is not zero: pv_crypto_create_header and then pv_crypto_encrypt_body
  -- succeed on a password and a text of lengths within their limits; the header then decodes to
  -- itself from its bytes, the password and the recovery key both unlock the vault's key, and that
  -- key decrypts the body to the text.
  pub new_file-opens :
      (header : FileHeader)
      → length header.vault_id ≡ 16
      → (h1 : FileHeader) × (h2 : FileHeader) × (body : List ℕ) × (create_header s a b random_id
            password recovery_key vmk header
          ≡ (ok tt, h1))
        × (encrypt_body s c vmk plaintext h1 ≡ (ok body, h2))
        × (header_decode (serialized h2) ≡ ok h2)
        × (unlock_password s d password h2 ≡ ok vmk)
        × (unlock_recovery s d recovery_key h2 ≡ ok vmk)
        × (decrypt_body s d vmk h2 body ≡ ok plaintext)
  unfolding create_header rewrapped
  new_file-opens header q =
      let (w, x, (made, shaped, by_password, by_recovery)) =
        header_created s l a b d fresh_a fresh_b ra rb rd vmk vl password recovery_key low high
          random_id header.vault_id idl q in
      let h1 : FileHeader = put_recovery_vmk x (
        fresh_recovery_slot b
          (put_password_vmk w (fresh_password_slot a (new_header random_id header.vault_id)))) in
      let (body, (sealed, opened, size, more, near, whole, top)) =
        body_made s l c d fresh_c rc rd vmk plaintext some_text text_fits h1 in
      let h2 : FileHeader = body_header c (whole_pages (length plaintext + 4)) h1 in
      let s2 : IsShaped h2 = body_header-IsShaped h1 shaped c _ fresh_c (omega arith) in
      let v2 : IsV1 h2 = record {
        magic_ok = refl;
        major_ok = refl;
        minor_ok = refl;
        id_ok = chosen_id random_id header.vault_id nonzero;
        header_len_ok = refl;
        flags_ok = refl;
        kdf_ok = refl;
        wrap_ok = refl;
        body_ok = refl;
        slots_ok = refl;
        opslimit_low = omega arith;
        opslimit_high = omega arith;
        memlimit_low = omega arith;
        memlimit_high = omega arith;
        ciphertext_low = omega arith;
        ciphertext_high = omega arith;
        ciphertext_pages = omega arith;
      } in
      (
        h1,
        h2,
        body,
        made,
        sealed,
        decode-serialized h2 s2 v2,
        unlock_password-others s d h1 h2 shaped s2 password refl refl ∙ by_password,
        unlock_recovery-others s d h1 h2 shaped s2 recovery_key refl refl ∙ by_recovery,
        opened,
      )
