-- ===== src/Crypto/Aad.antt =====
-- The associated data of src/crypto.c are prefixes of the serialized header. What each depends on.
use pvault.Base.{
  ℕ, ◌≡◌, refl, sym, ap, ◌∙◌, List, [], ◌∷◌, ◌++◌, append_assoc, length, take, take-append_length,
  replicate, arith,
}
use pvault.Base.Words.{put_u16_le, put_u32_le, put_u64_le}
use pvault.Crypto.{serialized}
use pvault.Header.{FileHeader, PasswordSlot, IsShaped, header_fields}
use pvault.Header.Layout.{flat, length-flat}
use pvault.Header.RoundTrip.{header_encode-flat}

-- The fields before the two slots, and those of the password slot before its nonce.
abbrev pub common_fields : FileHeader → List (ℕ × List ℕ)
common_fields h =
    (0, h.magic)
    ∷ (8, put_u16_le h.major)
    ∷ (10, put_u16_le h.minor)
    ∷ (12, put_u32_le h.header_len)
    ∷ (16, put_u32_le h.flags)
    ∷ (20, h.vault_id)
    ∷ (36, put_u16_le h.kdf_id)
    ∷ (38, put_u16_le h.wrap_aead_id)
    ∷ (40, put_u16_le h.body_aead_id)
    ∷ (42, put_u16_le h.slot_count)
    ∷ []

abbrev pub slot_fields : PasswordSlot → List (ℕ × List ℕ)
slot_fields p = (44, put_u64_le p.opslimit) ∷ (52, put_u64_le p.memlimit) ∷ (60, p.salt) ∷ []

abbrev pub password_fields : FileHeader → List (ℕ × List ℕ)
password_fields h = slot_fields h.password_slot

abbrev later_fields : FileHeader → List (ℕ × List ℕ)
later_fields h =
    (76, h.password_slot.nonce)
    ∷ (100, h.password_slot.wrapped_vmk)
    ∷ (148, h.recovery_slot.nonce)
    ∷ (172, h.recovery_slot.wrapped_vmk)
    ∷ (220, h.body_nonce)
    ∷ (244, put_u64_le h.body_ciphertext_len)
    ∷ []

flat-append : (xs ys : List (ℕ × List ℕ)) → flat (xs ++ ys) ≡ flat xs ++ flat ys
flat-append [] ys = refl
flat-append ((o, b) ∷ xs) ys =
    ap (λ t. b ++ t) (flat-append xs ys) ∙ sym (append_assoc b (flat xs) (flat ys))

serialized-flat : (h : FileHeader) → IsShaped h → serialized h ≡ flat (header_fields h)
serialized-flat h s = header_encode-flat h s (replicate 252 0) refl

-- `serialized` begins with the fields before a split of them.
module _ (h : FileHeader) (s : IsShaped h) where
  take-serialized :
      (n : ℕ) (before after : List (ℕ × List ℕ))
      → header_fields h ≡ before ++ after
      → n ≡ length (flat before)
      → take n (serialized h) ≡ flat before
  take-serialized n before after split l =
      ap (take n) (serialized-flat h s ∙ ap flat split ∙ flat-append before after)
      ∙ take-append_length n (flat before) (flat after) l

  length-common_fields : 44 ≡ length (flat (common_fields h))
  unfolding put_u16_le put_u32_le put_u64_le
  length-common_fields = omega arith ∙ sym (length-flat (common_fields h))

  pub recovery_aad_lem : take 44 (serialized h) ≡ flat (common_fields h)
  unfolding header_fields
  recovery_aad_lem =
      take-serialized 44 (common_fields h) (password_fields h ++ later_fields h) refl
        length-common_fields

  length-password_fields : 76 ≡ length (flat (common_fields h ++ password_fields h))
  unfolding put_u16_le put_u32_le put_u64_le
  length-password_fields = omega arith ∙ sym (length-flat (common_fields h ++ password_fields h))

  pub password_aad_lem : take 76 (serialized h) ≡ flat (common_fields h ++ password_fields h)
  unfolding header_fields
  password_aad_lem =
      take-serialized 76 (common_fields h ++ password_fields h) (later_fields h) refl
        length-password_fields
