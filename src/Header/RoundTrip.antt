-- ===== src/Header/RoundTrip.antt =====
-- The file header of src/crypto.c, encoded and decoded.
use pvault.Base.{
  All, All-take, All-drop, length-take, length-drop, drop, ◌+◌, ◌≤◌, ◌<◌, ◌^◌, ℕ, ◌≡◌, refl, sym,
  ap, ◌∙◌, some, List, [], ◌++◌, length, get_elem?, append-nil, drop_past, arith,
}
use pvault.Base.Words.{
  IsByte, put_u16-get_u16, put_u32-get_u32, put_u64-get_u64, get_u16-lt, get_u32-lt, get_u64-lt,
  put_u16_le, put_u32_le, put_u64_le, get_u16_le, get_u32_le, get_u64_le, get_u16-put_u16,
  get_u32-put_u32, get_u64-put_u64,
}
use pvault.Header.{FileHeader, IsShaped, header_fields, header_encode, read_header, window}
use pvault.Header.Layout.{
  Windows, flat, flat-eq-input, write_fields-flat, window-flat, header_fields-Contiguous,
  length-flat_header,
}

module _ (h : FileHeader) (s : IsShaped h) (output : List ℕ) (room : length output ≡ 252) where
  pub header_encode-flat : header_encode h output ≡ flat (header_fields h)
  unfolding header_encode
  header_encode-flat =
      write_fields-flat (header_fields h) [] output (header_fields-Contiguous h s)
      ∙ ap (λ t. flat (header_fields h) ++ t)
          (drop_past _ output (omega (arith, length-flat_header h s)))
      ∙ append-nil _

  -- The window of the k-th field.
  field_at :
      (k offset n : ℕ) (bytes : List ℕ)
      → get_elem? (header_fields h) k ≡ some (offset, bytes)
      → n ≡ length bytes
      → window offset n (header_encode h output) ≡ bytes
  field_at k offset n bytes e l =
      ap (window offset n) (header_encode-flat ∙ sym (append-nil _))
      ∙ window-flat (header_fields h) [] [] k offset n bytes (header_fields-Contiguous h s) e l

  -- Every field is read back.
  pub read_header-encode : read_header (header_encode h output) ≡ h
  unfolding read_header header_fields put_u16_le put_u32_le put_u64_le
  read_header-encode = λ i. record {
    magic = field_at 0 0 8 h.magic refl (sym s.magic_len) i;
    major = (ap get_u16_le (field_at 1 8 2 _ refl refl) ∙ get_u16-put_u16 h.major s.major_fits) i;
    minor = (ap get_u16_le (field_at 2 10 2 _ refl refl) ∙ get_u16-put_u16 h.minor s.minor_fits) i;
    header_len =
        (ap get_u32_le (field_at 3 12 4 _ refl refl)
            ∙ get_u32-put_u32 h.header_len s.header_len_fits)
          i;
    flags = (ap get_u32_le (field_at 4 16 4 _ refl refl) ∙ get_u32-put_u32 h.flags s.flags_fits) i;
    vault_id = field_at 5 20 16 h.vault_id refl (sym s.id_len) i;
    kdf_id = (ap get_u16_le (field_at 6 36 2 _ refl refl) ∙ get_u16-put_u16 h.kdf_id s.kdf_fits) i;
    wrap_aead_id =
        (ap get_u16_le (field_at 7 38 2 _ refl refl) ∙ get_u16-put_u16 h.wrap_aead_id s.wrap_fits)
          i;
    body_aead_id =
        (ap get_u16_le (field_at 8 40 2 _ refl refl) ∙ get_u16-put_u16 h.body_aead_id s.body_fits)
          i;
    slot_count =
        (ap get_u16_le (field_at 9 42 2 _ refl refl) ∙ get_u16-put_u16 h.slot_count s.slots_fits) i;
    password_slot = record {
      opslimit =
          (ap get_u64_le (field_at 10 44 8 _ refl refl)
              ∙ get_u64-put_u64 h.password_slot.opslimit s.opslimit_fits)
            i;
      memlimit =
          (ap get_u64_le (field_at 11 52 8 _ refl refl)
              ∙ get_u64-put_u64 h.password_slot.memlimit s.memlimit_fits)
            i;
      salt = field_at 12 60 16 h.password_slot.salt refl (sym s.salt_len) i;
      nonce = field_at 13 76 24 h.password_slot.nonce refl (sym s.password_nonce_len) i;
      wrapped_vmk = field_at 14 100 48 h.password_slot.wrapped_vmk refl (sym s.password_vmk_len) i;
    };
    recovery_slot = record {
      nonce = field_at 15 148 24 h.recovery_slot.nonce refl (sym s.recovery_nonce_len) i;
      wrapped_vmk = field_at 16 172 48 h.recovery_slot.wrapped_vmk refl (sym s.recovery_vmk_len) i;
    };
    body_nonce = field_at 17 220 24 h.body_nonce refl (sym s.body_nonce_len) i;
    body_ciphertext_len =
        (ap get_u64_le (field_at 18 244 8 _ refl refl)
            ∙ get_u64-put_u64 h.body_ciphertext_len s.ciphertext_fits)
          i;
  }

module _ (input : List ℕ) (bytes : All IsByte input) (whole : length input ≡ 252) where
  window-IsByte : (offset n : ℕ) → All IsByte (window offset n input)
  window-IsByte offset n = All-take IsByte n _ (All-drop IsByte offset input bytes)

  length-window : (offset n : ℕ) → offset + n ≤ 252 → length (window offset n input) ≡ n
  length-window offset n h =
      omega (arith, length-take n (drop offset input), length-drop offset input)

  -- Whatever the bytes are, what is read has the shape of the C type.
  pub read_header-IsShaped : IsShaped (read_header input)
  unfolding read_header
  read_header-IsShaped = record {
    magic_len = length-window 0 8 (omega arith);
    id_len = length-window 20 16 (omega arith);
    salt_len = length-window 60 16 (omega arith);
    password_nonce_len = length-window 76 24 (omega arith);
    password_vmk_len = length-window 100 48 (omega arith);
    recovery_nonce_len = length-window 148 24 (omega arith);
    recovery_vmk_len = length-window 172 48 (omega arith);
    body_nonce_len = length-window 220 24 (omega arith);
    major_fits = u16 8 (omega arith);
    minor_fits = u16 10 (omega arith);
    header_len_fits = u32 12 (omega arith);
    flags_fits = u32 16 (omega arith);
    kdf_fits = u16 36 (omega arith);
    wrap_fits = u16 38 (omega arith);
    body_fits = u16 40 (omega arith);
    slots_fits = u16 42 (omega arith);
    opslimit_fits = u64 44 (omega arith);
    memlimit_fits = u64 52 (omega arith);
    ciphertext_fits = u64 244 (omega arith);
  }
    where
      u16 : (o : ℕ) → o + 2 ≤ 252 → get_u16_le (window o 2 input) < 2 ^ 16
      u16 o h = get_u16-lt _ (window-IsByte o 2) (length-window o 2 h)

      u32 : (o : ℕ) → o + 4 ≤ 252 → get_u32_le (window o 4 input) < 2 ^ 32
      u32 o h = get_u32-lt _ (window-IsByte o 4) (length-window o 4 h)

      u64 : (o : ℕ) → o + 8 ≤ 252 → get_u64_le (window o 8 input) < 2 ^ 64
      u64 o h = get_u64-lt _ (window-IsByte o 8) (length-window o 8 h)

  fields-Windows : Windows input (header_fields (read_header input))
  unfolding read_header header_fields put_u16_le put_u32_le put_u64_le
  fields-Windows = (
    raw 0 8 (omega arith),
    (
      u16 8 (omega arith),
      (
        u16 10 (omega arith),
        (
          u32 12 (omega arith),
          (
            u32 16 (omega arith),
            (
              raw 20 16 (omega arith),
              (
                u16 36 (omega arith),
                (
                  u16 38 (omega arith),
                  (
                    u16 40 (omega arith),
                    (
                      u16 42 (omega arith),
                      (
                        u64 44 (omega arith),
                        (
                          u64 52 (omega arith),
                          (
                            raw 60 16 (omega arith),
                            (
                              raw 76 24 (omega arith),
                              (
                                raw 100 48 (omega arith),
                                (
                                  raw 148 24 (omega arith),
                                  (
                                    raw 172 48 (omega arith),
                                    (raw 220 24 (omega arith), (u64 244 (omega arith), tt)),
                                  ),
                                ),
                              ),
                            ),
                          ),
                        ),
                      ),
                    ),
                  ),
                ),
              ),
            ),
          ),
        ),
      ),
    ),
  )
    where
      raw : (o n : ℕ) → o + n ≤ 252 → window o n input ≡ window o (length (window o n input)) input
      raw o n h = ap (λ t. window o t input) (sym (length-window o n h))

      u16 : (o : ℕ) → o + 2 ≤ 252 → put_u16_le (get_u16_le (window o 2 input)) ≡ window o 2 input
      u16 o h = put_u16-get_u16 _ (window-IsByte o 2) (length-window o 2 h)

      u32 : (o : ℕ) → o + 4 ≤ 252 → put_u32_le (get_u32_le (window o 4 input)) ≡ window o 4 input
      u32 o h = put_u32-get_u32 _ (window-IsByte o 4) (length-window o 4 h)

      u64 : (o : ℕ) → o + 8 ≤ 252 → put_u64_le (get_u64_le (window o 8 input)) ≡ window o 8 input
      u64 o h = put_u64-get_u64 _ (window-IsByte o 8) (length-window o 8 h)

  -- What was read from 252 bytes is written back as those bytes.
  pub header_encode-read :
      (output : List ℕ) → length output ≡ 252 → header_encode (read_header input) output ≡ input
  header_encode-read output room =
      header_encode-flat (read_header input) read_header-IsShaped output room
      ∙ flat-eq-input input (header_fields (read_header input))
          (header_fields-Contiguous _ read_header-IsShaped) fields-Windows
          (whole ∙ sym (length-flat_header _ read_header-IsShaped))
