-- ===== src/Header.antt =====
-- src/pvault_internal.h (the file header and its key slots) and src/crypto.c: `pv_header_encode`
-- and `pv_header_decode`. A fixed byte array is a list of bytes. The sizes that libsodium's macros
-- give are those of XChaCha20-Poly1305 (key 32, nonce 24, tag 16) and of Argon2id (salt 16).
-- The pointers that the two functions are given are not NULL here.
pub mod Layout
pub mod RoundTrip
pub mod Checks
mod Tests
use pvault.Base.{
  ℕ, ◌+◌, ◌-◌, ◌*◌, ◌%◌, ◌^◌, ◌≤◌, ◌<◌, ◌≡◌, Bool, not, ◌&&◌, ◌||◌, List, [], ◌∷◌, ◌++◌, length,
  take, drop, All, ltb, ◌==◌, if◌then◌else◌, bytes_eq,
}
use pvault.Base.Words.{
  IsByte, put_u16_le, put_u32_le, put_u64_le, get_u16_le, get_u32_le, get_u64_le,
}
use pvault.Base.Zeros.{id_is_zero}
use pvault.Status.{format, unsupported}
use pvault.Result.{Result, ok, err}

abbrev pub file_header_len : ℕ
file_header_len = 252

abbrev pub max_plaintext : ℕ
max_plaintext = 2 * 1024 * 1024

abbrev pub body_tag_bytes : ℕ
body_tag_bytes = 16

-- `pv_magic`
abbrev pub magic : List ℕ
magic = b'P' ∷ b'V' ∷ b'L' ∷ b'T' ∷ 0x0d ∷ 0x0a ∷ 0x1a ∷ 0x0a ∷ []

abbrev pub opslimit_min : ℕ
opslimit_min = 3

abbrev pub opslimit_max : ℕ
opslimit_max = 10

abbrev pub memlimit_min : ℕ
memlimit_min = 268435456

abbrev pub memlimit_max : ℕ
memlimit_max = 1073741824

pub record PasswordSlot : Type 0 where
  pub opslimit : ℕ
  pub memlimit : ℕ
  pub salt : List ℕ
  pub nonce : List ℕ
  pub wrapped_vmk : List ℕ

pub record RecoverySlot : Type 0 where
  pub nonce : List ℕ
  pub wrapped_vmk : List ℕ

pub record FileHeader : Type 0 where
  pub magic : List ℕ
  pub major : ℕ
  pub minor : ℕ
  pub header_len : ℕ
  pub flags : ℕ
  pub vault_id : List ℕ
  pub kdf_id : ℕ
  pub wrap_aead_id : ℕ
  pub body_aead_id : ℕ
  pub slot_count : ℕ
  pub password_slot : PasswordSlot
  pub recovery_slot : RecoverySlot
  pub body_nonce : List ℕ
  pub body_ciphertext_len : ℕ

-- `memcpy(output + offset, bytes, length)`
abbrev pub memcpy_at : ℕ → List ℕ → List ℕ → List ℕ
memcpy_at offset bytes output = take offset output ++ (bytes ++ drop (offset + length bytes) output)

abbrev pub write_fields : List (ℕ × List ℕ) → List ℕ → List ℕ
write_fields [] output = output
write_fields ((offset, bytes) ∷ fields) output = write_fields fields (memcpy_at offset bytes output)

-- The writes of `pv_header_encode`, in its order.
unfoldable pub header_fields : FileHeader → List (ℕ × List ℕ)
header_fields h =
    (0, h.magic)
    ∷ (8, put_u16_le h.major)
    ∷ (10, put_u16_le h.minor)
    ∷ (12, put_u32_le h.header_len)
    ∷ (16, put_u32_le h.flags)
    ∷ (20, h.vault_id)
    ∷ (36, put_u16_le h.kdf_id)
    ∷ (38, put_u16_le h.wrap_aead_id)
    ∷ (40, put_u16_le h.body_aead_id)
    ∷ (42, put_u16_le h.slot_count)
    ∷ (44, put_u64_le h.password_slot.opslimit)
    ∷ (52, put_u64_le h.password_slot.memlimit)
    ∷ (60, h.password_slot.salt)
    ∷ (76, h.password_slot.nonce)
    ∷ (100, h.password_slot.wrapped_vmk)
    ∷ (148, h.recovery_slot.nonce)
    ∷ (172, h.recovery_slot.wrapped_vmk)
    ∷ (220, h.body_nonce)
    ∷ (244, put_u64_le h.body_ciphertext_len)
    ∷ []

-- The second argument is what the output buffer held before.
unfoldable pub header_encode : FileHeader → List ℕ → List ℕ
unfolding header_fields
header_encode h output = write_fields (header_fields h) output

-- The window of `n` bytes at `input + offset`.
abbrev pub window : ℕ → ℕ → List ℕ → List ℕ
window offset n input = take n (drop offset input)

-- The reads of `pv_header_decode`.
unfoldable pub read_header : List ℕ → FileHeader
read_header input = record {
  magic = window 0 8 input;
  major = get_u16_le (window 8 2 input);
  minor = get_u16_le (window 10 2 input);
  header_len = get_u32_le (window 12 4 input);
  flags = get_u32_le (window 16 4 input);
  vault_id = window 20 16 input;
  kdf_id = get_u16_le (window 36 2 input);
  wrap_aead_id = get_u16_le (window 38 2 input);
  body_aead_id = get_u16_le (window 40 2 input);
  slot_count = get_u16_le (window 42 2 input);
  password_slot = record {
    opslimit = get_u64_le (window 44 8 input);
    memlimit = get_u64_le (window 52 8 input);
    salt = window 60 16 input;
    nonce = window 76 24 input;
    wrapped_vmk = window 100 48 input;
  };
  recovery_slot = record { nonce = window 148 24 input; wrapped_vmk = window 172 48 input };
  body_nonce = window 220 24 input;
  body_ciphertext_len = get_u64_le (window 244 8 input);
}

-- The third test of `pv_header_decode`, for a header of the version that it reads.
unfoldable pub refused : FileHeader → Bool
refused h =
    id_is_zero h.vault_id
    || not (h.header_len == file_header_len)
    || not (h.flags == 0)
    || not (h.kdf_id == 1)
    || not (h.wrap_aead_id == 1)
    || not (h.body_aead_id == 1)
    || not (h.slot_count == 2)
    || ltb h.password_slot.opslimit opslimit_min
    || ltb opslimit_max h.password_slot.opslimit
    || ltb h.password_slot.memlimit memlimit_min
    || ltb memlimit_max h.password_slot.memlimit
    || ltb h.body_ciphertext_len (4096 + body_tag_bytes)
    || not ((h.body_ciphertext_len - body_tag_bytes) % 4096 == 0)
    || ltb (max_plaintext + body_tag_bytes) h.body_ciphertext_len

-- The checks on what was read. With an error the source hands back a header of zeros.
unfoldable pub check_header : FileHeader → Result FileHeader
check_header h =
    if not (bytes_eq h.magic magic)
    then err format
    else if not (h.major == 1) || not (h.minor == 0)
    then err unsupported
    else if refused h
    then err format
    else ok h

unfoldable pub header_decode : List ℕ → Result FileHeader
unfolding read_header check_header refused
header_decode input = check_header (read_header input)

-- A header that the C type can hold: array lengths and integer widths.
pub record IsShaped (h : FileHeader) : Type 0 where
  pub magic_len : length h.magic ≡ 8
  pub id_len : length h.vault_id ≡ 16
  pub salt_len : length h.password_slot.salt ≡ 16
  pub password_nonce_len : length h.password_slot.nonce ≡ 24
  pub password_vmk_len : length h.password_slot.wrapped_vmk ≡ 48
  pub recovery_nonce_len : length h.recovery_slot.nonce ≡ 24
  pub recovery_vmk_len : length h.recovery_slot.wrapped_vmk ≡ 48
  pub body_nonce_len : length h.body_nonce ≡ 24
  pub major_fits : h.major < 2 ^ 16
  pub minor_fits : h.minor < 2 ^ 16
  pub header_len_fits : h.header_len < 2 ^ 32
  pub flags_fits : h.flags < 2 ^ 32
  pub kdf_fits : h.kdf_id < 2 ^ 16
  pub wrap_fits : h.wrap_aead_id < 2 ^ 16
  pub body_fits : h.body_aead_id < 2 ^ 16
  pub slots_fits : h.slot_count < 2 ^ 16
  pub opslimit_fits : h.password_slot.opslimit < 2 ^ 64
  pub memlimit_fits : h.password_slot.memlimit < 2 ^ 64
  pub ciphertext_fits : h.body_ciphertext_len < 2 ^ 64
