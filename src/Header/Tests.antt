-- ===== src/Header/Tests.antt =====
-- Runs of the header codec, and its theorems at concrete inputs.
use pvault.Base.{ℕ, ◌≡◌, ◌≢◌, ◌↔◌, ◌⊎◌, refl, List, ◌∷◌, replicate, bytes_eq, arith}
use pvault.Base.Words.{put_u16_le, put_u32_le, put_u64_le, get_u16_le, get_u32_le, get_u64_le}
use pvault.Base.Zeros.{id_is_zero}
use pvault.Header
use pvault.Header.{
  FileHeader, IsShaped, header_encode, header_decode, read_header, header_fields, check_header,
}
use pvault.Header.Checks.{IsV1, header_decode_iff, header_decode_errors}
use pvault.Result.{ok, err}
use pvault.Status.{format, unsupported}

abbrev sample : FileHeader
sample = record {
  magic = Header.magic;
  major = 1;
  minor = 0;
  header_len = 252;
  flags = 0;
  vault_id = 7 ∷ replicate 15 0;
  kdf_id = 1;
  wrap_aead_id = 1;
  body_aead_id = 1;
  slot_count = 2;
  password_slot = record {
    opslimit = 3;
    memlimit = 268435456;
    salt = replicate 16 9;
    nonce = replicate 24 8;
    wrapped_vmk = replicate 48 255;
  };
  recovery_slot = record { nonce = replicate 24 6; wrapped_vmk = replicate 48 5 };
  body_nonce = replicate 24 4;
  body_ciphertext_len = 8208;
}

abbrev blank : List ℕ
blank = replicate 252 0

sample_decodes : header_decode (header_encode sample blank) ≡ ok sample
unfolding header_decode header_encode put_u16_le put_u32_le put_u64_le get_u16_le get_u32_le
    get_u64_le bytes_eq id_is_zero
sample_decodes = refl

-- A future minor version is refused, and so is an empty vault id.
minor_one :
    header_decode (header_encode (record sample { minor = 1; flags = 7 }) blank) ≡ err unsupported
unfolding header_decode header_encode put_u16_le put_u32_le put_u64_le get_u16_le get_u32_le
    get_u64_le bytes_eq id_is_zero
minor_one = refl

zero_id :
    header_decode (header_encode (record sample { vault_id = replicate 16 0 }) blank) ≡ err format
unfolding header_decode header_encode put_u16_le put_u32_le put_u64_le get_u16_le get_u32_le
    get_u64_le bytes_eq id_is_zero
zero_id = refl

header_decode_iff_example :
    (header_decode (header_encode sample blank) ≡ ok sample)
    ↔ (IsShaped sample × IsV1 sample × (header_encode sample blank ≡ header_encode sample blank))
unfolding header_encode put_u16_le put_u32_le put_u64_le
header_decode_iff_example =
    header_decode_iff (header_encode sample blank) blank sample (omega arith) refl refl

header_decode_errors_example :
    (((h : FileHeader) × (header_decode blank ≡ ok h))
      ⊎ (header_decode blank ≡ err format)
      ⊎ (header_decode blank ≡ err unsupported))
    × ((header_decode blank ≡ err unsupported) ↔ (
        ((read_header blank).magic ≡ Header.magic)
        × (((read_header blank).major ≢ 1) ⊎ ((read_header blank).minor ≢ 0))))
header_decode_errors_example = header_decode_errors blank
