-- ===== src/Header/Checks.antt =====
-- What `pv_header_decode` accepts, and the errors that it gives.
use pvault.Base.{
  ℕ, ◌+◌, ◌-◌, ◌%◌, ◌≤◌, ◌≡◌, ◌≢◌, ◌↔◌, sym, ap, ◌∙◌, false, ◌⊎◌, inl, inr, subst, List, All,
  length, arith, bytes_eq, bytes_eq→eq, bytes_eq_refl,
}
use pvault.Base.Words.{IsByte}
use pvault.Base.Zeros.{id_is_zero}
use pvault.Header.{
  FileHeader, IsShaped, header_encode, check_header, header_decode, read_header, refused, magic,
  opslimit_min, opslimit_max, memlimit_min, memlimit_max, max_plaintext, body_tag_bytes,
  file_header_len,
}
use pvault.Header.RoundTrip.{read_header-encode, header_encode-read, read_header-IsShaped}
use pvault.Result.{ok, err}
use pvault.Status.{format, unsupported}

-- The header of a version 1.0 file, as docs/FORMAT.md describes it.
pub record IsV1 (h : FileHeader) : Type 0 where
  pub magic_ok : h.magic ≡ magic
  pub major_ok : h.major ≡ 1
  pub minor_ok : h.minor ≡ 0
  pub id_ok : id_is_zero h.vault_id ≡ false
  pub header_len_ok : h.header_len ≡ file_header_len
  pub flags_ok : h.flags ≡ 0
  pub kdf_ok : h.kdf_id ≡ 1
  pub wrap_ok : h.wrap_aead_id ≡ 1
  pub body_ok : h.body_aead_id ≡ 1
  pub slots_ok : h.slot_count ≡ 2
  pub opslimit_low : opslimit_min ≤ h.password_slot.opslimit
  pub opslimit_high : h.password_slot.opslimit ≤ opslimit_max
  pub memlimit_low : memlimit_min ≤ h.password_slot.memlimit
  pub memlimit_high : h.password_slot.memlimit ≤ memlimit_max
  pub ciphertext_low : 4096 + body_tag_bytes ≤ h.body_ciphertext_len
  pub ciphertext_high : h.body_ciphertext_len ≤ max_plaintext + body_tag_bytes
  pub ciphertext_pages : (h.body_ciphertext_len - body_tag_bytes) % 4096 ≡ 0

refused_iff :
    (h : FileHeader) → h.magic ≡ magic → h.major ≡ 1 → h.minor ≡ 0 → (refused h ≡ false) ↔ IsV1 h
unfolding refused
refused_iff h p q r = (λ e. ground arith, λ v. ground arith)

pub check_header-V1 : (h : FileHeader) → IsV1 h → check_header h ≡ ok h
unfolding check_header
check_header-V1 h v = ground (
  arith,
  ap (λ t. bytes_eq t magic) v.magic_ok ∙ bytes_eq_refl magic,
  (refused_iff h v.magic_ok v.major_ok v.minor_ok).1 v,
)

V1-check_header : (h g : FileHeader) → check_header h ≡ ok g → (g ≡ h) × IsV1 h
unfolding check_header
V1-check_header h g e = (
  ground arith,
  (refused_iff h (bytes_eq→eq h.magic magic (ground arith)) (ground arith) (ground arith)).0
      (ground arith),
)

-- On 252 bytes the header decoder returns h exactly when h fits the C types, meets the version 1.0
-- rules and is encoded as those bytes.
pub header_decode_iff :
    (input output : List ℕ) (h : FileHeader)
    → All IsByte input
    → length input ≡ 252
    → length output ≡ 252
    → (header_decode input ≡ ok h) ↔ (IsShaped h × IsV1 h × (header_encode h output ≡ input))
unfolding header_decode
header_decode_iff input output h bytes whole room = (
  λ e.
      let (same, v) = V1-check_header (read_header input) h e in
      (
        subst IsShaped (sym same) (read_header-IsShaped input bytes whole),
        subst IsV1 (sym same) v,
        ap (λ t. header_encode t output) same ∙ header_encode-read input bytes whole output room,
      ),
  λ p.
      ap check_header (ap read_header (sym p.2) ∙ read_header-encode h p.0 output room)
      ∙ check_header-V1 h p.1,
)

check_header_result :
    (h : FileHeader)
    → ((g : FileHeader) × (check_header h ≡ ok g))
      ⊎ (check_header h ≡ err format)
      ⊎ (check_header h ≡ err unsupported)
check_header_result h = elim cases [ inl e ↦ inl (h, e) | inr e ↦ inr e ]
  where
    cases :
        (check_header h ≡ ok h)
        ⊎ ((check_header h ≡ err format) ⊎ (check_header h ≡ err unsupported))
    cases = unfold check_header in ground arith

check_header-unsupported :
    (h : FileHeader)
    → (check_header h ≡ err unsupported) ↔ ((h.magic ≡ magic) × ((h.major ≢ 1) ⊎ (h.minor ≢ 0)))
unfolding check_header
check_header-unsupported h = (
  λ e. (bytes_eq→eq h.magic magic (ground arith), ground arith),
  λ p. ground (arith, ap (λ t. bytes_eq t magic) p.0 ∙ bytes_eq_refl magic),
)

-- On 252 bytes the header decoder returns a header, PV_ERR_FORMAT or PV_ERR_UNSUPPORTED, and
-- PV_ERR_UNSUPPORTED exactly for the right magic bytes and a version other than 1.0.
pub header_decode_errors :
    (input : List ℕ)
    → (((h : FileHeader) × (header_decode input ≡ ok h))
        ⊎ (header_decode input ≡ err format)
        ⊎ (header_decode input ≡ err unsupported))
      × ((header_decode input ≡ err unsupported) ↔ (
          ((read_header input).magic ≡ magic)
          × (((read_header input).major ≢ 1) ⊎ ((read_header input).minor ≢ 0))))
unfolding header_decode
header_decode_errors input =
    (check_header_result (read_header input), check_header-unsupported (read_header input))
