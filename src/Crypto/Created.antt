-- ===== src/Crypto/Created.antt =====
-- src/crypto.c: the two slots of one header, made, replaced and opened.
use pvault.Base.{
  ℕ, ◌≤◌, ◌≡◌, refl, ◌∙◌, inl, inr, Bool-cases, List, length, take, arith, Option-cases, false,
  false,
}
use pvault.Crypto.{
  Sodium, IsSodium, Answers, IsReady, IsFresh, passwd_max, wrap_vmk, secure_key_alloc, password_key,
  recovery_wrap_key, serialized,
}
use pvault.Crypto.Shapes.{
  fresh_password-IsShaped, fresh_recovery-IsShaped, put_password-IsShaped, put_recovery-IsShaped,
}
use pvault.Crypto.Slots.{
  fresh_password_slot, fresh_recovery_slot, put_password_vmk, put_recovery_vmk, wrap_password,
  wrap_recovery, rewrap_password, rewrap_recovery, unlock_password, unlock_recovery, new_header,
  has_requested_id,
}
use pvault.Crypto.Unlock.{
  password_slot_made, recovery_slot_made, unlock_password-others, unlock_recovery-others,
}
use pvault.Exec.{proceed}
use pvault.Header.{FileHeader, IsShaped}
use pvault.Result.{Result, ok, Result-cases, bind-ok, then-ok}

length-wrap_vmk :
    (s : Sodium) (aad nonce key vmk w : List ℕ)
    → wrap_vmk s aad nonce key vmk ≡ ok w
    → length w ≡ 48
unfolding wrap_vmk
length-wrap_vmk s aad nonce key vmk w e = elim (Option-cases (s.encrypt vmk aad nonce key)) [
  | inl failed ↦ ground (arith, failed)
  | inr (c, sealed) ↦ ground (arith, sealed)
]

length-wrap_password :
    (s : Sodium) (a : Answers) (password vmk : List ℕ) (h : FileHeader) (w : List ℕ)
    → wrap_password s a password vmk h ≡ ok w
    → length w ≡ 48
unfolding wrap_password
length-wrap_password s a password vmk h w e =
    let wrap : List ℕ → Result (List ℕ) =
      λ key. wrap_vmk s (take 76 (serialized h)) h.password_slot.nonce key vmk in
    let (key, _, wrapped) =
      bind-ok (password_key s a h.password_slot password) wrap (then-ok (secure_key_alloc a) _ e) in
    length-wrap_vmk s (take 76 (serialized h)) h.password_slot.nonce key vmk w wrapped

length-wrap_recovery :
    (s : Sodium) (a : Answers) (recovery_key vmk : List ℕ) (h : FileHeader) (w : List ℕ)
    → wrap_recovery s a recovery_key vmk h ≡ ok w
    → length w ≡ 48
unfolding wrap_recovery
length-wrap_recovery s a recovery_key vmk h w e =
    let wrap : List ℕ → Result (List ℕ) =
      λ key. wrap_vmk s (take 44 (serialized h)) h.recovery_slot.nonce key vmk in
    let (key, _, wrapped) =
      bind-ok (recovery_wrap_key s recovery_key) wrap (then-ok (secure_key_alloc a) _ e) in
    length-wrap_vmk s (take 44 (serialized h)) h.recovery_slot.nonce key vmk w wrapped

module _ (s : Sodium) (a c : Answers) (vmk : List ℕ) (header : FileHeader) (sh : IsShaped header)
    (fresh : IsFresh a) where
  rewrap_password-recovery :
      (password recovery_key : List ℕ)
      → unlock_recovery s c recovery_key (rewrap_password s a password vmk header).1
        ≡ unlock_recovery s c recovery_key header
  unfolding rewrap_password
  rewrap_password-recovery password recovery_key =
      let h : FileHeader = fresh_password_slot a header in
      let hs : IsShaped h = fresh_password-IsShaped header sh a fresh in
      elim (Result-cases (wrap_password s a password vmk h)) [
        | inr (_, failed) ↦
            rw failed (unlock_recovery-others s c header h sh hs recovery_key refl refl)
        | inl (w, wrapped) ↦
            let made : IsShaped (put_password_vmk w h) =
              put_password-IsShaped h hs w (length-wrap_password s a password vmk h w wrapped) in
            rw wrapped (
              unlock_recovery-others s c header (put_password_vmk w h) sh made recovery_key refl
                refl)
      ]

  rewrap_recovery-password :
      (password recovery_key : List ℕ)
      → unlock_password s c password (rewrap_recovery s a recovery_key vmk header).1
        ≡ unlock_password s c password header
  unfolding rewrap_recovery
  rewrap_recovery-password password recovery_key =
      let h : FileHeader = fresh_recovery_slot a header in
      let hs : IsShaped h = fresh_recovery-IsShaped header sh a fresh in
      elim (Result-cases (wrap_recovery s a recovery_key vmk h)) [
        | inr (_, failed) ↦ rw failed (unlock_password-others s c header h sh hs password refl refl)
        | inl (w, wrapped) ↦
            let made : IsShaped (put_recovery_vmk w h) =
              put_recovery-IsShaped h hs w
                (length-wrap_recovery s a recovery_key vmk h w wrapped) in
            rw wrapped
              (unlock_password-others s c header (put_recovery_vmk w h) sh made password refl refl)
      ]

  -- On a header that fits its C type, with a salt and nonces of their lengths: whether
  -- pv_crypto_rewrap_password succeeds or fails, the recovery key unlocks afterwards what it
  -- unlocked before, and whether pv_crypto_rewrap_recovery succeeds or fails, so does the
  -- password.
  pub slots_independent :
      (password recovery_key : List ℕ)
      → (unlock_recovery s c recovery_key (rewrap_password s a password vmk header).1
          ≡ unlock_recovery s c recovery_key header)
        × (unlock_password s c password (rewrap_recovery s a recovery_key vmk header).1
            ≡ unlock_password s c password header)
  slots_independent password recovery_key = (
    rewrap_password-recovery password recovery_key,
    rewrap_recovery-password password recovery_key,
  )

pub new_header-IsShaped :
    (random_id requested_id : List ℕ)
    → length random_id ≡ 16
    → length requested_id ≡ 16
    → IsShaped (new_header random_id requested_id)
new_header-IsShaped random_id requested_id p q = record {
  magic_len = refl;
  id_len = elim (Bool-cases (has_requested_id false requested_id)) [
    | inl e ↦ rw e q
    | inr e ↦ rw e p
  ];
  salt_len = refl;
  password_nonce_len = refl;
  password_vmk_len = refl;
  recovery_nonce_len = refl;
  recovery_vmk_len = refl;
  body_nonce_len = refl;
  major_fits = omega arith;
  minor_fits = omega arith;
  header_len_fits = omega arith;
  flags_fits = omega arith;
  kdf_fits = omega arith;
  wrap_fits = omega arith;
  body_fits = omega arith;
  slots_fits = omega arith;
  opslimit_fits = omega arith;
  memlimit_fits = omega arith;
  ciphertext_fits = omega arith;
}

module _ (s : Sodium) (l : IsSodium s) (a b c : Answers) (fresh_a : IsFresh a) (fresh_b : IsFresh b)
    (ra : IsReady a) (rb : IsReady b) (rc : IsReady c) (vmk : List ℕ) (vl : length vmk ≡ 32)
    (password recovery_key : List ℕ) (low : 1 ≤ length password)
    (high : length password ≤ passwd_max) where
  -- With libsodium as documented and allocations that succeed, on a header that fits its C type,
  -- pv_crypto_rewrap_password with a password of 1 to 2^32 - 1 bytes succeeds and that password
  -- then unlocks the key that was wrapped; pv_crypto_rewrap_recovery succeeds and the recovery key
  -- then unlocks it.
  pub rewrap-unlock :
      (header : FileHeader)
      → IsShaped header
      → ((rewrap_password s a password vmk header).0 ≡ ok tt)
        × (unlock_password s c password (rewrap_password s a password vmk header).1 ≡ ok vmk)
        × ((rewrap_recovery s b recovery_key vmk header).0 ≡ ok tt)
        × (unlock_recovery s c recovery_key (rewrap_recovery s b recovery_key vmk header).1
            ≡ ok vmk)
  rewrap-unlock header sh =
      let (w, _, made, back) =
        password_slot_made s l a c fresh_a ra rc vmk vl header sh password low high in
      let (x, _, also, again) =
        recovery_slot_made s l b c fresh_b rb rc vmk vl header sh recovery_key in
      (rw made refl, rw made back, rw also refl, rw also again)

  -- `create_header`, with the id that was asked for
  unfoldable pub rewrapped : List ℕ → List ℕ → Result (Unit {0}) × FileHeader
  rewrapped random_id requested_id =
      proceed (rewrap_password s a password vmk (new_header random_id requested_id))
        (λ _. rewrap_recovery s b recovery_key vmk)

  -- The header that is made: it differs from `new_header` in the slots only.
  pub header_created :
      (random_id requested_id : List ℕ)
      → length random_id ≡ 16
      → length requested_id ≡ 16
      → (w x : List ℕ) × (let h = put_recovery_vmk x (
            fresh_recovery_slot b
              (put_password_vmk w (fresh_password_slot a (new_header random_id requested_id)))) in
          (rewrapped random_id requested_id ≡ (ok tt, h))
          × IsShaped h
          × (unlock_password s c password h ≡ ok vmk)
          × (unlock_recovery s c recovery_key h ≡ ok vmk))
  unfolding rewrapped
  header_created random_id requested_id p q =
      let h0 : FileHeader = new_header random_id requested_id in
      let s0 : IsShaped h0 = new_header-IsShaped random_id requested_id p q in
      let (w, wl, made, back) =
        password_slot_made s l a c fresh_a ra rc vmk vl h0 s0 password low high in
      let h1 : FileHeader = put_password_vmk w (fresh_password_slot a h0) in
      let s1 : IsShaped h1 =
        put_password-IsShaped (fresh_password_slot a h0) (fresh_password-IsShaped h0 s0 a fresh_a) w
          wl in
      let (x, xl, also, again) =
        recovery_slot_made s l b c fresh_b rb rc vmk vl h1 s1 recovery_key in
      let h2 : FileHeader = put_recovery_vmk x (fresh_recovery_slot b h1) in
      let s2 : IsShaped h2 =
        put_recovery-IsShaped (fresh_recovery_slot b h1) (fresh_recovery-IsShaped h1 s1 b fresh_b) x
          xl in
      (
        w,
        x,
        (
          simp (made, also) refl,
          s2,
          unlock_password-others s c h1 h2 s1 s2 password refl refl ∙ back,
          again,
        ),
      )
