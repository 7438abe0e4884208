-- ===== src/Crypto/Unlock.antt =====
-- src/crypto.c: what the two slots wrap, they give back.
use pvault.Base.{ℕ, ◌≤◌, ◌≡◌, refl, sym, ap, ap₂, ◌∙◌, List, ◌++◌, length, take, arith}
use pvault.Crypto.{
  Sodium, IsSodium, Answers, IsReady, IsFresh, passwd_max, opslimit, memlimit, serialized,
  secure_key_alloc, password_key, recovery_wrap_key, recovery_kdf_context, wrap_vmk, unwrap_vmk,
}
use pvault.Crypto.Aad.{
  common_fields, slot_fields, password_fields, password_aad_lem, recovery_aad_lem,
}
use pvault.Crypto.Shapes.{
  fresh_password-IsShaped, fresh_recovery-IsShaped, put_password-IsShaped, put_recovery-IsShaped,
}
use pvault.Header.Layout.{flat}
use pvault.Crypto.Slots.{
  fresh_password_slot, fresh_recovery_slot, put_password_vmk, put_recovery_vmk, wrap_password,
  wrap_recovery, rewrap_password, rewrap_recovery, unlock_password, unlock_recovery,
}
use pvault.Header.{
  FileHeader, PasswordSlot, RecoverySlot, IsShaped, opslimit_min, opslimit_max, memlimit_min,
  memlimit_max,
}
use pvault.Result.{Result, ok, ◌>>=◌, ◌>>◌}

pub key_alloc-IsReady : (a : Answers) → IsReady a → secure_key_alloc a ≡ ok tt
unfolding secure_key_alloc
key_alloc-IsReady a r = rw (r.key_malloc_ok, r.key_mlock_ok) refl

-- Parameters and a password that `password_key` takes.
pub record IsKeyed (slot : PasswordSlot) (password : List ℕ) : Type 0 where
  pub some_password : 1 ≤ length password
  pub password_fits : length password ≤ passwd_max
  pub opslimit_low : opslimit_min ≤ slot.opslimit
  pub opslimit_high : slot.opslimit ≤ opslimit_max
  pub memlimit_low : memlimit_min ≤ slot.memlimit
  pub memlimit_high : slot.memlimit ≤ memlimit_max

pub password_key-IsKeyed :
    (s : Sodium) (a : Answers) (slot : PasswordSlot) (password : List ℕ)
    → IsReady a
    → IsKeyed slot password
    → password_key s a slot password ≡ ok (s.pwhash password slot.salt slot.opslimit slot.memlimit)
unfolding password_key
password_key-IsKeyed s a slot password r k = rw r.pwhash_ok (ground arith)

new_slot-IsKeyed :
    (slot : PasswordSlot) (password : List ℕ)
    → slot.opslimit ≡ opslimit
    → slot.memlimit ≡ memlimit
    → 1 ≤ length password
    → length password ≤ passwd_max
    → IsKeyed slot password
new_slot-IsKeyed slot password o m low high = record {
  some_password = low;
  password_fits = high;
  opslimit_low = omega arith;
  opslimit_high = omega arith;
  memlimit_low = omega arith;
  memlimit_high = omega arith;
}

module _ (s : Sodium) (l : IsSodium s) where
  -- A wrapped key has 48 bytes and is unwrapped with what wrapped it.
  pub wrap_vmk-unwrap :
      (aad nonce key vmk : List ℕ)
      → length vmk ≡ 32
      → (w : List ℕ) × (wrap_vmk s aad nonce key vmk ≡ ok w)
        × (length w ≡ 48)
        × (unwrap_vmk s aad nonce key w ≡ ok vmk)
  unfolding wrap_vmk unwrap_vmk
  wrap_vmk-unwrap aad nonce key vmk vl =
      let (w, sealed) = l.seals vmk aad nonce key in
      let wl : length w ≡ 48 = omega (arith, l.tagged vmk aad nonce key sealed) in
      (w, rw (sealed, wl) refl, wl, rw (l.opens vmk aad nonce key sealed, vl) refl)

  pub recovery_key-derived : (key : List ℕ) → (d : List ℕ) × (recovery_wrap_key s key ≡ ok d)
  unfolding recovery_wrap_key
  recovery_key-derived key = let (d, e) = l.derives 0 recovery_kdf_context key in (d, rw e refl)

-- What a slot gives depends on the fixed fields and on that slot only.
module _ (s : Sodium) (a : Answers) (h h' : FileHeader) (sh : IsShaped h) (sh' : IsShaped h') where
  pub unlock_password-others :
      (password : List ℕ)
      → common_fields h' ≡ common_fields h
      → h'.password_slot ≡ h.password_slot
      → unlock_password s a password h' ≡ unlock_password s a password h
  unfolding unlock_password
  unlock_password-others password common slot =
      ap₂ unlocked slot (password_aad_lem h' sh' ∙ fields ∙ sym (password_aad_lem h sh))
    where
      unlocked : PasswordSlot → List ℕ → Result (List ℕ)
      unlocked slot aad =
          secure_key_alloc a
          >> (password_key s a slot password >>= λ key.
              unwrap_vmk s aad slot.nonce key slot.wrapped_vmk)

      fields :
          flat (common_fields h' ++ password_fields h')
          ≡ flat (common_fields h ++ password_fields h)
      fields = ap₂ (λ c (p : PasswordSlot). flat (c ++ slot_fields p)) common slot

  pub unlock_recovery-others :
      (recovery_key : List ℕ)
      → common_fields h' ≡ common_fields h
      → h'.recovery_slot ≡ h.recovery_slot
      → unlock_recovery s a recovery_key h' ≡ unlock_recovery s a recovery_key h
  unfolding unlock_recovery
  unlock_recovery-others recovery_key common slot =
      ap₂ unlocked slot (recovery_aad_lem h' sh' ∙ ap flat common ∙ sym (recovery_aad_lem h sh))
    where
      unlocked : RecoverySlot → List ℕ → Result (List ℕ)
      unlocked slot aad =
          secure_key_alloc a
          >> (recovery_wrap_key s recovery_key >>= λ key.
              unwrap_vmk s aad slot.nonce key slot.wrapped_vmk)

-- One slot after its own wrapping.
module _ (s : Sodium) (l : IsSodium s) (a b : Answers) (fresh : IsFresh a) (ra : IsReady a)
    (rb : IsReady b) (vmk : List ℕ) (vl : length vmk ≡ 32) (header : FileHeader)
    (sh : IsShaped header) where
  -- The new slot, what the call returns, and what unlocking returns then.
  pub password_slot_made :
      (password : List ℕ)
      → 1 ≤ length password
      → length password ≤ passwd_max
      → (w : List ℕ) × (length w ≡ 48)
        × (rewrap_password s a password vmk header
            ≡ (ok tt, put_password_vmk w (fresh_password_slot a header)))
        × (unlock_password s b password (put_password_vmk w (fresh_password_slot a header))
            ≡ ok vmk)
  unfolding rewrap_password wrap_password unlock_password
  password_slot_made password low high =
      let h : FileHeader = fresh_password_slot a header in
      let hs : IsShaped h = fresh_password-IsShaped header sh a fresh in
      let key : List ℕ = s.pwhash password a.salt opslimit memlimit in
      let (w, wrapped, wl, back) =
        wrap_vmk-unwrap s l (take 76 (serialized h)) a.nonce key vmk vl in
      let h' : FileHeader = put_password_vmk w h in
      (
        w,
        wl,
        rw
            (
              key_alloc-IsReady a ra,
              password_key-IsKeyed s a h.password_slot password ra
                  (new_slot-IsKeyed h.password_slot password refl refl low high),
              wrapped,
            )
            refl,
        rw
            (
              key_alloc-IsReady b rb,
              password_key-IsKeyed s b h'.password_slot password rb
                  (new_slot-IsKeyed h'.password_slot password refl refl low high),
              password_aad_lem h' (put_password-IsShaped h hs w wl) ∙ sym (password_aad_lem h hs),
              back,
            )
            refl,
      )

  pub recovery_slot_made :
      (recovery_key : List ℕ)
      → (w : List ℕ) × (length w ≡ 48)
        × (rewrap_recovery s a recovery_key vmk header
            ≡ (ok tt, put_recovery_vmk w (fresh_recovery_slot a header)))
        × (unlock_recovery s b recovery_key (put_recovery_vmk w (fresh_recovery_slot a header))
            ≡ ok vmk)
  unfolding rewrap_recovery wrap_recovery unlock_recovery
  recovery_slot_made recovery_key =
      let h : FileHeader = fresh_recovery_slot a header in
      let hs : IsShaped h = fresh_recovery-IsShaped header sh a fresh in
      let (key, derived) = recovery_key-derived s l recovery_key in
      let (w, wrapped, wl, back) =
        wrap_vmk-unwrap s l (take 44 (serialized h)) a.nonce key vmk vl in
      (
        w,
        wl,
        rw (key_alloc-IsReady a ra, derived, wrapped) refl,
        rw
            (
              key_alloc-IsReady b rb,
              derived,
              recovery_aad_lem (put_recovery_vmk w h) (put_recovery-IsShaped h hs w wl)
                  ∙ sym (recovery_aad_lem h hs),
              back,
            )
            refl,
      )
