-- ===== src/Crypto.antt =====
-- src/crypto.c: keys and their wrapping. What the code asks of libsodium is the record `Sodium`; what
-- one call of a function is answered (allocations, locks, random bytes) is the record `Answers`.
-- Pointers are not NULL, and keys have the lengths that their types give.
pub mod Slots
pub mod Encrypt
pub mod Decrypt
mod Aad
mod Shapes
mod Unlock
mod Created
mod NewFile
mod Outcomes
pub mod Body
mod Tests
use pvault.Base.{
  ℕ, ◌+◌, ◌-◌, ◌^◌, ◌≡◌, Bool, true, not, ◌||◌, Option, none, some, List, [], ◌∷◌, length,
  replicate, ltb, ◌==◌, if◌then◌else◌,
}
use pvault.Header.{
  PasswordSlot, FileHeader, header_encode, opslimit_min, opslimit_max, memlimit_min, memlimit_max,
}
pub use pvault.Result.{or_fail}
use pvault.Result.{Result, ok, err, ◌>>=◌}
use pvault.Status.{Status, auth, nomem, secure_memory, state}

-- libsodium: `crypto_pwhash` (Argon2id) for a key of 32 bytes, `crypto_kdf_derive_from_key` for one of
-- 32 bytes, and XChaCha20-Poly1305 on message, associated data, nonce and key. `none` is a failure.
pub record Sodium : Type 0 where
  pub pwhash : List ℕ → List ℕ → ℕ → ℕ → List ℕ
  pub kdf : ℕ → List ℕ → List ℕ → Option (List ℕ)
  pub encrypt : List ℕ → List ℕ → List ℕ → List ℕ → Option (List ℕ)
  pub decrypt : List ℕ → List ℕ → List ℕ → List ℕ → Option (List ℕ)

-- What libsodium documents: the cipher and the key derivation succeed, the same data, nonce and key
-- open what they sealed, and the ciphertext is the message with a tag of 16 bytes.
pub record IsSodium (s : Sodium) : Type 0 where
  pub derives : (i : ℕ) (c k : List ℕ) → (d : List ℕ) × (s.kdf i c k ≡ some d)
  pub seals : (m a n k : List ℕ) → (c : List ℕ) × (s.encrypt m a n k ≡ some c)
  pub opens :
      (m a n k : List ℕ) {c : List ℕ} → s.encrypt m a n k ≡ some c → s.decrypt c a n k ≡ some m
  pub tagged :
      (m a n k : List ℕ) {c : List ℕ} → s.encrypt m a n k ≡ some c → length c ≡ length m + 16

pub record Answers : Type 0 where
  pub key_malloc : Bool
  pub key_mlock : Bool
  -- Argon2id had the memory that it takes.
  pub pwhash_memory : Bool
  -- The buffers of `pv_crypto_encrypt_body` and `pv_crypto_decrypt_body` were had and locked.
  pub body_memory : Bool
  pub salt : List ℕ
  pub nonce : List ℕ
  -- As many random bytes as are asked for.
  pub random : ℕ → List ℕ

-- Memory is there and can be locked.
pub record IsReady (a : Answers) : Type 0 where
  pub key_malloc_ok : a.key_malloc ≡ true
  pub key_mlock_ok : a.key_mlock ≡ true
  pub pwhash_ok : a.pwhash_memory ≡ true
  pub body_ok : a.body_memory ≡ true

-- `randombytes_buf` fills what it is given.
pub record IsFresh (a : Answers) : Type 0 where
  pub salt_len : length a.salt ≡ 16
  pub nonce_len : length a.nonce ≡ 24
  pub random_len : (n : ℕ) → length (a.random n) ≡ n

-- `PV_V1_PASSWORD_OPSLIMIT` and `PV_V1_PASSWORD_MEMLIMIT`
abbrev pub opslimit : ℕ
opslimit = 3

abbrev pub memlimit : ℕ
memlimit = 268435456

-- `crypto_pwhash_PASSWD_MAX`
abbrev pub passwd_max : ℕ
passwd_max = 2 ^ 32 - 1

-- `recovery_kdf_context` and `body_kdf_context`
abbrev pub recovery_kdf_context : List ℕ
recovery_kdf_context = b'P' ∷ b'V' ∷ b'R' ∷ b'E' ∷ b'C' ∷ b'V' ∷ b'0' ∷ b'1' ∷ []

abbrev pub body_kdf_context : List ℕ
body_kdf_context = b'P' ∷ b'V' ∷ b'B' ∷ b'O' ∷ b'D' ∷ b'Y' ∷ b'0' ∷ b'1' ∷ []

-- `pv_header_encode` into `serialized`, which it fills whatever that held.
abbrev pub serialized : FileHeader → List ℕ
serialized h = header_encode h (replicate 252 0)

unfoldable pub secure_key_alloc : Answers → Result (Unit {0})
secure_key_alloc a =
    if not a.key_malloc then err nomem else if not a.key_mlock then err secure_memory else ok tt

unfoldable pub password_key : Sodium → Answers → PasswordSlot → List ℕ → Result (List ℕ)
password_key s a slot password =
    if length password == 0
      || ltb passwd_max (length password)
      || ltb slot.opslimit opslimit_min
      || ltb opslimit_max slot.opslimit
      || ltb slot.memlimit memlimit_min
      || ltb memlimit_max slot.memlimit
    then err auth
    else if not a.pwhash_memory
    then err secure_memory
    else ok (s.pwhash password slot.salt slot.opslimit slot.memlimit)

unfoldable pub recovery_wrap_key : Sodium → List ℕ → Result (List ℕ)
recovery_wrap_key s recovery_key = or_fail (s.kdf 0 recovery_kdf_context recovery_key) state

unfoldable pub body_key : Sodium → List ℕ → Result (List ℕ)
body_key s vmk = or_fail (s.kdf 1 body_kdf_context vmk) state

abbrev pub of_length : ℕ → List ℕ → Status → Result (List ℕ)
of_length n bytes e = if not (length bytes == n) then err e else ok bytes

-- `wrap_vmk` and `unwrap_vmk`, with the lengths of their results
unfoldable pub wrap_vmk : Sodium → List ℕ → List ℕ → List ℕ → List ℕ → Result (List ℕ)
wrap_vmk s aad nonce key vmk =
    or_fail (s.encrypt vmk aad nonce key) state >>= λ wrapped. of_length 48 wrapped state

unfoldable pub unwrap_vmk : Sodium → List ℕ → List ℕ → List ℕ → List ℕ → Result (List ℕ)
unwrap_vmk s aad nonce key wrapped =
    or_fail (s.decrypt wrapped aad nonce key) auth >>= λ vmk. of_length 32 vmk auth
