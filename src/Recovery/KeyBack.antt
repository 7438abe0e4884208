-- ===== src/Recovery/KeyBack.antt =====
-- src/recovery.c: a recovery key that was written is read back, and only a key with its checksum is
-- read.
use pvault.Base.{
  ℕ, ◌+◌, ◌%◌, ◌≤◌, ◌<◌, ◌≡◌, refl, sym, ap, ◌∙◌, Bool-cases, inl, inr, true, false, ◌&&◌, some,
  List, [], ◌∷◌, ◌++◌, length, length-append, length-take, take, drop, take-append_length,
  drop-append_length, ltb, leb, ◌==◌, bytes_eq_refl, All, All-append, All-take, arith, subst,
}
use pvault.Base.Words.{IsByte}
use pvault.Recovery.Back.{base32_decode-base32_encode}
use pvault.Recovery.Base32.{base32_decode, put_char}
use pvault.Recovery.Key.{
  Hash, Memory, recovery_checksum, grouped, prefix, recovery_encode, normalized, checked_key,
  recovery_decode,
}
use pvault.Recovery.Letters.{IsPlain}
use pvault.Result.{ok}

normalized-nil : (pos : ℕ) → normalized [] pos ≡ some []
unfolding normalized
normalized-nil pos = refl

normalized-dash : (cs : List ℕ) (pos : ℕ) → normalized (b'-' ∷ cs) pos ≡ normalized cs pos
unfolding normalized
normalized-dash cs pos = refl

normalized-plain :
    (c : ℕ) (cs : List ℕ) (pos : ℕ)
    → IsPlain c
    → pos + 1 < 80
    → normalized (c ∷ cs) pos ≡ put_char c (normalized cs (pos + 1))
unfolding normalized
normalized-plain c cs pos p room =
    let more : leb 80 (pos + 1) ≡ false = ground arith in
    rw (normalized, p.no_dash, p.no_space, more, p.upper) refl

normalized-grouped :
    (raw : List ℕ) (i pos : ℕ)
    → All IsPlain raw
    → pos + length raw ≤ 79
    → normalized (grouped i raw) pos ≡ some raw
unfolding grouped
normalized-grouped [] i pos p room = normalized-nil pos
normalized-grouped (c ∷ raw) i pos (p, ps) room =
    let plain : normalized (c ∷ grouped (i + 1) raw) pos ≡ some (c ∷ raw) =
      normalized-plain c (grouped (i + 1) raw) pos p (omega arith)
      ∙ ap (put_char c) (normalized-grouped raw (i + 1) (pos + 1) ps (omega arith)) in
    elim (Bool-cases (ltb 0 i && i % 5 == 0)) [
      | inl dash ↦ rw dash (normalized-dash (c ∷ grouped (i + 1) raw) pos ∙ plain)
      | inr no_dash ↦ rw no_dash plain
    ]

module _ (hash : Hash) (m : Memory) (vault_id key : List ℕ) where
  checksum-ready :
      (digest : List ℕ)
      → m.workspace ≡ true
      → hash (vault_id ++ key) ≡ some digest
      → recovery_checksum hash m vault_id key ≡ ok (take 5 digest)
  unfolding recovery_checksum
  checksum-ready digest ready hashed = rw (ready, hashed) refl

  checked_key-own :
      (sum : List ℕ)
      → length key ≡ 32
      → recovery_checksum hash m vault_id key ≡ ok sum
      → checked_key hash m vault_id (key ++ sum) ≡ ok key
  unfolding checked_key
  checked_key-own sum kl made =
      let front : take 32 (key ++ sum) ≡ key = take-append_length 32 key sum (sym kl) in
      let back : drop 32 (key ++ sum) ≡ sum = drop-append_length 32 key sum (sym kl) in
      rw (checked_key, front, made, back, bytes_eq_refl sum) (ap ok front)

  read_back :
      (raw material : List ℕ)
      → m.buffers ≡ true
      → All IsPlain raw
      → length raw ≤ 79
      → base32_decode raw 37 ≡ some material
      → recovery_decode hash m (prefix ++ (b'-' ∷ grouped 0 raw)) vault_id
        ≡ checked_key hash m vault_id material
  unfolding recovery_decode
  read_back raw material ready plain short decoded =
      let text : normalized (b'-' ∷ grouped 0 raw) 0 ≡ some raw =
        normalized-dash (grouped 0 raw) 0 ∙ normalized-grouped raw 0 0 plain (omega arith) in
      rw (ready, text, decoded) refl

  -- For a key of 32 bytes, a hash whose digest of the vault's id and the key has 5 bytes or more,
  -- memory, and room for more than 77 characters, pv_recovery_encode returns a text that
  -- pv_recovery_decode reads as that key.
  pub recovery_decode-encode :
      (digest : List ℕ) (encoded_len : ℕ)
      → m.buffers ≡ true
      → m.workspace ≡ true
      → hash (vault_id ++ key) ≡ some digest
      → 5 ≤ length digest
      → All IsByte digest
      → length key ≡ 32
      → All IsByte key
      → 77 < encoded_len
      → (text : List ℕ) × (recovery_encode hash m vault_id key encoded_len ≡ ok text)
        × (recovery_decode hash m text vault_id ≡ ok key)
  unfolding recovery_encode
  recovery_decode-encode digest encoded_len ready ready' hashed dl db kl kb room =
      let sum : List ℕ = take 5 digest in
      let made : recovery_checksum hash m vault_id key ≡ ok sum =
        checksum-ready digest ready' hashed in
      let bytes : All IsByte (key ++ sum) =
        All-append IsByte key sum kb (All-take IsByte 5 digest db) in
      let size : length (key ++ sum) ≡ 37 =
        omega (arith, length-append key sum, length-take 5 digest) in
      let (raw, written, rl, plain, back) =
        base32_decode-base32_encode (key ++ sum) 80 bytes (omega arith) in
      let sixty : length raw ≡ 60 = omega arith in
      let low : ltb encoded_len 16 ≡ false = ground arith in
      let high : leb encoded_len 77 ≡ false = ground arith in
      (
        prefix ++ (b'-' ∷ grouped 0 raw),
        rw (low, made, written, sixty, high, ready) refl,
        read_back raw (key ++ sum) ready plain (omega arith)
              (subst (λ (n : ℕ). base32_decode raw n ≡ some (key ++ sum)) size back)
            ∙ checked_key-own sum kl made,
      )
