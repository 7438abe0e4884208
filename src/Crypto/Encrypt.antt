-- ===== src/Crypto/Encrypt.antt =====
-- src/crypto.c: `pv_crypto_encrypt_body`.
use pvault.Base.{ℕ, ◌+◌, ◌-◌, ◌%◌, ◌^◌, not, ◌||◌, List, [], ◌++◌, length, ltb, ◌==◌, if◌then◌else◌}
use pvault.Base.Bits.{and_not}
use pvault.Base.Words.{put_u32_le}
use pvault.Crypto.{Sodium, Answers, or_fail, serialized, secure_key_alloc, body_key, of_length}
use pvault.Exec.{Exec, refuse_if, lift, ◌>>=◌, ◌>>◌}
use pvault.Header.{FileHeader, max_plaintext, body_tag_bytes}
use pvault.Result
use pvault.Status.{usage, limit, secure_memory, state}
use pvault.Util.{size_add}

-- `(raw_len + 4095U) & ~((size_t)4095U)`
abbrev pub whole_pages : ℕ → ℕ
whole_pages raw_len = and_not ((raw_len + 4095) % 2 ^ 64) 4095

-- The message: the length of the plaintext, the plaintext, and random bytes up to a whole page.
unfoldable pub padded : Answers → List ℕ → ℕ → ℕ → List ℕ
padded a plaintext raw_len padded_len =
    put_u32_le (length plaintext % 2 ^ 32)
    ++ (plaintext ++ (if ltb raw_len padded_len then a.random (padded_len - raw_len) else []))

-- The header with the nonce and the length of a new body.
abbrev pub body_header : Answers → ℕ → FileHeader → FileHeader
body_header a padded_len h = record h {
  body_nonce = a.nonce;
  body_ciphertext_len = padded_len + body_tag_bytes;
}

-- The header is written first, since all of it is authenticated.
unfoldable pub seal : Sodium → Answers → List ℕ → ℕ → List ℕ → Exec FileHeader (List ℕ)
seal s a key padded_len message header =
    let h = body_header a padded_len header in
    (
      Result.◌>>=◌ (or_fail (s.encrypt message (serialized h) h.body_nonce key) state)
          (λ ciphertext. of_length h.body_ciphertext_len ciphertext state),
      h,
    )

-- `pv_crypto_encrypt_body`
unfoldable pub encrypt_body : Sodium → Answers → List ℕ → List ℕ → Exec FileHeader (List ℕ)
encrypt_body s a vmk plaintext =
    refuse_if (length plaintext == 0) usage
    >> (lift (or_fail (size_add (length plaintext) 4) limit) >>= λ raw_len.
        refuse_if (ltb max_plaintext raw_len) limit
        >> (let padded_len = whole_pages raw_len in
            refuse_if (padded_len == 0 || ltb max_plaintext padded_len) limit
            >> lift (secure_key_alloc a)
            >> (lift (body_key s vmk) >>= λ key.
                refuse_if (not a.body_memory) secure_memory
                >> seal s a key padded_len (padded a plaintext raw_len padded_len))))
