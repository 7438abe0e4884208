-- ===== src/Crypto/Decrypt.antt =====
-- src/crypto.c: `pv_crypto_decrypt_body`.
use pvault.Base.{ℕ, ◌+◌, ◌-◌, ◌%◌, not, ◌||◌, List, length, take, drop, ltb, ◌==◌, if◌then◌else◌}
use pvault.Base.Words.{get_u32_le}
use pvault.Crypto.{Sodium, Answers, or_fail, serialized, secure_key_alloc, body_key}
use pvault.Header.{FileHeader, max_plaintext, body_tag_bytes}
use pvault.Result.{Result, ok, err, ◌>>=◌, ◌>>◌}
use pvault.Status.{auth, format, secure_memory}

-- The plaintext in the decoded pages.
unfoldable pub content : List ℕ → Result (List ℕ)
content decoded =
    if ltb (length decoded) 4
      || ltb max_plaintext (length decoded)
      || not (length decoded % 4096 == 0)
    then err format
    else (let content_len = get_u32_le (take 4 decoded) in
        if ltb (length decoded - 4) content_len || content_len == 0
        then err format
        else ok (take content_len (drop 4 decoded)))

-- `pv_crypto_decrypt_body`
unfoldable pub decrypt_body : Sodium → Answers → List ℕ → FileHeader → List ℕ → Result (List ℕ)
decrypt_body s a vmk h ciphertext =
    if not (length ciphertext == h.body_ciphertext_len)
      || ltb (length ciphertext) (4096 + body_tag_bytes)
      || not ((length ciphertext - body_tag_bytes) % 4096 == 0)
    then err format
    else secure_key_alloc a
      >> (body_key s vmk >>= λ key.
          (if not a.body_memory then err secure_memory else ok tt)
          >> (or_fail (s.decrypt ciphertext (serialized h) h.body_nonce key) auth >>= λ decoded.
              content decoded))
