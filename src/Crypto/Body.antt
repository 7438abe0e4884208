-- ===== src/Crypto/Body.antt =====
-- src/crypto.c: `pv_crypto_encrypt_body`, then `pv_crypto_decrypt_body`.
use pvault.Base.{
  ℕ, ◌+◌, ◌-◌, ◌%◌, ◌^◌, ◌≤◌, ◌<◌, not, ◌||◌, ◌==◌, false, true, ◌≡◌, refl, sym, ap, ◌∙◌, inl, inr,
  some, List, [], ◌++◌, length, length-append, take, drop, take-append_length, drop-append_length,
  ltb, Bool-cases, if◌then◌else◌, arith,
}
use pvault.Base.Bits.{bit_and_mask}
use pvault.Base.Words.{put_u32_le, get_u32-put_u32, get_u32_le}
use pvault.Crypto.{
  Sodium, IsSodium, Answers, IsReady, IsFresh, body_key, body_kdf_context, serialized,
}
use pvault.Crypto.Decrypt.{content, decrypt_body}
use pvault.Crypto.Encrypt.{whole_pages, padded, body_header, seal, encrypt_body}
use pvault.Crypto.Unlock.{key_alloc-IsReady}
use pvault.Header.{FileHeader, max_plaintext}
use pvault.Result.{ok}
use pvault.Util.{size_add}

-- The least multiple of 4096 from the length on.
pub whole_pages_lem :
    (n : ℕ)
    → n ≤ max_plaintext
    → (n ≤ whole_pages n) × (whole_pages n < n + 4096) × (whole_pages n % 4096 ≡ 0)
whole_pages_lem n h =
    let mask = bit_and_mask 12 ((n + 4095) % 2 ^ 64) in
    (omega (arith, mask), omega (arith, mask), omega (arith, mask))

length-put_u32_le : (v : ℕ) → length (put_u32_le v) ≡ 4
unfolding put_u32_le
length-put_u32_le v = refl

module _ (a : Answers) (fresh : IsFresh a) (plaintext : List ℕ) (raw pages : ℕ)
    (raw_is : raw ≡ length plaintext + 4) (small : raw ≤ max_plaintext) where
  rest : List ℕ
  rest = if ltb raw pages then a.random (pages - raw) else []

  length-rest : length rest ≡ pages - raw
  unfolding rest
  length-rest = elim (Bool-cases (ltb raw pages)) [
    | inl more ↦ rw more (fresh.random_len (pages - raw))
    | inr none_left ↦ rw none_left (ground arith)
  ]

  length-padded : raw ≤ pages → length (padded a plaintext raw pages) ≡ pages
  unfolding padded rest
  length-padded h = omega (
    arith,
    length-append (put_u32_le (length plaintext % 2 ^ 32)) (plaintext ++ rest),
    length-append plaintext rest,
    length-put_u32_le (length plaintext % 2 ^ 32),
    length-rest,
  )

  content-padded :
      1 ≤ length plaintext
      → raw ≤ pages
      → pages ≤ max_plaintext
      → pages % 4096 ≡ 0
      → content (padded a plaintext raw pages) ≡ ok plaintext
  unfolding content padded rest
  content-padded some_text low high whole = rw (length-padded low, word, text) (ground arith)
    where
      head : List ℕ
      head = put_u32_le (length plaintext % 2 ^ 32)

      word : get_u32_le (take 4 (padded a plaintext raw pages)) ≡ length plaintext
      word =
          ap get_u32_le (take-append_length 4 head (plaintext ++ rest) (sym (length-put_u32_le _)))
          ∙ get_u32-put_u32 (length plaintext % 2 ^ 32) (omega arith)
          ∙ omega arith

      text : take (length plaintext) (drop 4 (padded a plaintext raw pages)) ≡ plaintext
      text =
          ap (take (length plaintext))
            (drop-append_length 4 head (plaintext ++ rest) (sym (length-put_u32_le _)))
          ∙ take-append_length (length plaintext) plaintext rest refl

body_key-derived :
    (s : Sodium) → IsSodium s → (vmk : List ℕ) → (d : List ℕ) × (body_key s vmk ≡ ok d)
unfolding body_key
body_key-derived s l vmk = let (d, e) = l.derives 1 body_kdf_context vmk in (d, rw e refl)

size_add-small : (n : ℕ) → n + 4 ≤ max_plaintext → size_add n 4 ≡ some (n + 4)
unfolding size_add
size_add-small n h = ground arith

module _ (s : Sodium) (a : Answers) (vmk plaintext : List ℕ) (header : FileHeader) where
  -- The tests that a text of a good size passes.
  encrypt_body-seal :
      (raw pages : ℕ) (key : List ℕ)
      → 1 ≤ length plaintext
      → length plaintext + 4 ≡ raw
      → raw ≤ max_plaintext
      → whole_pages raw ≡ pages
      → 1 ≤ pages
      → pages ≤ max_plaintext
      → IsReady a
      → body_key s vmk ≡ ok key
      → encrypt_body s a vmk plaintext header
        ≡ seal s a key pages (padded a plaintext raw pages) header
  unfolding encrypt_body
  encrypt_body-seal raw pages key low raw_is small pages_is positive top r keyed =
      let nonempty : (length plaintext == 0) ≡ false = ground arith in
      let fits : ltb max_plaintext raw ≡ false = ground arith in
      let paged : (pages == 0 || ltb max_plaintext pages) ≡ false = ground arith in
      let sum : size_add (length plaintext) 4 ≡ some raw =
        size_add-small (length plaintext) (omega arith) ∙ ap some raw_is in
      simp (nonempty, sum, fits, pages_is, paged, key_alloc-IsReady a r, keyed, r.body_ok) refl

  seal-ok :
      (pages : ℕ) (key message c : List ℕ)
      → s.encrypt message (serialized (body_header a pages header)) a.nonce key ≡ some c
      → length c ≡ pages + 16
      → seal s a key pages message header ≡ (ok c, body_header a pages header)
  unfolding seal
  seal-ok pages key message c sealed cl =
      let same : (length c == pages + 16) ≡ true = ground arith in rw (sealed, same) refl

  decrypt_body-content :
      (pages : ℕ) (key message c : List ℕ)
      → s.decrypt c (serialized header) header.body_nonce key ≡ some message
      → length c ≡ header.body_ciphertext_len
      → length c ≡ pages + 16
      → 4096 ≤ pages
      → pages % 4096 ≡ 0
      → IsReady a
      → body_key s vmk ≡ ok key
      → decrypt_body s a vmk header c ≡ content message
  unfolding decrypt_body
  decrypt_body-content pages key message c opened cl size low whole r keyed =
      let good : (not (length c == header.body_ciphertext_len)
            || ltb (length c) 4112
            || not ((length c - 16) % 4096 == 0))
          ≡ false =
        ground arith in
      simp (good, key_alloc-IsReady a r, keyed, r.body_ok, opened) refl

module _ (s : Sodium) (l : IsSodium s) (a b : Answers) (fresh : IsFresh a) (ra : IsReady a)
    (rb : IsReady b) (vmk plaintext : List ℕ) (low : 1 ≤ length plaintext)
    (high : length plaintext + 4 ≤ max_plaintext) (header : FileHeader) where
  -- The pages that the text takes, and the two calls on them.
  pub body_made :
      (c : List ℕ) × (let pages = whole_pages (length plaintext + 4) in
        (encrypt_body s a vmk plaintext header ≡ (ok c, body_header a pages header))
        × (decrypt_body s b vmk (body_header a pages header) c ≡ ok plaintext)
        × (length c ≡ pages + 16)
        × (length plaintext + 4 ≤ pages)
        × (pages < length plaintext + 4 + 4096)
        × (pages % 4096 ≡ 0)
        × (pages ≤ max_plaintext))
  body_made =
      let raw : ℕ = length plaintext + 4 in
      let pages : ℕ = whole_pages raw in
      let (more, near, whole) = whole_pages_lem raw high in
      let top : pages ≤ max_plaintext = omega arith in
      let h : FileHeader = body_header a pages header in
      let message : List ℕ = padded a plaintext raw pages in
      let size : length message ≡ pages =
        length-padded a fresh plaintext raw pages refl high more in
      let (key, keyed) = body_key-derived s l vmk in
      let (c, sealed) = l.seals message (serialized h) a.nonce key in
      let cl : length c ≡ pages + 16 =
        l.tagged message (serialized h) a.nonce key sealed ∙ ap (λ (n : ℕ). n + 16) size in
      (
        c,
        (
          encrypt_body-seal s a vmk plaintext header raw pages key low refl high refl (omega arith)
                top ra keyed
              ∙ seal-ok s a vmk plaintext header pages key message c sealed cl,
          decrypt_body-content s b vmk plaintext h pages key message c
                (l.opens message (serialized h) a.nonce key sealed) cl cl (omega arith) whole rb
                keyed
              ∙ content-padded a fresh plaintext raw pages refl high low more top whole,
          cl,
          more,
          near,
          whole,
          top,
        ),
      )

  -- With libsodium as documented and allocations that succeed, pv_crypto_encrypt_body of a text of
  -- at least one byte that fits the plaintext limit with its length of 4 bytes succeeds with whole
  -- pages of 4096 bytes and a tag of 16, fewer than 4096 bytes more than the text, its length and
  -- the tag, and pv_crypto_decrypt_body returns the text.
  pub encrypt-decrypt :
      (c : List ℕ) × (h : FileHeader) × (encrypt_body s a vmk plaintext header ≡ (ok c, h))
      × (decrypt_body s b vmk h c ≡ ok plaintext)
      × (length c % 4096 ≡ 16)
      × (length plaintext + 20 ≤ length c)
      × (length c < length plaintext + 20 + 4096)
  encrypt-decrypt =
      let (c, (sealed, opened, size, more, near, whole, top)) = body_made in
      (c, _, sealed, opened, omega arith, omega arith, omega arith)
