-- ===== src/Crypto/Tests.antt =====
-- A stand-in for libsodium that keeps what is documented, and the theorems of the keys and of the
-- body at it.
use pvault.Base.{
  ℕ, ◌+◌, ◌-◌, ◌%◌, ◌≤◌, ◌<◌, ◌≡◌, ◌⊎◌, refl, sym, ap, ◌∙◌, true, some, none, List, [], ◌∷◌, ◌++◌,
  length, length-append, take, drop, take-append_length, drop-append_length, replicate, bytes_eq,
  bytes_eq_refl, if◌then◌else◌, subst, length-replicate, arith, false,
}
use pvault.Base.Zeros.{id_is_zero}
use pvault.Crypto.{Sodium, IsSodium, Answers, IsReady, IsFresh, serialized}
use pvault.Crypto.Body.{encrypt-decrypt}
use pvault.Crypto.Created.{new_header-IsShaped, slots_independent, rewrap-unlock}
use pvault.Crypto.Decrypt.{decrypt_body}
use pvault.Crypto.Encrypt.{encrypt_body}
use pvault.Crypto.NewFile.{new_file-opens}
use pvault.Result.Ends.{Ends}
use pvault.Crypto.Outcomes.{IsText, UnlockError, BodyError, unlock_outcomes, decrypt_outcomes}
use pvault.Crypto.Slots.{
  new_header, rewrap_password, rewrap_recovery, create_header, unlock_password, unlock_recovery,
}
use pvault.Header.{FileHeader, IsShaped, header_decode}
use pvault.Result.{ok}
use pvault.Status.{auth, nomem, secure_memory}

abbrev sum : List ℕ → ℕ
sum [] = 0
sum (b ∷ bs) = b + sum bs

-- A tag that the associated data, the nonce and the key determine.
abbrev tag : List ℕ → List ℕ → List ℕ → List ℕ
tag a n k = replicate 16 (sum (a ++ n ++ k) % 256)

abbrev toy : Sodium
toy = record {
  pwhash = λ password salt opslimit memlimit. password ++ salt;
  kdf = λ i context key. some (i ∷ context ++ key);
  encrypt = λ m a n k. some (m ++ tag a n k);
  decrypt = λ c a n k.
      if bytes_eq (drop (length c - 16) c) (tag a n k) then some (take (length c - 16) c) else none;
}

length-sealed : (m t : List ℕ) → length t ≡ 16 → length (m ++ t) - 16 ≡ length m
length-sealed m t h = omega (arith, length-append m t)

toy_opens : (m a n k : List ℕ) → toy.decrypt (m ++ tag a n k) a n k ≡ some m
toy_opens m a n k =
    let size = length-sealed m (tag a n k) refl in
    let back : drop (length (m ++ tag a n k) - 16) (m ++ tag a n k) ≡ tag a n k =
      drop-append_length _ m (tag a n k) size in
    let front : take (length (m ++ tag a n k) - 16) (m ++ tag a n k) ≡ m =
      take-append_length _ m (tag a n k) size in
    rw (back, front, bytes_eq_refl (tag a n k)) refl

toy-IsSodium : IsSodium toy
toy-IsSodium = record {
  derives = λ i c k. (_, refl);
  seals = λ m a n k. (_, refl);
  opens = λ m a n k {c} e.
      let same : m ++ tag a n k ≡ c = cc in
      subst (λ x. toy.decrypt x a n k ≡ some m) same (toy_opens m a n k);
  tagged = λ m a n k {c} e.
      let same : m ++ tag a n k ≡ c = cc in ap length (sym same) ∙ length-append m (tag a n k);
}

abbrev drawn : Answers
drawn = record {
  key_malloc = true;
  key_mlock = true;
  pwhash_memory = true;
  body_memory = true;
  salt = replicate 16 7;
  nonce = replicate 24 9;
  random = λ n. replicate n 1;
}

drawn-IsFresh : IsFresh drawn
drawn-IsFresh = record { salt_len = refl; nonce_len = refl; random_len = λ n. length-replicate n 1 }

drawn-IsReady : IsReady drawn
drawn-IsReady = record {
  key_malloc_ok = refl;
  key_mlock_ok = refl;
  pwhash_ok = refl;
  body_ok = refl;
}

abbrev vmk : List ℕ
vmk = replicate 32 5

abbrev password : List ℕ
password = b'a' ∷ b'b' ∷ []

abbrev recovery_key : List ℕ
recovery_key = replicate 32 6

abbrev text : List ℕ
text = b'x' ∷ b'y' ∷ b'z' ∷ []

abbrev random_id : List ℕ
random_id = replicate 16 3

abbrev blank : FileHeader
blank = new_header random_id (replicate 16 0)

blank-IsShaped : IsShaped blank
blank-IsShaped = new_header-IsShaped random_id (replicate 16 0) refl refl

id_drawn : id_is_zero random_id ≡ false
unfolding id_is_zero
id_drawn = refl

new_file-opens_example :
    (h1 : FileHeader) × (h2 : FileHeader) × (body : List ℕ) × (create_header toy drawn drawn
        random_id password recovery_key vmk blank
      ≡ (ok tt, h1))
    × (encrypt_body toy drawn vmk text h1 ≡ (ok body, h2))
    × (header_decode (serialized h2) ≡ ok h2)
    × (unlock_password toy drawn password h2 ≡ ok vmk)
    × (unlock_recovery toy drawn recovery_key h2 ≡ ok vmk)
    × (decrypt_body toy drawn vmk h2 body ≡ ok text)
new_file-opens_example =
    new_file-opens toy toy-IsSodium drawn drawn drawn drawn drawn-IsFresh drawn-IsFresh
      drawn-IsFresh drawn-IsReady drawn-IsReady drawn-IsReady drawn-IsReady vmk refl password
      recovery_key text random_id (omega arith) (omega arith) (omega arith) (omega arith) refl
      id_drawn blank refl

rewrap-unlock_example :
    ((rewrap_password toy drawn password vmk blank).0 ≡ ok tt)
    × (unlock_password toy drawn password (rewrap_password toy drawn password vmk blank).1 ≡ ok vmk)
    × ((rewrap_recovery toy drawn recovery_key vmk blank).0 ≡ ok tt)
    × (unlock_recovery toy drawn recovery_key (rewrap_recovery toy drawn recovery_key vmk blank).1
        ≡ ok vmk)
rewrap-unlock_example =
    rewrap-unlock toy toy-IsSodium drawn drawn drawn drawn-IsFresh drawn-IsFresh drawn-IsReady
      drawn-IsReady drawn-IsReady vmk refl password recovery_key (omega arith) (omega arith) blank
      blank-IsShaped

slots_independent_example :
    (unlock_recovery toy drawn recovery_key (rewrap_password toy drawn password vmk blank).1
      ≡ unlock_recovery toy drawn recovery_key blank)
    × (unlock_password toy drawn password (rewrap_recovery toy drawn recovery_key vmk blank).1
        ≡ unlock_password toy drawn password blank)
slots_independent_example =
    slots_independent toy drawn drawn vmk blank blank-IsShaped drawn-IsFresh password recovery_key

encrypt-decrypt_example :
    (c : List ℕ) × (h : FileHeader) × (encrypt_body toy drawn vmk text blank ≡ (ok c, h))
    × (decrypt_body toy drawn vmk h c ≡ ok text)
    × (length c % 4096 ≡ 16)
    × (length text + 20 ≤ length c)
    × (length c < length text + 20 + 4096)
encrypt-decrypt_example =
    encrypt-decrypt toy toy-IsSodium drawn drawn drawn-IsFresh drawn-IsReady drawn-IsReady vmk text
      (omega arith) (omega arith) blank

unlock_outcomes_example :
    Ends
      (λ key. length key ≡ 32)
      (λ e. (e ≡ nomem) ⊎ (e ≡ secure_memory) ⊎ (e ≡ auth))
      (unlock_password toy drawn password blank)
    × Ends (λ key. length key ≡ 32) UnlockError (unlock_recovery toy drawn recovery_key blank)
unlock_outcomes_example = unlock_outcomes toy drawn password recovery_key blank

decrypt_outcomes_example : Ends IsText BodyError (decrypt_body toy drawn vmk blank text)
decrypt_outcomes_example = decrypt_outcomes toy drawn vmk blank text
