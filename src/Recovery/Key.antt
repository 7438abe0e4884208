-- ===== src/Recovery/Key.antt =====
-- src/recovery.c: `recovery_checksum`, `pv_recovery_encode`, `pv_recovery_generate` and
-- `pv_recovery_decode`. The hash is libsodium's `crypto_generichash`, of what its calls of `update` are
-- given one after the other; `none` is a failure. The pointers are not NULL.
use pvault.Base.{
  ℕ, ◌+◌, ◌/◌, ◌%◌, Bool, true, false, not, ◌&&◌, ◌||◌, Option, none, some, List, [], ◌∷◌, ◌++◌,
  length, take, drop, ltb, leb, ◌==◌, if◌then◌else◌, bytes_eq,
}
use pvault.Crypto.{or_fail}
use pvault.Recovery.{toupper, isspace}
use pvault.Recovery.Base32.{base32_encode, base32_decode, put_char}
use pvault.Result.{Result, ok, err, ◌>>=◌}
use pvault.Status.{usage, auth, limit, secure_memory, state}

abbrev pub Hash : Type 0
Hash = List ℕ → Option (List ℕ)

-- What `recovery_secure_alloc` answers: the two buffers of a call, and that of the checksum.
pub record Memory : Type 0 where
  pub buffers : Bool
  pub workspace : Bool

unfoldable pub recovery_checksum : Hash → Memory → List ℕ → List ℕ → Result (List ℕ)
recovery_checksum hash m vault_id key =
    if not m.workspace
    then err secure_memory
    else or_fail (hash (vault_id ++ key)) state >>= λ digest. ok (take 5 digest)

-- Groups of five characters; the number is the position in `raw`.
unfoldable pub grouped : ℕ → List ℕ → List ℕ
grouped i [] = []
grouped i (c ∷ raw) =
    let rest = grouped (i + 1) raw in if ltb 0 i && i % 5 == 0 then b'-' ∷ (c ∷ rest) else c ∷ rest

abbrev pub prefix : List ℕ
prefix = b'P' ∷ b'V' ∷ b'1' ∷ b'R' ∷ []

-- `pv_recovery_encode`
unfoldable pub recovery_encode : Hash → Memory → List ℕ → List ℕ → ℕ → Result (List ℕ)
recovery_encode hash m vault_id key encoded_len =
    if ltb encoded_len 16
    then err usage
    else if not m.buffers
    then err secure_memory
    else recovery_checksum hash m vault_id key >>= λ sum.
        or_fail (base32_encode (key ++ sum) 80) limit >>= λ raw.
        if length raw == 0 || leb encoded_len (5 + length raw + length raw / 5)
        then err limit
        else ok (prefix ++ (b'-' ∷ grouped 0 raw))

-- `pv_recovery_generate`, with the key that is drawn
unfoldable pub recovery_generate : Hash → Memory → List ℕ → List ℕ → ℕ → Result (List ℕ) × List ℕ
recovery_generate hash m vault_id random encoded_len =
    (recovery_encode hash m vault_id random encoded_len, random)

abbrev pub skip_spaces : List ℕ → List ℕ
skip_spaces [] = []
skip_spaces (c ∷ cs) = if isspace c then skip_spaces cs else c ∷ cs

-- `strncasecmp(text, prefix, length) == 0`, where the prefix has that length
abbrev pub has_prefix : List ℕ → List ℕ → Bool
has_prefix text [] = true
has_prefix [] (p ∷ ps) = false
has_prefix (c ∷ cs) (p ∷ ps) = toupper c == toupper p && has_prefix cs ps

-- The text without dashes and spaces in upper case, behind `pos` characters of a buffer of 80.
unfoldable pub normalized : List ℕ → ℕ → Option (List ℕ)
normalized [] pos = some []
normalized (c ∷ cs) pos = elim (not (c == b'-') && not (isspace c)) [
  | false ↦ normalized cs pos
  | true ↦ elim (leb 80 (pos + 1)) [
    | true ↦ none
    | false ↦ put_char (toupper c) (normalized cs (pos + 1))
  ]
]

-- The key in the bytes that were read, if its checksum stands behind it.
unfoldable pub checked_key : Hash → Memory → List ℕ → List ℕ → Result (List ℕ)
checked_key hash m vault_id material = elim (recovery_checksum hash m vault_id (take 32 material)) [
  | err e ↦ err auth
  | ok expected ↦ if bytes_eq expected (drop 32 material) then ok (take 32 material) else err auth
]

-- `pv_recovery_decode`
unfoldable pub recovery_decode : Hash → Memory → List ℕ → List ℕ → Result (List ℕ)
recovery_decode hash m encoded vault_id =
    let cursor = skip_spaces encoded in
    if not (has_prefix cursor prefix)
    then err auth
    else if not m.buffers
    then err secure_memory
    else or_fail (normalized (drop 4 cursor) 0) auth >>= λ text.
        or_fail (base32_decode text 37) auth >>= λ material. checked_key hash m vault_id material
