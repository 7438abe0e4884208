-- ===== src/Recovery/Tests.antt =====
-- Runs of base 32, and the theorems of recovery keys at a stand-in for the hash.
use pvault.Base.{
  ℕ, ◌<◌, ◌≡◌, refl, true, some, List, [], ◌∷◌, ◌++◌, length, replicate, drop, arith, bytes_eq, All,
}
use pvault.Recovery.{crockford_value}
use pvault.Recovery.Back.{base32_decode-base32_encode}
use pvault.Recovery.Base32.{base32_encode, base32_decode}
use pvault.Recovery.Key.{
  Hash, Memory, recovery_checksum, recovery_encode, recovery_decode, skip_spaces, has_prefix,
  prefix, normalized, grouped, checked_key,
}
use pvault.Recovery.KeyBack.{recovery_decode-encode}
use pvault.Recovery.KeyFits.{recovery_decode-inv, recovery_encode-fits}
use pvault.Recovery.Letters.{IsPlain}
use pvault.Recovery.Rounds.{needed}
use pvault.Result.{Result, ok, err}
use pvault.Status.{auth}

-- Two bytes are four characters, the last of them filled up with zeros.
two_bytes : base32_encode (0xff ∷ 0x01 ∷ []) 80 ≡ some (b'Z' ∷ b'W' ∷ b'0' ∷ b'G' ∷ [])
unfolding base32_encode
two_bytes = refl

-- The letter O is read as 0, and small letters as large ones.
lenient : base32_decode (b'z' ∷ b'w' ∷ b'O' ∷ b'g' ∷ []) 2 ≡ some (0xff ∷ 0x01 ∷ [])
unfolding base32_decode crockford_value
lenient = refl

base32_decode-base32_encode_example :
    (text : List ℕ) × (base32_encode (0xff ∷ 0x01 ∷ []) 80 ≡ some text)
    × (length text ≡ needed (0xff ∷ 0x01 ∷ []) 0)
    × All IsPlain text
    × (base32_decode text (length {A = ℕ} (0xff ∷ 0x01 ∷ [])) ≡ some (0xff ∷ 0x01 ∷ []))
base32_decode-base32_encode_example =
    base32_decode-base32_encode (0xff ∷ 0x01 ∷ []) 80 (omega arith) (omega arith)

abbrev toy_hash : Hash
toy_hash bytes = some (replicate 32 (length bytes))

abbrev memory : Memory
memory = record { buffers = true; workspace = true }

abbrev vault_id : List ℕ
vault_id = replicate 16 3

abbrev key : List ℕ
key = replicate 32 200

recovery_decode-encode_example :
    (text : List ℕ) × (recovery_encode toy_hash memory vault_id key 128 ≡ ok text)
    × (recovery_decode toy_hash memory text vault_id ≡ ok key)
recovery_decode-encode_example =
    recovery_decode-encode toy_hash memory vault_id key (replicate 32 48) 128 refl refl refl
      (omega arith) (omega arith) refl (omega arith) (omega arith)

-- The key's text.
abbrev key_text : Result (List ℕ)
key_text = recovery_encode toy_hash memory vault_id key 128

abbrev shown : List ℕ
shown = elim key_text [ ok text ↦ text | err e ↦ [] ]

reads_shown : recovery_decode toy_hash memory shown vault_id ≡ ok key
unfolding recovery_encode recovery_decode recovery_checksum grouped normalized crockford_value
    bytes_eq base32_encode base32_decode checked_key
reads_shown = refl

key_text_shown : recovery_encode toy_hash memory vault_id key 128 ≡ ok shown
unfolding recovery_encode recovery_checksum grouped base32_encode
key_text_shown = refl

-- With another hash the checksum is refused.
other_hash : recovery_decode (λ bytes. some bytes) memory shown vault_id ≡ err auth
unfolding recovery_encode recovery_decode recovery_checksum grouped normalized crockford_value
    bytes_eq base32_encode base32_decode checked_key
other_hash = refl

recovery_decode-inv_example :
    (text : List ℕ) × (sum : List ℕ) × (has_prefix (skip_spaces shown) prefix ≡ true)
    × (normalized (drop 4 (skip_spaces shown)) 0 ≡ some text)
    × (base32_decode text 37 ≡ some (key ++ sum))
    × (recovery_checksum toy_hash memory vault_id key ≡ ok sum)
    × (length key ≡ 32)
recovery_decode-inv_example = recovery_decode-inv toy_hash memory vault_id shown key reads_shown

recovery_encode-fits_example : length shown < 128
recovery_encode-fits_example =
    recovery_encode-fits toy_hash memory vault_id key 128 shown key_text_shown
