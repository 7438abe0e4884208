-- ===== src/Recovery/KeyFits.antt =====
-- src/recovery.c: what a key that was read is, and the room that its text takes.
use pvault.Base.{
  ℕ, zero, suc, ◌+◌, ◌-◌, ◌/◌, ◌%◌, ◌^◌, ◌≤◌, ◌<◌, ◌≡◌, refl, sym, ap, ap₂, ◌∙◌, Bool, Bool-cases,
  Option-cases, inl, inr, true, false, not, ◌&&◌, ◌||◌, Option, none, some, List, [], ◌∷◌, ◌++◌,
  length, length-take, take, drop, take-append-drop, ltb, leb, ◌==◌, if◌then◌else◌, bytes_eq,
  bytes_eq→eq, arith, subst,
}
use pvault.Crypto.{or_fail}
use pvault.Recovery.{crockford_value}
use pvault.Recovery.Base32.{
  Acc, base32_encode, base32_decode, decode_loop, put_char, put_value, kept,
}
use pvault.Recovery.Key.{
  Hash, Memory, recovery_checksum, grouped, prefix, recovery_encode, skip_spaces, has_prefix,
  normalized, checked_key, recovery_decode,
}
use pvault.Result.{Result, ok, err, Result-cases, bind-ok, or_fail-ok, unless-ok, only_if-ok, ◌>>=◌}
use pvault.Status.{Status, auth, usage, limit, secure_memory}

put_char-some :
    (c : ℕ) (o : Option (List ℕ)) (out : List ℕ)
    → put_char c o ≡ some out
    → (rest : List ℕ) × (o ≡ some rest) × (length out ≡ suc (length rest))
put_char-some c none out h = cc
put_char-some c (some rest) out h =
    let same : c ∷ rest ≡ out = cc in (rest, refl, sym (ap length same))

-- One round of the decoder, by what the character stands for and the bits that there are then.
module _ (c : ℕ) (text : List ℕ) (s : Acc) where
  refused_char : (room : ℕ) → crockford_value c ≡ none → decode_loop (c ∷ text) room s ≡ none
  unfolding decode_loop
  refused_char room e = rw (decode_loop, e) refl

  few_bits :
      (room v : ℕ)
      → crockford_value c ≡ some v
      → leb 8 (s.bits + 5) ≡ false
      → decode_loop (c ∷ text) room s ≡ decode_loop text room (put_value v s)
  unfolding decode_loop
  few_bits room v e few = rw (decode_loop, e, few) refl

  no_room :
      (v : ℕ)
      → crockford_value c ≡ some v
      → leb 8 (s.bits + 5) ≡ true
      → decode_loop (c ∷ text) 0 s ≡ none
  unfolding decode_loop
  no_room v e full = rw (decode_loop, e, full) refl

  full_byte :
      (room v : ℕ)
      → crockford_value c ≡ some v
      → leb 8 (s.bits + 5) ≡ true
      → (let t = put_value v s in
          decode_loop (c ∷ text) (suc room) s
          ≡ put_char
              (t.buffer / 2 ^ (t.bits - 8) % 2 ^ 8)
              (decode_loop text room (kept t.buffer (t.bits - 8))))
  unfolding decode_loop
  full_byte room v e full = rw (decode_loop, e, full) refl

granted :
    (b : Bool) (out : List ℕ)
    → (if b then some [] else none) ≡ some out
    → (b ≡ true) × (length out ≡ 0)
granted true out h = let same : [] ≡ out = cc in (refl, sym (ap length same))
granted false out h = cc

no_text : (room : ℕ) (s : Acc) (out : List ℕ) → decode_loop [] room s ≡ some out → length out ≡ room
unfolding decode_loop
no_text room s out h =
    let (test, size) = granted (room == 0 && (s.bits == 0 || s.buffer == 0)) out h in
    ground (arith, size)

length-decode_loop :
    (text : List ℕ) (room : ℕ) (s : Acc) (out : List ℕ)
    → decode_loop text room s ≡ some out
    → length out ≡ room
length-decode_loop [] room s out h = no_text room s out h
length-decode_loop (c ∷ text) zero s out h = elim (Option-cases (crockford_value c)) [
  | inl unknown ↦ let none_left = sym (refused_char c text s 0 unknown) ∙ h in cc
  | inr (v, known) ↦ elim (Bool-cases (leb 8 (s.bits + 5))) [
    | inr few ↦
        length-decode_loop text 0 (put_value v s) out (sym (few_bits c text s 0 v known few) ∙ h)
    | inl full ↦ let none_left = sym (no_room c text s v known full) ∙ h in cc
  ]
]
length-decode_loop (c ∷ text) (suc room) s out h = elim (Option-cases (crockford_value c)) [
  | inl unknown ↦ let none_left = sym (refused_char c text s (suc room) unknown) ∙ h in cc
  | inr (v, known) ↦ elim (Bool-cases (leb 8 (s.bits + 5))) [
    | inr few ↦
        length-decode_loop text (suc room) (put_value v s) out
          (sym (few_bits c text s (suc room) v known few) ∙ h)
    | inl full ↦
        let (rest, later, size) =
          put_char-some _ _ out (sym (full_byte c text s room v known full) ∙ h) in
        size ∙ ap suc (length-decode_loop text room _ rest later)
  ]
]

length-base32_decode :
    (text : List ℕ) (n : ℕ) (out : List ℕ) → base32_decode text n ≡ some out → length out ≡ n
unfolding base32_decode
length-base32_decode text n out h = length-decode_loop text n _ out h

module _ (hash : Hash) (m : Memory) (vault_id material : List ℕ) where
  checked-failed :
      (e : Status)
      → recovery_checksum hash m vault_id (take 32 material) ≡ err e
      → checked_key hash m vault_id material ≡ err auth
  unfolding checked_key
  checked-failed e failed = rw (checked_key, failed) refl

  checked-made :
      (sum : List ℕ)
      → recovery_checksum hash m vault_id (take 32 material) ≡ ok sum
      → checked_key hash m vault_id material
        ≡ (if bytes_eq sum (drop 32 material) then ok (take 32 material) else err auth)
  unfolding checked_key
  checked-made sum made = rw (checked_key, made) refl

  checked_key-sum :
      (key : List ℕ)
      → checked_key hash m vault_id material ≡ ok key
      → (sum : List ℕ) × (recovery_checksum hash m vault_id key ≡ ok sum)
        × (material ≡ key ++ sum)
        × (key ≡ take 32 material)
  checked_key-sum key h =
      elim (Result-cases (recovery_checksum hash m vault_id (take 32 material))) [
        | inr (e, failed) ↦ let refusal = sym (checked-failed e failed) ∙ h in cc
        | inl (sum, made) ↦
            let (same, front) = only_if-ok _ auth _ key (sym (checked-made sum made) ∙ h) in
            (
              sum,
              ap (recovery_checksum hash m vault_id) (sym front) ∙ made,
              sym (take-append-drop 32 material)
                  ∙ ap₂ (λ s t. s ++ t) front (sym (bytes_eq→eq sum (drop 32 material) same)),
              sym front,
            )
      ]

module _ (hash : Hash) (m : Memory) (vault_id : List ℕ) where
  -- If pv_recovery_decode returns a key, the text begins with PV1R behind its spaces, what follows
  -- is the base 32 text of 37 bytes once dashes and spaces are left out, and these are the key of
  -- 32 bytes and the checksum of that key for this vault.
  pub recovery_decode-inv :
      (encoded key : List ℕ)
      → recovery_decode hash m encoded vault_id ≡ ok key
      → (text : List ℕ) × (sum : List ℕ) × (has_prefix (skip_spaces encoded) prefix ≡ true)
        × (normalized (drop 4 (skip_spaces encoded)) 0 ≡ some text)
        × (base32_decode text 37 ≡ some (key ++ sum))
        × (recovery_checksum hash m vault_id key ≡ ok sum)
        × (length key ≡ 32)
  unfolding recovery_decode
  recovery_decode-inv encoded key h =
      let after_prefix = unless-ok (not (has_prefix (skip_spaces encoded) prefix)) auth _ key h in
      let after_memory = unless-ok (not m.buffers) secure_memory _ key after_prefix.1 in
      let (text, shown, more) =
        bind-ok (or_fail (normalized (drop 4 (skip_spaces encoded)) 0) auth)
          (λ text. or_fail (base32_decode text 37) auth >>= λ material.
            checked_key hash m vault_id material)
          after_memory.1 in
      let (material, decoded, checked) =
        bind-ok (or_fail (base32_decode text 37) auth)
          (λ material. checked_key hash m vault_id material) more in
      let bytes : base32_decode text 37 ≡ some material = or_fail-ok _ auth material decoded in
      let (sum, made, whole, front) = checked_key-sum hash m vault_id material key checked in
      (
        text,
        sum,
        ground (arith, after_prefix.0),
        or_fail-ok _ auth text shown,
        bytes ∙ ap some whole,
        made,
        ap length front
            ∙ omega (arith, length-take 32 material, length-base32_decode text 37 material bytes),
      )

-- A dash before each position that five divides, but the first.
length-grouped :
    (raw : List ℕ) (i : ℕ)
    → length (grouped (suc i) raw) + (i + 5) / 5 ≤ length raw + (i + length raw + 5) / 5
unfolding grouped
length-grouped [] i = omega arith
length-grouped (c ∷ raw) i =
    let same : suc (i + 1) ≡ suc i + 1 = omega arith in
    let later : length (grouped (suc i + 1) raw) + (i + 6) / 5
        ≤ length raw + (i + length raw + 6) / 5 =
      subst
        (λ (t : ℕ). length (grouped t raw) + (i + 6) / 5 ≤ length raw + (i + length raw + 6) / 5)
        same (omega (arith, length-grouped raw (i + 1))) in
    elim (Bool-cases (ltb 0 (suc i) && suc i % 5 == 0)) [
      | inl dash ↦ rw dash (ground (arith, later))
      | inr no_dash ↦ rw no_dash (ground (arith, later))
    ]

length-grouped_all : (raw : List ℕ) → length (grouped 0 raw) ≤ length raw + length raw / 5
unfolding grouped
length-grouped_all [] = omega arith
length-grouped_all (c ∷ raw) = omega (arith, length-grouped raw 0)

module _ (hash : Hash) (m : Memory) (vault_id key : List ℕ) where
  -- If pv_recovery_encode returns a text, that text and the 0 behind it fit the buffer.
  pub recovery_encode-fits :
      (encoded_len : ℕ) (text : List ℕ)
      → recovery_encode hash m vault_id key encoded_len ≡ ok text
      → length text < encoded_len
  unfolding recovery_encode
  recovery_encode-fits encoded_len text h =
      let after_usage = unless-ok (ltb encoded_len 16) usage _ text h in
      let after_memory = unless-ok (not m.buffers) secure_memory _ text after_usage.1 in
      let write : List ℕ → Result (List ℕ) = λ raw.
        if length raw == 0 || leb encoded_len (5 + length raw + length raw / 5)
        then err limit
        else ok (prefix ++ (b'-' ∷ grouped 0 raw)) in
      let (sum, _, more) =
        bind-ok (recovery_checksum hash m vault_id key)
          (λ sum. or_fail (base32_encode (key ++ sum) 80) limit >>= write) after_memory.1 in
      let (raw, _, last) = bind-ok (or_fail (base32_encode (key ++ sum) 80) limit) write more in
      let (room, same) =
        unless-ok (length raw == 0 || leb encoded_len (5 + length raw + length raw / 5)) limit
          (ok (prefix ++ (b'-' ∷ grouped 0 raw))) text last in
      let made : prefix ++ (b'-' ∷ grouped 0 raw) ≡ text = cc in
      let size : length text ≡ length (grouped 0 raw) + 5 = ap length (sym made) ∙ omega arith in
      ground (arith, size, room, length-grouped_all raw)
