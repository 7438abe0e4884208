-- ===== src/Recovery/Base32.antt =====
-- src/recovery.c: `base32_encode` and `base32_decode`.
use pvault.Base.{
  ℕ, zero, suc, ◌+◌, ◌-◌, ◌*◌, ◌/◌, ◌%◌, ◌^◌, ◌&&◌, ◌||◌, Bool, true, false, Option, none, some,
  List, [], ◌∷◌, ltb, leb, ◌==◌, if◌then◌else◌, bit_and, bit_or,
}
use pvault.Recovery.{crockford_alphabet, crockford_value}
use pvault.Util.Hex.{char_at}

-- The local variables `buffer`, a word of 32 bits, and `bits`.
pub record Acc : Type 0 where
  pub buffer : ℕ
  pub bits : ℕ

-- The buffer when `bits` are left in it.
abbrev pub kept : ℕ → ℕ → Acc
kept buffer bits = record {
  buffer = if bits == 0 then 0 else bit_and buffer (2 ^ bits % 2 ^ 32 - 1);
  bits = bits;
}

-- The input that is left and the buffer, after the first `if` of the loop.
abbrev pub take_byte : List ℕ → Acc → List ℕ × Acc
take_byte [] s = ([], s)
take_byte (b ∷ bytes) s =
    if ltb s.bits 5
    then (bytes, record { buffer = bit_or ((s.buffer * 2 ^ 8) % 2 ^ 32) b; bits = s.bits + 8 })
    else (b ∷ bytes, s)

-- The second `if`.
abbrev pub fill : Acc → Acc
fill s =
    if ltb s.bits 5 then record { buffer = (s.buffer * 2 ^ (5 - s.bits)) % 2 ^ 32; bits = 5 } else s

abbrev pub is_empty : List ℕ → Bool
is_empty [] = true
is_empty (b ∷ bytes) = false

abbrev pub put_char : ℕ → Option (List ℕ) → Option (List ℕ)
put_char c none = none
put_char c (some text) = some (c ∷ text)

-- The loop of `base32_encode`, with room for as many characters and the 0 behind them. `none` stands
-- for the early `return 0`.
unfoldable pub encode_loop : ℕ → List ℕ → Acc → Option (List ℕ)
encode_loop zero input s = if is_empty input && s.bits == 0 then some [] else none
encode_loop (suc room) input s =
    let (rest, taken) = take_byte input s in
    let t = fill taken in
    let left = encode_loop room rest (kept t.buffer (t.bits - 5)) in
    if is_empty input && s.bits == 0
    then some []
    else put_char (char_at crockford_alphabet (bit_and (t.buffer / 2 ^ (t.bits - 5)) 31)) left

-- `base32_encode` into `cap` characters, at least one.
unfoldable pub base32_encode : List ℕ → ℕ → Option (List ℕ)
unfolding encode_loop
base32_encode input cap = encode_loop (cap - 1) input (record { buffer = 0; bits = 0 })

-- `(buffer << 5U) | (uint32_t)value`
abbrev pub put_value : ℕ → Acc → Acc
put_value value s = record {
  buffer = bit_or ((s.buffer * 2 ^ 5) % 2 ^ 32) value;
  bits = s.bits + 5;
}

-- The loop of `base32_decode`, with room for as many bytes; `none` is the answer `false`.
unfoldable pub decode_loop : List ℕ → ℕ → Acc → Option (List ℕ)
decode_loop [] room s = if room == 0 && (s.bits == 0 || s.buffer == 0) then some [] else none
decode_loop (c ∷ text) room s = elim (crockford_value c) [
  | none ↦ none
  | some value ↦
      let t = put_value value s in
      elim (leb 8 t.bits) [
        | false ↦ decode_loop text room t
        | true ↦ elim room [
          | zero ↦ none
          | suc more ↦
              put_char (t.buffer / 2 ^ (t.bits - 8) % 2 ^ 8)
                (decode_loop text more (kept t.buffer (t.bits - 8)))
        ]
      ]
]

-- `base32_decode` into exactly `output_len` bytes.
unfoldable pub base32_decode : List ℕ → ℕ → Option (List ℕ)
unfolding decode_loop
base32_decode text output_len = decode_loop text output_len (record { buffer = 0; bits = 0 })
