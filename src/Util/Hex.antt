-- ===== src/Util/Hex.antt =====
-- src/util.c: `pv_hex_encode`, `hex_value`, `pv_hex_decode` and `ascii_fold`.
use pvault.Base.{
  ℕ, zero, suc, ◌+◌, ◌-◌, ◌*◌, ◌/◌, ◌%◌, ◌^◌, not, ◌&&◌, Option, none, some, List, [], ◌∷◌, length,
  get_elem?, ltb, leb, ◌==◌, if◌then◌else◌, bit_or, bit_and,
}

abbrev pub alphabet : List ℕ
alphabet =
    b'0' ∷ b'1' ∷ b'2' ∷ b'3' ∷ b'4' ∷ b'5' ∷ b'6' ∷ b'7' ∷ b'8' ∷ b'9' ∷ b'a' ∷ b'b' ∷ b'c' ∷ b'd'
    ∷ b'e' ∷ b'f' ∷ []

-- `text[i]`, where i is always within the text.
abbrev pub char_at : List ℕ → ℕ → ℕ
char_at text i = elim (get_elem? text i) [ none ↦ 0 | some c ↦ c ]

-- The loop of `pv_hex_encode`.
unfoldable pub hex_digits : List ℕ → List ℕ
hex_digits [] = []
hex_digits (b ∷ bytes) =
    char_at alphabet (b / 2 ^ 4) ∷ char_at alphabet (bit_and b 0x0f) ∷ hex_digits bytes

-- `pv_hex_encode` into an output of `output_len` characters: the string that is there then, or
-- `none` where there is no room for any. The input is not NULL.
unfoldable pub hex_encode : List ℕ → ℕ → Option (List ℕ)
hex_encode input output_len =
    if output_len == 0
    then none
    else if ltb ((output_len - 1) / 2) (length input)
    then some []
    else some (hex_digits input)

-- `ascii_fold`
unfoldable pub ascii_fold : ℕ → ℕ
ascii_fold c = if leb b'A' c && leb c b'Z' then c + (b'a' - b'A') else c

-- `hex_value`; `none` is -1.
unfoldable pub hex_value : ℕ → Option ℕ
hex_value c =
    if leb b'0' c && leb c b'9'
    then some (c - b'0')
    else if leb b'a' c && leb c b'f'
    then some (c - b'a' + 10)
    else if leb b'A' c && leb c b'F'
    then some (c - b'A' + 10)
    else none

-- `(uint8_t)((unsigned)high << 4U) | (uint8_t)low`
abbrev pub hex_pair : Option ℕ → Option ℕ → Option ℕ
hex_pair none low = none
hex_pair (some high) none = none
hex_pair (some high) (some low) = some (bit_or ((high * 2 ^ 4) % 2 ^ 8) low)

abbrev pub put_first : Option ℕ → Option (List ℕ) → Option (List ℕ)
put_first none rest = none
put_first (some b) none = none
put_first (some b) (some rest) = some (b ∷ rest)

-- The loop of `pv_hex_decode` over `n` pairs of characters; they are there.
unfoldable pub hex_bytes : ℕ → List ℕ → Option (List ℕ)
unfolding hex_value
hex_bytes zero input = some []
hex_bytes (suc n) [] = none
hex_bytes (suc n) (high ∷ []) = none
hex_bytes (suc n) (high ∷ low ∷ input) =
    let rest = hex_bytes n input in put_first (hex_pair (hex_value high) (hex_value low)) rest

-- `pv_hex_decode` of a string into an output of `output_len` bytes; `none` is the answer `false`.
unfoldable pub hex_decode : List ℕ → ℕ → Option (List ℕ)
hex_decode input output_len =
    if not (length input == (output_len * 2) % 2 ^ 64) then none else hex_bytes output_len input
