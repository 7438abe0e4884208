-- ===== src/Util/HexBack.antt =====
-- Hexadecimal text of src/util.c: what `pv_hex_decode` accepts, against `pv_hex_encode`.
use pvault.Base.{
  ℕ, zero, suc, ◌+◌, ◌-◌, ◌*◌, ◌/◌, ◌%◌, ◌^◌, ◌<◌, ◌≡◌, ◌↔◌, refl, sym, ap, ◌∙◌, inl, inr, false,
  not, Option, none, some, List, [], ◌∷◌, All, length, map, length-map, ltb, ◌==◌, if◌then◌else◌,
  Option-cases, arith, bit_or, bit_and,
}
use pvault.Base.Bits.{bit_or_low, bit_and_mask}
use pvault.Base.Tried.{tried, tried-lt}
use pvault.Base.Words.{IsByte}
use pvault.Util.Hex.{
  alphabet, char_at, hex_digits, hex_value, hex_pair, put_first, hex_bytes, hex_decode, hex_encode,
  ascii_fold,
}

-- The characters are those of the digits and of the letters from a on.
pub character :
    (d : ℕ) → d < 16 → char_at alphabet d ≡ (if ltb d 10 then b'0' + d else b'a' + (d - 10))
unfolding tried
character d h = ground (
  arith,
  tried-lt (λ d. char_at alphabet d == (if ltb d 10 then b'0' + d else b'a' + (d - 10))) 16 d refl
      h,
)

value_of : (c d : ℕ) → hex_value c ≡ some d → (d < 16) × (ascii_fold c ≡ char_at alphabet d)
unfolding hex_value ascii_fold
value_of c d e = let small : d < 16 = ground arith in (small, ground (arith, character d small))

value_for : (c d : ℕ) → d < 16 → ascii_fold c ≡ char_at alphabet d → hex_value c ≡ some d
unfolding hex_value ascii_fold
value_for c d small e = ground (arith, character d small)

nibbles :
    (high low : ℕ) → high < 16 → low < 16 → (bit_or ((high * 2 ^ 4) % 2 ^ 8) low ≡ high * 16 + low)
nibbles high low h l = ground (arith, bit_or_low 4 high low)

-- A pair of characters is read as the byte that is written as it.
pair_read :
    (c d b : ℕ)
    → hex_pair (hex_value c) (hex_value d) ≡ some b
    → IsByte b
      × (ascii_fold c ≡ char_at alphabet (b / 2 ^ 4))
      × (ascii_fold d ≡ char_at alphabet (bit_and b 0x0f))
pair_read c d b e = elim (Option-cases (hex_value c)) [
  | inl bad ↦ absurd (ground arith)
  | inr (high, first) ↦ elim (Option-cases (hex_value d)) [
    | inl bad ↦ absurd (ground arith)
    | inr (low, second) ↦
        let (h, folded) = value_of c high first in
        let (l, folded') = value_of d low second in
        let sum : b ≡ high * 16 + low = ground (arith, nibbles high low h l) in
        let upper : b / 2 ^ 4 ≡ high = omega arith in
        let lower : bit_and b 0x0f ≡ low = bit_and_mask 4 b ∙ omega arith in
        (
          omega arith,
          folded ∙ ap (char_at alphabet) (sym upper),
          folded' ∙ ap (char_at alphabet) (sym lower),
        )
  ]
]

pair_written :
    (c d b : ℕ)
    → IsByte b
    → ascii_fold c ≡ char_at alphabet (b / 2 ^ 4)
    → ascii_fold d ≡ char_at alphabet (bit_and b 0x0f)
    → hex_pair (hex_value c) (hex_value d) ≡ some b
pair_written c d b h p q =
    let mask : bit_and b 0x0f ≡ b % 16 = bit_and_mask 4 b in
    let low : bit_and b 0x0f < 16 = omega arith in
    rw (value_for c (b / 2 ^ 4) (omega arith) p, value_for d (bit_and b 0x0f) low q)
      (ap some (nibbles (b / 2 ^ 4) (bit_and b 0x0f) (omega arith) low ∙ omega arith))

abbrev Reads : ℕ → List ℕ → List ℕ → Type 0
Reads n input bytes =
    (length bytes ≡ n) × All IsByte bytes × (map ascii_fold input ≡ hex_digits bytes)

cons_inv : {a b : ℕ} {xs ys : List ℕ} → (a ∷ xs) ≡ (b ∷ ys) → (a ≡ b) × (xs ≡ ys)
cons_inv e = (cc, cc)

pub put_first_inv :
    (o : Option ℕ) (rest : Option (List ℕ)) (bytes : List ℕ)
    → put_first o rest ≡ some bytes
    → (b : ℕ) × (more : List ℕ) × (o ≡ some b) × (rest ≡ some more) × (bytes ≡ b ∷ more)
put_first_inv none rest bytes e = absurd (ground arith)
put_first_inv (some b) none bytes e = absurd (ground arith)
put_first_inv (some b) (some more) bytes e = (b, more, refl, refl, cc)

bytes_read :
    (n : ℕ) (input bytes : List ℕ)
    → length input ≡ n * 2
    → hex_bytes n input ≡ some bytes
    → Reads n input bytes
unfolding hex_bytes hex_digits
bytes_read zero [] bytes h e = let empty : bytes ≡ [] = cc in rw empty (refl, tt, refl)
bytes_read zero (c ∷ input) bytes h e = absurd (omega arith)
bytes_read (suc n) [] bytes h e = absurd (omega arith)
bytes_read (suc n) (c ∷ []) bytes h e = absurd (omega arith)
bytes_read (suc n) (c ∷ d ∷ input) bytes h e =
    let (b, more, pair, rest, same) =
      put_first_inv (hex_pair (hex_value c) (hex_value d)) (hex_bytes n input) bytes e in
    let (small, first, second) = pair_read c d b pair in
    let (sized, smalls, text) = bytes_read n input more (omega arith) rest in
    rw same (omega arith, (small, smalls), λ i. first i ∷ second i ∷ text i)

bytes_written :
    (n : ℕ) (input bytes : List ℕ) → Reads n input bytes → hex_bytes n input ≡ some bytes
unfolding hex_bytes hex_digits
bytes_written zero input [] r = refl
bytes_written zero input (b ∷ bytes) (sized, small, text) = absurd (omega arith)
bytes_written (suc n) input [] (sized, small, text) = absurd (omega arith)
bytes_written (suc n) [] (b ∷ bytes) (sized, small, text) = absurd (cc)
bytes_written (suc n) (c ∷ []) (b ∷ bytes) (sized, small, text) = absurd (cc)
bytes_written (suc n) (c ∷ d ∷ input) (b ∷ bytes) (sized, (small, smalls), text) =
    let (first, text') = cons_inv text in
    let (second, text'') = cons_inv text' in
    rw (
      pair_written c d b small first second,
      bytes_written n input bytes (omega arith, smalls, text''),
    )

pub length-digits : (bytes : List ℕ) → length (hex_digits bytes) ≡ length bytes * 2
unfolding hex_digits
length-digits [] = refl
length-digits (b ∷ bytes) = omega (arith, length-digits bytes)

-- For an output of fewer than 2^63 bytes, pv_hex_decode stores exactly the bytes that fill it and
-- whose lower-case hexadecimal text is the input in lower case; everything else it refuses.
pub hex_decode_iff :
    (input bytes : List ℕ) (n : ℕ)
    → n < 2 ^ 63
    → (hex_decode input n ≡ some bytes)
      ↔ ((length bytes ≡ n) × All IsByte bytes × (map ascii_fold input ≡ hex_digits bytes))
unfolding hex_decode
hex_decode_iff input bytes n small = (
  λ e. bytes_read n input bytes (ground arith) (ground arith),
  λ r.
      let sized : (length input ≡ n * 2) =
        sym (length-map ascii_fold input)
        ∙ ap length r.2
        ∙ length-digits bytes
        ∙ omega (arith, r.0) in
      let accepted : not (length input == (n * 2) % 2 ^ 64) ≡ false = ground arith in
      rw accepted (bytes_written n input bytes r),
)

digit-folded : (d : ℕ) → d < 16 → ascii_fold (char_at alphabet d) ≡ char_at alphabet d
unfolding ascii_fold
digit-folded d h = ground (arith, character d h)

digits-folded :
    (bytes : List ℕ) → All IsByte bytes → map ascii_fold (hex_digits bytes) ≡ hex_digits bytes
unfolding hex_digits
digits-folded [] h = refl
digits-folded (b ∷ bytes) (h, hs) =
    let high = digit-folded (b / 2 ^ 4) (omega arith) in
    let low = digit-folded (bit_and b 0x0f) (omega (arith, bit_and_mask 4 b)) in
    λ i. high i ∷ low i ∷ digits-folded bytes hs i

-- With room for the text and its end, pv_hex_encode of fewer than 2^63 bytes writes a text that
-- pv_hex_decode reads as the same bytes.
pub hex_decode-hex_encode :
    (bytes : List ℕ) (output_len : ℕ)
    → All IsByte bytes
    → length bytes * 2 < output_len
    → length bytes < 2 ^ 63
    → (text : List ℕ) × (hex_encode bytes output_len ≡ some text)
      × (length text < output_len)
      × (hex_decode text (length bytes) ≡ some bytes)
unfolding hex_encode
hex_decode-hex_encode bytes output_len h room small = (
  hex_digits bytes,
  ground arith,
  omega (arith, length-digits bytes),
  (hex_decode_iff (hex_digits bytes) bytes (length bytes) small).1 (refl, h, digits-folded bytes h),
)
