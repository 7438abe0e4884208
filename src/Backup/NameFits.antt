-- ===== src/Backup/NameFits.antt =====
-- src/store.c: what `parse_automatic_backup_name` accepts.
use pvault.Backup.{decimal, lowercase_hex_value, byte_of, id_bytes, parse_digits}
use native.Mathlib.Nat.{div-div-eq-div-mul}
use pvault.Base.{
  ℕ, zero, suc, ◌+◌, ◌-◌, ◌*◌, ◌/◌, ◌%◌, ◌^◌, ◌<◌, ◌≤◌, ◌≡◌, refl, sym, ap, ap₂, ◌∙◌, inl, inr,
  some, List, [], ◌∷◌, ◌++◌, All, length, take, Option-cases, arith, bit_and,
}
use pvault.Base.Bits.{bit_and_mask}
use pvault.Base.Words.{IsByte}
use pvault.Util.HexBack.{character, put_first_inv}
use pvault.Util.Hex.{alphabet, char_at, hex_digits}

value_of : (c d : ℕ) → lowercase_hex_value c ≡ some d → (d < 16) × (c ≡ char_at alphabet d)
unfolding lowercase_hex_value
value_of c d e = let small : d < 16 = ground arith in (small, ground (arith, character d small))

pair_read :
    (c d b : ℕ)
    → byte_of (lowercase_hex_value c) (lowercase_hex_value d) ≡ some b
    → IsByte b × (c ≡ char_at alphabet (b / 2 ^ 4)) × (d ≡ char_at alphabet (bit_and b 0x0f))
pair_read c d b e = elim (Option-cases (lowercase_hex_value c)) [
  | inl bad ↦ absurd (ground arith)
  | inr (high, first) ↦ elim (Option-cases (lowercase_hex_value d)) [
    | inl bad ↦ absurd (ground arith)
    | inr (low, second) ↦
        let (h, same) = value_of c high first in
        let (l, same') = value_of d low second in
        let sum : b ≡ high * 16 + low = ground arith in
        let upper : b / 2 ^ 4 ≡ high = omega arith in
        let lower : bit_and b 0x0f ≡ low = bit_and_mask 4 b ∙ omega arith in
        (
          omega arith,
          same ∙ ap (char_at alphabet) (sym upper),
          same' ∙ ap (char_at alphabet) (sym lower),
        )
  ]
]

two_more : (n : ℕ) → suc n * 2 ≡ suc (suc (n * 2))
two_more n = omega arith

pub id_bytes_inv :
    (n : ℕ) (name bytes : List ℕ)
    → id_bytes n name ≡ some bytes
    → (length bytes ≡ n) × All IsByte bytes × (take (n * 2) name ≡ hex_digits bytes)
unfolding id_bytes hex_digits
id_bytes_inv zero name bytes e = let empty : bytes ≡ [] = cc in rw empty (refl, tt, refl)
id_bytes_inv (suc n) [] bytes e = absurd (ground arith)
id_bytes_inv (suc n) (c ∷ []) bytes e = absurd (ground arith)
id_bytes_inv (suc n) (c ∷ d ∷ name) bytes e =
    let (b, more, pair, rest, same) =
      put_first_inv (byte_of (lowercase_hex_value c) (lowercase_hex_value d)) (id_bytes n name)
        bytes e in
    let (small, first, second) = pair_read c d b pair in
    let (sized, smalls, text) = id_bytes_inv n name more rest in
    rw same (
      omega arith,
      (small, smalls),
      ap (λ (k : ℕ). take k (c ∷ d ∷ name)) (two_more n) ∙ (λ i. first i ∷ second i ∷ text i),
    )

div_back : (n value : ℕ) → value / 10 ^ suc n ≡ value / 10 ^ n / 10
div_back n value =
    let next : 10 ^ suc n ≡ 10 ^ n * 10 = omega arith in
    ap (λ (k : ℕ). value / k) next ∙ sym (div-div-eq-div-mul value (10 ^ n) 10)

div_front : (n value : ℕ) → value / 10 ^ suc n ≡ value / 10 / 10 ^ n
div_front n value =
    let next : 10 ^ suc n ≡ 10 * 10 ^ n = omega arith in
    ap (λ (k : ℕ). value / k) next ∙ sym (div-div-eq-div-mul value 10 (10 ^ n))

-- The digit in front.
decimal-suc : (n value : ℕ) → decimal (suc n) value ≡ (b'0' + value / 10 ^ n % 10) ∷ decimal n value
unfolding decimal
decimal-suc zero value = ap (λ (q : ℕ). (b'0' + q % 10) ∷ []) (omega arith)
decimal-suc (suc n) value =
    let last = (b'0' + value % 10) ∷ [] in
    ap (λ (digits : List ℕ). digits ++ last) (decimal-suc n (value / 10))
    ∙ ap (λ (q : ℕ). (b'0' + q % 10) ∷ (decimal n (value / 10) ++ last)) (sym (div_front n value))

pub digits_inv :
    (digits : List ℕ) (value read : ℕ)
    → value < 2 ^ 64
    → parse_digits value digits ≡ some read
    → (digits ≡ decimal (length digits) read)
      × (read / 10 ^ length digits ≡ value)
      × (read < 2 ^ 64)
unfolding parse_digits decimal
digits_inv [] value read small e =
    let same : read ≡ value = ground arith in (refl, omega arith, omega arith)
digits_inv (c ∷ digits) value read small e =
    let next = (value * 10 + (c - b'0')) % 2 ^ 64 in
    let step : parse_digits next digits ≡ some read = ground arith in
    let low : b'0' ≤ c = ground arith in
    let high : c ≤ b'9' = ground arith in
    let fits : value ≤ (2 ^ 64 - 1 - (c - b'0')) / 10 = ground arith in
    let (same, whole, bounded) = digits_inv digits next read (omega arith) step in
    let digit : c ≡ b'0' + read / 10 ^ length digits % 10 = omega arith in
    (
      ap₂ (λ (x : ℕ) (xs : List ℕ). x ∷ xs) digit same ∙ sym (decimal-suc (length digits) read),
      div_back (length digits) read ∙ omega arith,
      bounded,
    )
