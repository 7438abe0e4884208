-- ===== src/Recovery/Encoded.antt =====
-- src/recovery.c: one round of each base 32 loop in arithmetic.
use native.Mathlib.Nat.{pow-le-pow_right, mod-eq_of_lt}
use pvault.Base.{
  ℕ, zero, suc, ◌+◌, ◌-◌, ◌*◌, ◌/◌, ◌%◌, ◌^◌, ◌≤◌, ◌<◌, ◌≡◌, refl, ap, ap₂, ◌∙◌, true, false,
  Bool-cases, inl, inr, Option, some, List, [], ◌∷◌, ltb, leb, ◌==◌, bit_and, bit_or, arith,
}
use pvault.Base.Bits.{bit_and_mask, bit_or_low}
use pvault.Recovery.Base32.{Acc, kept, put_char, encode_loop, decode_loop}
use pvault.Recovery.Letters.{letter, crockford_value-letter}

abbrev pub acc : ℕ → ℕ → Acc
acc buffer bits = record { buffer = buffer; bits = bits }

masked : (x n : ℕ) → n ≤ 12 → bit_and x (2 ^ n % 2 ^ 32 - 1) ≡ x % 2 ^ n
masked x n h =
    let top : 2 ^ n ≤ 2 ^ 12 = pow-le-pow_right (omega arith) h in
    ap (λ (t : ℕ). bit_and x (t - 1)) (mod-eq_of_lt (omega (arith, top))) ∙ bit_and_mask n x

kept_lem : (x n : ℕ) → n ≤ 12 → kept x n ≡ acc (x % 2 ^ n) n
kept_lem x n h = elim (Bool-cases (n == 0)) [
  | inl gone ↦ let e : n ≡ 0 = ground arith in rw e (ap (λ (t : ℕ). acc t 0) (omega arith))
  | inr more ↦ rw more (ap (λ (t : ℕ). acc t n) (masked x n h))
]

with_byte : (x b : ℕ) → x < 4096 → b < 256 → bit_or ((x * 2 ^ 8) % 2 ^ 32) b ≡ x * 256 + b
with_byte x b hx hb = ap (λ (t : ℕ). bit_or t b) (mod-eq_of_lt (omega arith)) ∙ bit_or_low 8 x b hb

with_value : (x v : ℕ) → x < 4096 → v < 32 → bit_or ((x * 2 ^ 5) % 2 ^ 32) v ≡ x * 32 + v
with_value x v hx hv = ap (λ (t : ℕ). bit_or t v) (mod-eq_of_lt (omega arith)) ∙ bit_or_low 5 x v hv

pub encode-stop : (room : ℕ) → encode_loop room [] (acc 0 0) ≡ some []
unfolding encode_loop
encode-stop zero = refl
encode-stop (suc room) = refl

padded_small : (e eb : ℕ) → 1 ≤ e → e ≤ 4 → eb < 2 ^ e → eb * 2 ^ (5 - e) < 32
padded_small zero eb low high h = absurd (omega arith)
padded_small (suc zero) eb low high h = omega arith
padded_small (suc (suc zero)) eb low high h = omega arith
padded_small (suc (suc (suc zero))) eb low high h = omega arith
padded_small (suc (suc (suc (suc zero)))) eb low high h = omega arith
padded_small (suc (suc (suc (suc (suc e))))) eb low high h = absurd (omega arith)

module _ (room eb e : ℕ) where
  -- What the round puts and what it leaves.
  abbrev pub next : ℕ → ℕ → List ℕ → Option (List ℕ)
  next x n rest = put_char (letter (x / 2 ^ n % 32)) (encode_loop room rest (acc (x % 2 ^ n) n))

  emitted :
      (x n : ℕ) (rest : List ℕ)
      → n ≤ 12
      → put_char (letter (bit_and (x / 2 ^ n) 31)) (encode_loop room rest (kept x n))
        ≡ next x n rest
  emitted x n rest h =
      ap₂ (λ (v : ℕ) s. put_char (letter v) (encode_loop room rest s)) (bit_and_mask 5 (x / 2 ^ n))
        (kept_lem x n h)

  pub encode-take :
      (b : ℕ) (bytes : List ℕ)
      → e ≤ 4
      → eb < 2 ^ e
      → b < 256
      → encode_loop (suc room) (b ∷ bytes) (acc eb e) ≡ next (eb * 256 + b) (e + 3) bytes
  unfolding encode_loop
  encode-take b bytes he hb h =
      let top : 2 ^ e ≤ 2 ^ 4 = pow-le-pow_right (omega arith) he in
      let few : ltb e 5 ≡ true = ground arith in
      let many : ltb (e + 8) 5 ≡ false = ground arith in
      let n : e + 8 - 5 ≡ e + 3 = omega arith in
      rw (few, many, with_byte eb b (omega (arith, top)) h, n)
        (emitted (eb * 256 + b) (e + 3) bytes (omega arith))

  pub encode-keep :
      (input : List ℕ)
      → 5 ≤ e
      → e ≤ 7
      → encode_loop (suc room) input (acc eb e) ≡ next eb (e - 5) input
  unfolding encode_loop
  encode-keep [] low high =
      let many : ltb e 5 ≡ false = ground arith in
      let some_bits : (e == 0) ≡ false = ground arith in
      rw (many, some_bits) (emitted eb (e - 5) [] (omega arith))
  encode-keep (b ∷ bytes) low high =
      let many : ltb e 5 ≡ false = ground arith in
      rw (many, many) (emitted eb (e - 5) (b ∷ bytes) (omega arith))

  pub encode-pad :
      1 ≤ e
      → e ≤ 4
      → eb < 2 ^ e
      → encode_loop (suc room) [] (acc eb e) ≡ put_char (letter (eb * 2 ^ (5 - e))) (some [])
  unfolding encode_loop
  encode-pad low high hb =
      let few : ltb e 5 ≡ true = ground arith in
      let some_bits : (e == 0) ≡ false = ground arith in
      let small : eb * 2 ^ (5 - e) < 32 = padded_small e eb low high hb in
      let whole : eb * 2 ^ (5 - e) % 2 ^ 32 ≡ eb * 2 ^ (5 - e) = mod-eq_of_lt (omega arith) in
      let five : bit_and (eb * 2 ^ (5 - e) / 1) 31 ≡ eb * 2 ^ (5 - e) =
        bit_and_mask 5 (eb * 2 ^ (5 - e) / 1) ∙ omega arith in
      rw (few, some_bits, whole, five, encode-stop room) refl

module _ (text : List ℕ) (v : ℕ) (hv : v < 32) (db d : ℕ) (hd : db < 256) where
  pub decode-wait :
      (room : ℕ)
      → d ≤ 2
      → decode_loop (letter v ∷ text) room (acc db d)
        ≡ decode_loop text room (acc (db * 32 + v) (d + 5))
  unfolding decode_loop
  decode-wait room h =
      let short : leb 8 (d + 5) ≡ false = ground arith in
      rw (decode_loop, crockford_value-letter v hv, short, with_value db v (omega arith) hv) refl

  pub decode-byte :
      (room : ℕ)
      → 3 ≤ d
      → d ≤ 7
      → decode_loop (letter v ∷ text) (suc room) (acc db d)
        ≡ put_char
            ((db * 32 + v) / 2 ^ (d - 3) % 256)
            (decode_loop text room (acc ((db * 32 + v) % 2 ^ (d - 3)) (d - 3)))
  unfolding decode_loop
  decode-byte room low high =
      let full : leb 8 (d + 5) ≡ true = ground arith in
      let e : d + 5 - 8 ≡ d - 3 = omega arith in
      rw
        (
          decode_loop,
          crockford_value-letter v hv,
          full,
          with_value db v (omega arith) hv,
          e,
          kept_lem (db * 32 + v) (d - 3) (omega arith),
        )
        refl
