-- ===== src/Util/Begins.antt =====
-- What `decode_codepoint` of src/util.c has read are the bytes of its code point.
use pvault.Base.{
  ℕ, suc, ◌+◌, ◌-◌, ◌*◌, ◌/◌, ◌%◌, ◌^◌, ◌≡◌, ◌≤◌, ◌<◌, refl, sym, ap, ◌∙◌, true, false, not, ◌&&◌,
  some, List, [], ◌∷◌, ◌++◌, All, drop, ltb, leb, ◌==◌, if◌then◌else◌, bit_and, bit_or, arith, ◌⊎◌,
  inl, inr, Bool-cases,
}
use pvault.Base.Bits.{bit_or_low, bit_and_mask}
use pvault.Base.Tried.{tried, tried-lt}
use pvault.Base.Words.{IsByte}
use pvault.Util.Codepoint.{following, decode_codepoint, wide_lead, value_refused}
use pvault.Util.Encoding.{utf8_bytes, scalar}
use pvault.Util.Widths.{decode_ascii, wide_inv}

-- A byte that follows another.
tail_byte : (b : ℕ) → b < 256 → (bit_and b 0xc0 == 0x80) ≡ true → (0x80 ≤ b) × (b < 0xc0)
unfolding tried
tail_byte b h e =
    let known =
      tried-lt (λ b. if bit_and b 0xc0 == 0x80 then leb 0x80 b && ltb b 0xc0 else true) 256 b refl
        h in
    ground arith

following_step :
    (n value b : ℕ) (bytes : List ℕ)
    → not (bit_and b 0xc0 == 0x80) ≡ false
    → following (suc n) value (b ∷ bytes)
      ≡ following n (bit_or ((value * 2 ^ 6) % 2 ^ 32) (bit_and b 0x3f)) bytes
unfolding following
following_step n value b bytes flag = rw flag

following_inv :
    (n value b u : ℕ) (bytes : List ℕ)
    → b < 256
    → value < 2 ^ 26
    → following (suc n) value (b ∷ bytes) ≡ some u
    → (x : ℕ) × (x < 64) × (b ≡ 0x80 + x) × (following n (value * 64 + x) bytes ≡ some u)
unfolding following
following_inv n value b u bytes h small e = elim (Bool-cases (bit_and b 0xc0 == 0x80)) [
  | inl good ↦
      let (low, high) = tail_byte b h good in
      let bits : bit_and b 0x3f ≡ b - 0x80 = bit_and_mask 6 b ∙ omega arith in
      let joined : bit_or ((value * 2 ^ 6) % 2 ^ 32) (bit_and b 0x3f) ≡ value * 64 + (b - 0x80) =
        ground (arith, bit_or_low 6 value (b - 0x80)) in
      let flag : not (bit_and b 0xc0 == 0x80) ≡ false = ap not good in
      (
        b - 0x80,
        omega arith,
        omega arith,
        ap (λ (t : ℕ). following n t bytes) (sym joined)
            ∙ sym (following_step n value b bytes flag)
            ∙ e,
      )
  | inr bad ↦ absurd (ground arith)
]

-- The first byte and the value that is in it.
lead_inv :
    (first bits k : ℕ)
    → first < 256
    → wide_lead first ≡ some (bits, suc k)
    → ((k ≡ 1) × (first ≡ 0xc0 + bits) × (2 ≤ bits) × (bits < 32))
      ⊎ ((k ≡ 2) × (first ≡ 0xe0 + bits) × (bits < 16))
      ⊎ ((k ≡ 3) × (first ≡ 0xf0 + bits) × (bits < 5))
unfolding wide_lead
lead_inv first bits k h e =
    ground (arith, bit_and_mask 5 first, bit_and_mask 4 first, bit_and_mask 3 first)

-- The bytes begin with those of the code point c.
pub record Begins (c width : ℕ) (bytes : List ℕ) : Type 0 where
  pub rest : List ℕ
  pub split : bytes ≡ utf8_bytes c ++ rest
  pub good : scalar c ≡ true
  pub left : drop width bytes ≡ rest
  pub small : All IsByte rest

following_zero : (value c : ℕ) (bytes : List ℕ) → following 0 value bytes ≡ some c → value ≡ c
unfolding following
following_zero value c bytes e = cc

following_nil : (n value c : ℕ) → following (suc n) value [] ≡ some c → ⊥
unfolding following
following_nil n value c e = cc

utf8_two :
    (first bits c : ℕ) (bytes : List ℕ)
    → All IsByte bytes
    → first ≡ 0xc0 + bits
    → 2 ≤ bits
    → bits < 32
    → following 1 bits bytes ≡ some c
    → Begins c 2 (first ∷ bytes)
utf8_two first bits c [] s h low high e = absurd (following_nil 0 bits c e)
utf8_two first bits c (b ∷ bytes) (s, ss) h low high e =
    let (x, hx, tail, more) = following_inv 0 bits b c bytes s (omega arith) e in
    let sum = following_zero (bits * 64 + x) c bytes more in
    let p : ltb c 0x80 ≡ false = ground arith in
    let q : ltb c 0x800 ≡ true = ground arith in
    let e1 : first ≡ 0xc0 + c / 64 = omega arith in
    let e2 : b ≡ 0x80 + c % 64 = omega arith in
    record {
      rest = bytes;
      split = rw (p, q) (λ i. e1 i ∷ e2 i ∷ bytes);
      good = ground arith;
      left = refl;
      small = ss;
    }

utf8_three :
    (first bits c : ℕ) (bytes : List ℕ)
    → All IsByte bytes
    → first ≡ 0xe0 + bits
    → bits < 16
    → value_refused 3 c ≡ false
    → following 2 bits bytes ≡ some c
    → Begins c 3 (first ∷ bytes)
utf8_three first bits c [] s h high v e = absurd (following_nil 1 bits c e)
utf8_three first bits c (a ∷ []) (s, ss) h high v e =
    let (x, hx, tail, more) = following_inv 1 bits a c [] s (omega arith) e in
    absurd (following_nil 0 (bits * 64 + x) c more)
utf8_three first bits c (a ∷ b ∷ bytes) (s, (t, ss)) h high v e =
    let (x, hx, tail, more) = following_inv 1 bits a c (b ∷ bytes) s (omega arith) e in
    let (y, hy, tail', more') = following_inv 0 (bits * 64 + x) b c bytes t (omega arith) more in
    let sum = following_zero ((bits * 64 + x) * 64 + y) c bytes more' in
    let bound : (0x800 ≤ c) × (scalar c ≡ true) = unfold value_refused in ground arith in
    let p : ltb c 0x80 ≡ false = ground arith in
    let q : ltb c 0x800 ≡ false = ground arith in
    let r : ltb c 0x10000 ≡ true = ground arith in
    let e1 : first ≡ 0xe0 + c / 4096 = omega arith in
    let e2 : a ≡ 0x80 + c / 64 % 64 = omega arith in
    let e3 : b ≡ 0x80 + c % 64 = omega arith in
    record {
      rest = bytes;
      split = rw (p, q, r) (λ i. e1 i ∷ e2 i ∷ e3 i ∷ bytes);
      good = bound.1;
      left = refl;
      small = ss;
    }

utf8_four :
    (first bits c : ℕ) (bytes : List ℕ)
    → All IsByte bytes
    → first ≡ 0xf0 + bits
    → bits < 5
    → value_refused 4 c ≡ false
    → following 3 bits bytes ≡ some c
    → Begins c 4 (first ∷ bytes)
utf8_four first bits c [] s h high v e = absurd (following_nil 2 bits c e)
utf8_four first bits c (a ∷ []) (s, ss) h high v e =
    let (x, hx, tail, more) = following_inv 2 bits a c [] s (omega arith) e in
    absurd (following_nil 1 (bits * 64 + x) c more)
utf8_four first bits c (a ∷ b ∷ []) (s, (t, ss)) h high v e =
    let (x, hx, tail, more) = following_inv 2 bits a c (b ∷ []) s (omega arith) e in
    let (y, hy, tail', more') = following_inv 1 (bits * 64 + x) b c [] t (omega arith) more in
    absurd (following_nil 0 ((bits * 64 + x) * 64 + y) c more')
utf8_four first bits c (a ∷ b ∷ d ∷ bytes) (s, (t, (u, ss))) h high v e =
    let (x, hx, tail, more) = following_inv 2 bits a c (b ∷ d ∷ bytes) s (omega arith) e in
    let (y, hy, tail', more') =
      following_inv 1 (bits * 64 + x) b c (d ∷ bytes) t (omega arith) more in
    let (z, hz, tail'', more'') =
      following_inv 0 ((bits * 64 + x) * 64 + y) d c bytes u (omega arith) more' in
    let sum = following_zero (((bits * 64 + x) * 64 + y) * 64 + z) c bytes more'' in
    let bound : (0x10000 ≤ c) × (scalar c ≡ true) = unfold value_refused in ground arith in
    let p : ltb c 0x80 ≡ false = ground arith in
    let q : ltb c 0x800 ≡ false = ground arith in
    let r : ltb c 0x10000 ≡ false = ground arith in
    let e1 : first ≡ 0xf0 + c / 262144 = omega arith in
    let e2 : a ≡ 0x80 + c / 4096 % 64 = omega arith in
    let e3 : b ≡ 0x80 + c / 64 % 64 = omega arith in
    let e4 : d ≡ 0x80 + c % 64 = omega arith in
    record {
      rest = bytes;
      split = rw (p, q, r) (λ i. e1 i ∷ e2 i ∷ e3 i ∷ e4 i ∷ bytes);
      good = bound.1;
      left = refl;
      small = ss;
    }

utf8_one :
    (first c width : ℕ) (bytes : List ℕ)
    → All IsByte bytes
    → leb first 0x7f ≡ true
    → decode_codepoint (first ∷ bytes) ≡ some (c, width)
    → Begins c width (first ∷ bytes)
utf8_one first c width bytes s ascii e =
    let same = sym (decode_ascii first bytes ascii) ∙ e in
    let first_is : first ≡ c = ground arith in
    let one : width ≡ 1 = ground arith in
    let p : ltb c 0x80 ≡ true = ground arith in
    rw one (record {
      rest = bytes;
      split = rw p (λ i. first_is i ∷ bytes);
      good = ground arith;
      left = refl;
      small = s;
    })

-- What `decode_codepoint` takes are the bytes of its code point.
pub decode_inv :
    (c width : ℕ) (bytes : List ℕ)
    → All IsByte bytes
    → decode_codepoint bytes ≡ some (c, width)
    → Begins c width bytes
decode_inv c width [] s e = absurd (unfold decode_codepoint in ground arith)
decode_inv c width (first ∷ bytes) (h, s) e = elim (Bool-cases (leb first 0x7f)) [
  | inl ascii ↦ utf8_one first c width bytes s ascii e
  | inr wide ↦
      let w = wide_inv first bytes c width wide e in
      let at : (n : ℕ) → w.k ≡ n → following n w.bits bytes ≡ some c =
        λ n same. ap (λ t. following t w.bits bytes) (sym same) ∙ w.value in
      let good : (n : ℕ) → w.k ≡ n → value_refused (suc n) c ≡ false =
        λ n same. ap (λ (t : ℕ). value_refused (suc t) c) (sym same) ∙ w.good in
      elim (lead_inv first w.bits w.k h w.lead) [
        | inl (k, f, low, high) ↦
            rw (w.width_is, k) (utf8_two first w.bits c bytes s f low high (at 1 k))
        | inr (inl (k, f, high)) ↦
            rw (w.width_is, k) (utf8_three first w.bits c bytes s f high (good 2 k) (at 2 k))
        | inr (inr (k, f, high)) ↦
            rw (w.width_is, k) (utf8_four first w.bits c bytes s f high (good 3 k) (at 3 k))
      ]
]
