-- ===== src/Util/Encoding.antt =====
-- UTF-8 as RFC 3629 gives it, and `decode_codepoint` of src/util.c against it.
use pvault.Base.{
  ℕ, suc, ◌+◌, ◌*◌, ◌/◌, ◌%◌, ◌^◌, ◌≡◌, ◌≤◌, ◌<◌, refl, ◌∙◌, Bool, true, false, not, ◌&&◌, some,
  List, [], ◌∷◌, ◌++◌, length, ltb, leb, ◌==◌, if◌then◌else◌, bit_and, bit_or, arith, inl, inr,
  Bool-cases,
}
use pvault.Base.Bits.{bit_or_low, bit_and_mask}
use pvault.Base.Tried.{tried, tried-lt}
use pvault.Util.Codepoint.{following, decode_codepoint, wide_lead, value_refused}
use pvault.Util.Widths.{decode_ascii, decode_wide}

-- The bytes of a code point.
abbrev pub utf8_bytes : ℕ → List ℕ
utf8_bytes c =
    if ltb c 0x80
    then c ∷ []
    else if ltb c 0x800
    then (0xc0 + c / 64) ∷ (0x80 + c % 64) ∷ []
    else if ltb c 0x10000
    then (0xe0 + c / 4096) ∷ (0x80 + c / 64 % 64) ∷ (0x80 + c % 64) ∷ []
    else (0xf0 + c / 262144) ∷ (0x80 + c / 4096 % 64) ∷ (0x80 + c / 64 % 64) ∷ (0x80 + c % 64) ∷ []

-- A code point that is not a surrogate.
abbrev pub scalar : ℕ → Bool
scalar c = leb c 0x10ffff && not (leb 0xd800 c && leb c 0xdfff)

-- The two upper bits of a byte that follows.
tail_mark : (x : ℕ) → x < 64 → bit_and (0x80 + x) 0xc0 ≡ 0x80
unfolding tried
tail_mark x h = ground (arith, tried-lt (λ x. bit_and (0x80 + x) 0xc0 == 0x80) 64 x refl h)

tail_bits : (x : ℕ) → x < 64 → bit_and (0x80 + x) 0x3f ≡ x
tail_bits x h = bit_and_mask 6 (0x80 + x) ∙ omega arith

following_tail :
    (n value x : ℕ) (rest : List ℕ)
    → x < 64
    → value < 2 ^ 26
    → following (suc n) value ((0x80 + x) ∷ rest) ≡ following n (value * 64 + x) rest
unfolding following
following_tail n value x rest h small =
    let joined : bit_or ((value * 2 ^ 6) % 2 ^ 32) x ≡ value * 64 + x =
      ground (arith, bit_or_low 6 value x) in
    rw (tail_mark x h, tail_bits x h, joined)

-- What each of the four lengths begins with.
lead_two : (u : ℕ) → 2 ≤ u → u < 32 → wide_lead (0xc0 + u) ≡ some (u, 2)
unfolding wide_lead
lead_two u low high = ground (arith, bit_and_mask 5 (0xc0 + u))

lead_three : (u : ℕ) → u < 16 → wide_lead (0xe0 + u) ≡ some (u, 3)
unfolding wide_lead
lead_three u high = ground (arith, bit_and_mask 4 (0xe0 + u))

lead_four : (u : ℕ) → u < 5 → wide_lead (0xf0 + u) ≡ some (u, 4)
unfolding wide_lead
lead_four u high = ground (arith, bit_and_mask 3 (0xf0 + u))

decode_two :
    (c : ℕ) (rest : List ℕ)
    → 0x80 ≤ c
    → c < 0x800
    → decode_codepoint ((0xc0 + c / 64) ∷ (0x80 + c % 64) ∷ rest) ≡ some (c, 2)
decode_two c rest low high =
    let wide : leb (0xc0 + c / 64) 0x7f ≡ false = ground arith in
    let whole : c / 64 * 64 + c % 64 ≡ c = omega arith in
    let room : ltb (suc (length rest)) 1 ≡ false = ground arith in
    let good : value_refused 2 c ≡ false = unfold value_refused in ground arith in
    decode_wide (0xc0 + c / 64) (c / 64) 1 ((0x80 + c % 64) ∷ rest) wide
      (lead_two (c / 64) (omega arith) (omega arith))
    ∙ rw (room, following_tail 0 (c / 64) (c % 64) rest (omega arith) (omega arith), whole)
        (unfold following in rw good)

decode_three :
    (c : ℕ) (rest : List ℕ)
    → 0x800 ≤ c
    → c < 0x10000
    → scalar c ≡ true
    → decode_codepoint ((0xe0 + c / 4096) ∷ (0x80 + c / 64 % 64) ∷ (0x80 + c % 64) ∷ rest)
      ≡ some (c, 3)
decode_three c rest low high s =
    let wide : leb (0xe0 + c / 4096) 0x7f ≡ false = ground arith in
    let upper : c / 4096 * 64 + c / 64 % 64 ≡ c / 64 = omega arith in
    let whole : c / 64 * 64 + c % 64 ≡ c = omega arith in
    let room : ltb (suc (suc (length rest))) 2 ≡ false = ground arith in
    let good : value_refused 3 c ≡ false = unfold value_refused in ground arith in
    decode_wide (0xe0 + c / 4096) (c / 4096) 2 ((0x80 + c / 64 % 64) ∷ (0x80 + c % 64) ∷ rest) wide
      (lead_three (c / 4096) (omega arith))
    ∙ rw
        (
          room,
          following_tail 1 (c / 4096) (c / 64 % 64) ((0x80 + c % 64) ∷ rest) (omega arith)
              (omega arith),
          upper,
          following_tail 0 (c / 64) (c % 64) rest (omega arith) (omega arith),
          whole,
        )
        (unfold following in rw good)

decode_four :
    (c : ℕ) (rest : List ℕ)
    → 0x10000 ≤ c
    → c ≤ 0x10ffff
    → decode_codepoint (
        (0xf0 + c / 262144)
        ∷ (0x80 + c / 4096 % 64)
        ∷ (0x80 + c / 64 % 64)
        ∷ (0x80 + c % 64)
        ∷ rest)
      ≡ some (c, 4)
decode_four c rest low high =
    let wide : leb (0xf0 + c / 262144) 0x7f ≡ false = ground arith in
    let top : c / 262144 * 64 + c / 4096 % 64 ≡ c / 4096 = omega arith in
    let upper : c / 4096 * 64 + c / 64 % 64 ≡ c / 64 = omega arith in
    let whole : c / 64 * 64 + c % 64 ≡ c = omega arith in
    let room : ltb (suc (suc (suc (length rest)))) 3 ≡ false = ground arith in
    let good : value_refused 4 c ≡ false = unfold value_refused in ground arith in
    decode_wide (0xf0 + c / 262144) (c / 262144) 3
      ((0x80 + c / 4096 % 64) ∷ (0x80 + c / 64 % 64) ∷ (0x80 + c % 64) ∷ rest) wide
      (lead_four (c / 262144) (omega arith))
    ∙ rw
        (
          room,
          following_tail 2 (c / 262144) (c / 4096 % 64)
              ((0x80 + c / 64 % 64) ∷ (0x80 + c % 64) ∷ rest) (omega arith) (omega arith),
          top,
          following_tail 1 (c / 4096) (c / 64 % 64) ((0x80 + c % 64) ∷ rest) (omega arith)
              (omega arith),
          upper,
          following_tail 0 (c / 64) (c % 64) rest (omega arith) (omega arith),
          whole,
        )
        (unfold following in rw good)

-- For every code point up to 10FFFF that is not a surrogate, decode_codepoint reads its UTF-8
-- bytes, whatever follows them, as that code point with their number.
pub decode_codepoint-utf8_bytes :
    (c : ℕ) (rest : List ℕ)
    → scalar c ≡ true
    → decode_codepoint (utf8_bytes c ++ rest) ≡ some (c, length (utf8_bytes c))
decode_codepoint-utf8_bytes c rest s = elim (Bool-cases (ltb c 0x80)) [
  | inl one ↦ rw one (decode_ascii c rest (ground arith))
  | inr p ↦ elim (Bool-cases (ltb c 0x800)) [
    | inl two ↦ rw (p, two) (decode_two c rest (ground arith) (ground arith))
    | inr q ↦ elim (Bool-cases (ltb c 0x10000)) [
      | inl three ↦ rw (p, q, three) (decode_three c rest (ground arith) (ground arith) s)
      | inr r ↦ rw (p, q, r) (decode_four c rest (ground arith) (ground arith))
    ]
  ]
]
