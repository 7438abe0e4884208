-- ===== src/Util/Agree.antt =====
-- `pv_utf8_valid` and `decode_codepoint` of src/util.c, which take code points apart each on its own.
use pvault.Base.{
  ℕ, zero, suc, ◌≡◌, refl, ap, ◌∙◌, false, not, Option, none, some, List, [], ◌∷◌, length, drop,
  ltb, leb, ◌==◌, bit_and, arith, inl, inr, Bool-cases, Option-cases,
}
use pvault.Util.Codepoint.{following, decode_codepoint, wide_lead, value_refused}
use pvault.Util.Utf8.{lead, continuation_bytes, codepoint_refused, sequence}
use pvault.Util.Widths.{decode_ascii, decode_wide}

abbrev with_left : ℕ → List ℕ → Option ℕ → Option (ℕ × List ℕ)
with_left n bytes none = none
with_left n bytes (some u) = some (u, drop n bytes)

with_left-suc :
    (n b : ℕ) (bytes : List ℕ) (o : Option ℕ)
    → with_left n bytes o ≡ with_left (suc n) (b ∷ bytes) o
with_left-suc n b bytes none = refl
with_left-suc n b bytes (some u) = refl

continuation_bytes_lem :
    (n value : ℕ) (bytes : List ℕ)
    → continuation_bytes n value bytes ≡ with_left n bytes (following n value bytes)
unfolding continuation_bytes following
continuation_bytes_lem zero value bytes = refl
continuation_bytes_lem (suc n) value [] = refl
continuation_bytes_lem (suc n) value (b ∷ bytes) =
    elim (Bool-cases (not (bit_and b 0xc0 == 0x80))) [
      | inl bad ↦ rw bad
      | inr good ↦
          rw good (continuation_bytes_lem n _ bytes ∙ with_left-suc n b bytes (following n _ bytes))
    ]

abbrev one_more : Option (ℕ × ℕ) → Option (ℕ × ℕ)
one_more none = none
one_more (some (bits, k)) = some (bits, suc k)

wide_lead_lem : (first : ℕ) → wide_lead first ≡ one_more (lead first)
unfolding wide_lead lead
wide_lead_lem first = ground arith

refused_lem : (k c : ℕ) → codepoint_refused k c ≡ value_refused (suc k) c
unfolding codepoint_refused value_refused
refused_lem k c = ground arith

no_lead :
    (first : ℕ) (rest : List ℕ)
    → leb first 0x7f ≡ false
    → wide_lead first ≡ none
    → decode_codepoint (first ∷ rest) ≡ none
unfolding decode_codepoint
no_lead first rest wide bad = rw (wide, bad)

-- What is left behind the code point.
abbrev pub behind : List ℕ → Option (ℕ × ℕ) → Option (List ℕ)
behind bytes none = none
behind bytes (some (codepoint, width)) = some (drop width bytes)

pub sequence_lem :
    (first : ℕ) (rest : List ℕ)
    → sequence first rest ≡ behind (first ∷ rest) (decode_codepoint (first ∷ rest))
unfolding sequence
sequence_lem first rest = elim (Bool-cases (leb first 0x7f)) [
  | inl ascii ↦ rw (ascii, decode_ascii first rest ascii)
  | inr wide ↦ elim (Option-cases (lead first)) [
    | inl bad ↦ rw (wide, bad, no_lead first rest wide (wide_lead_lem first ∙ ap one_more bad))
    | inr ((bits, k), known) ↦
        let l : wide_lead first ≡ some (bits, suc k) = wide_lead_lem first ∙ ap one_more known in
        rw (wide, known, decode_wide first bits k rest wide l)
          elim (Bool-cases (ltb (length rest) k)) [
            | inl short ↦ rw short
            | inr long ↦
                rw (long, continuation_bytes_lem k bits rest)
                  elim (Option-cases (following k bits rest)) [
                    | inl bad ↦ rw bad
                    | inr (c, e) ↦
                        rw (e, refused_lem k c)
                          elim (Bool-cases (value_refused (suc k) c)) [
                            | inl refused ↦ rw refused
                            | inr good ↦ rw good
                          ]
                  ]
          ]
  ]
]
