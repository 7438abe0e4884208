-- ===== src/Util/Valid.antt =====
-- What `pv_utf8_valid` of src/util.c accepts, against UTF-8 as RFC 3629 gives it.
use pvault.Base.{
  ℕ, zero, suc, ◌≡◌, ◌≤◌, ◌<◌, ◌↔◌, refl, sym, ap, ◌∙◌, Bool, true, false, Option, none, some, List,
  [], ◌∷◌, ◌++◌, All, length, length-append, drop-append_length, arith, inl, inr, Option-cases,
}
use pvault.Base.Words.{IsByte}
use pvault.Util.Begins.{decode_inv}
use pvault.Util.Agree.{behind, sequence_lem}
use pvault.Util.Codepoint.{decode_codepoint}
use pvault.Util.Encoding.{utf8_bytes, scalar, decode_codepoint-utf8_bytes}
use pvault.Util.Utf8.{utf8_loop, utf8_valid}

-- Text in UTF-8: code points, one after the other.
pub data IsUtf8 : List ℕ → Type 0 where
  end : IsUtf8 []
  char : (c : ℕ) (rest : List ℕ) → scalar c ≡ true → IsUtf8 rest → IsUtf8 (utf8_bytes c ++ rest)

some_bytes : (c : ℕ) → 0 < length (utf8_bytes c)
some_bytes c = ground arith

abbrev next_round : ℕ → Option (List ℕ) → Bool
next_round fuel none = false
next_round fuel (some after) = utf8_loop fuel after

utf8_loop_step :
    (fuel b : ℕ) (bytes : List ℕ)
    → utf8_loop (suc fuel) (b ∷ bytes)
      ≡ next_round fuel (behind (b ∷ bytes) (decode_codepoint (b ∷ bytes)))
unfolding utf8_loop
utf8_loop_step fuel b bytes = ap (next_round fuel) (sequence_lem b bytes)

loop_round :
    (fuel c : ℕ) (front rest : List ℕ)
    → 0 < length front
    → decode_codepoint (front ++ rest) ≡ some (c, length front)
    → utf8_loop (suc fuel) (front ++ rest) ≡ utf8_loop fuel rest
loop_round fuel c [] rest h e = absurd (omega arith)
loop_round fuel c (b ∷ front) rest h e =
    utf8_loop_step fuel b (front ++ rest)
    ∙ ap (λ o. next_round fuel (behind (b ∷ (front ++ rest)) o)) e
    ∙ ap (utf8_loop fuel) (drop-append_length (length front) front rest refl)

accepts : (fuel : ℕ) {text : List ℕ} → IsUtf8 text → length text ≤ fuel → utf8_loop fuel text ≡ true
accepts fuel end h = unfold utf8_loop in refl
accepts zero (char c rest s more) h =
    absurd (omega (arith, some_bytes c, length-append (utf8_bytes c) rest))
accepts (suc fuel) (char c rest s more) h =
    loop_round fuel c (utf8_bytes c) rest (some_bytes c) (decode_codepoint-utf8_bytes c rest s)
    ∙ accepts fuel more (omega (arith, some_bytes c, length-append (utf8_bytes c) rest))

text_read : (fuel : ℕ) (text : List ℕ) → All IsByte text → utf8_loop fuel text ≡ true → IsUtf8 text
text_read fuel [] s e = end
text_read zero (b ∷ text) s e = absurd (unfold utf8_loop in ground arith)
text_read (suc fuel) (b ∷ text) s e = elim (Option-cases (decode_codepoint (b ∷ text))) [
  | inl bad ↦
      let out =
        ap (λ o. next_round fuel (behind (b ∷ text) o)) (sym bad)
        ∙ sym (utf8_loop_step fuel b text)
        ∙ e in
      absurd (ground arith)
  | inr ((c, width), read) ↦
      let f = decode_inv c width (b ∷ text) s read in
      let out =
        ap (utf8_loop fuel) (sym f.left)
        ∙ ap (λ o. next_round fuel (behind (b ∷ text) o)) (sym read)
        ∙ sym (utf8_loop_step fuel b text)
        ∙ e in
      rw f.split (char c f.rest f.good (text_read fuel f.rest f.small out))
]

-- Of texts of bytes below 256, pv_utf8_valid accepts exactly those that are code points up to
-- 10FFFF without surrogates, one after the other, each in its UTF-8 bytes.
pub utf8_valid_iff : (text : List ℕ) → All IsByte text → (utf8_valid text ≡ true) ↔ IsUtf8 text
unfolding utf8_valid
utf8_valid_iff text s =
    (λ e. text_read (length text) text s e, λ u. accepts (length text) u (omega arith))
