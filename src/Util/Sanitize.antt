-- ===== src/Util/Sanitize.antt =====
-- What `pv_text_sanitize` of src/util.c writes.
use pvault.Base.{
  ℕ, zero, suc, ◌-◌, ◌≡◌, ◌≤◌, refl, sym, ap, ◌∙◌, true, false, ◌||◌, Option, none, some, List, [],
  ◌∷◌, ◌++◌, length, take, drop, ltb, inl, inr, Option-cases, Bool-cases, arith, length-append, ◌⊎◌,
  length-drop, length-take, take-append_length, drop-append_length,
}
use pvault.Util.Codepoint.{
  decode_codepoint, display_codepoint_unsafe, sanitize_step, sanitize_loop, text_sanitize,
}
use pvault.Util.Slice.{Slice, len, items, dangling, length-items}
use pvault.Util.Widths.{decode_ascii, decode-take}

-- Text that can be put on a terminal: code points, none of them one that is unsafe to display.
pub data Shown : List ℕ → Type 0 where
  end : Shown []
  char :
      (bytes rest : List ℕ) (codepoint : ℕ)
      → decode_codepoint (bytes ++ rest) ≡ some (codepoint, length bytes)
      → display_codepoint_unsafe codepoint ≡ false
      → Shown rest
      → Shown (bytes ++ rest)

question_mark : (rest : List ℕ) → Shown rest → Shown (b'?' ∷ rest)
question_mark rest h =
    char (b'?' ∷ []) rest b'?' (decode_ascii b'?' rest refl)
      (unfold display_codepoint_unsafe in refl) h

loop_round :
    (fuel b : ℕ) (bytes : List ℕ) (o : Option (ℕ × ℕ))
    → decode_codepoint (b ∷ bytes) ≡ o
    → sanitize_loop (suc fuel) (b ∷ bytes)
      ≡ (sanitize_step (b ∷ bytes) o).0 ++ sanitize_loop fuel (sanitize_step (b ∷ bytes) o).1
unfolding sanitize_loop
loop_round fuel b bytes o e =
    ap (λ t. (sanitize_step (b ∷ bytes) t).0 ++ sanitize_loop fuel (sanitize_step (b ∷ bytes) t).1)
      e

-- A code point that is unsafe, and one that is safe.
bad_step : (bytes : List ℕ) → sanitize_step bytes none ≡ (b'?' ∷ [], drop 1 bytes)
unfolding sanitize_step
bad_step bytes = refl

unsafe_step :
    (bytes : List ℕ) (codepoint width : ℕ)
    → display_codepoint_unsafe codepoint ≡ true
    → sanitize_step bytes (some (codepoint, width)) ≡ (b'?' ∷ [], drop width bytes)
unfolding sanitize_step
unsafe_step bytes codepoint width h = rw h

safe_step :
    (bytes : List ℕ) (codepoint width : ℕ)
    → display_codepoint_unsafe codepoint ≡ false
    → sanitize_step bytes (some (codepoint, width)) ≡ (take width bytes, drop width bytes)
unfolding sanitize_step
safe_step bytes codepoint width h = rw h

abbrev Good : List ℕ → ℕ → Type 0
Good out size = Shown out × (length out ≤ size)

sanitized :
    (fuel : ℕ) (bytes : List ℕ)
    → length bytes ≤ fuel
    → Good (sanitize_loop fuel bytes) (length bytes)
sanitized fuel [] h = unfold sanitize_loop in (end, omega arith)
sanitized zero (b ∷ bytes) h = absurd (omega arith)
sanitized (suc fuel) (b ∷ bytes) h = elim (Option-cases (decode_codepoint (b ∷ bytes))) [
  | inl bad ↦
      let (shown, fits) = sanitized fuel bytes (omega arith) in
      rw (loop_round fuel b bytes none bad, bad_step (b ∷ bytes))
        (question_mark (sanitize_loop fuel bytes) shown, omega arith)
  | inr ((codepoint, width), e) ↦
      let (again, sized, some_width) =
        decode-take (b ∷ bytes) (sanitize_loop fuel (drop width (b ∷ bytes))) codepoint width e in
      let left : length (drop width (b ∷ bytes)) ≡ suc (length bytes) - width =
        length-drop width (b ∷ bytes) in
      let (shown, fits) = sanitized fuel (drop width (b ∷ bytes)) (omega arith) in
      rw (loop_round fuel b bytes (some (codepoint, width)) e)
        (elim (Bool-cases (display_codepoint_unsafe codepoint)) [
          | inl unsafe ↦
              rw (unsafe_step (b ∷ bytes) codepoint width unsafe)
                (question_mark (sanitize_loop fuel (drop width (b ∷ bytes))) shown, omega arith)
          | inr safe ↦ rw (safe_step (b ∷ bytes) codepoint width safe) (
            char (take width (b ∷ bytes)) (sanitize_loop fuel (drop width (b ∷ bytes))) codepoint
                (again ∙ ap (λ t. some (codepoint, t)) (sym sized)) safe shown,
            omega (
              arith,
              length-append (take width (b ∷ bytes)) (sanitize_loop fuel (drop width (b ∷ bytes))),
              length-take width (b ∷ bytes),
            ),
          )
        ])
]

-- Text that can be shown is left as it is.
unchanged :
    (fuel : ℕ) {bytes : List ℕ}
    → Shown bytes
    → length bytes ≤ fuel
    → sanitize_loop fuel bytes ≡ bytes
unchanged fuel end h = unfold sanitize_loop in refl
unchanged fuel (char [] rest codepoint e safe more) h =
    let (again, sized, some_width) = decode-take rest [] codepoint 0 e in absurd (omega arith)
unchanged zero (char (b ∷ bytes) rest codepoint e safe more) h = absurd (omega arith)
unchanged (suc fuel) (char (b ∷ bytes) rest codepoint e safe more) h =
    loop_round fuel b (bytes ++ rest) (some (codepoint, suc (length bytes))) e
    ∙ rw
        (
          safe_step (b ∷ (bytes ++ rest)) codepoint (suc (length bytes)) safe,
          take-append_length (length bytes) bytes rest refl,
          drop-append_length (length bytes) bytes rest refl,
        )
        (ap (λ t. b ∷ (bytes ++ t)) (unchanged fuel more (omega (arith, length-append bytes rest))))

-- pv_text_sanitize answers false exactly for a slice that is NULL with a length or an output
-- shorter than the text; otherwise it writes text without code points that are unsafe to display,
-- no longer than the text, and the text itself if that can be shown already.
pub text_sanitize_lem :
    (slice : Slice) (capacity : ℕ)
    → ((text_sanitize slice capacity ≡ none)
        × ((dangling slice || ltb capacity (len slice)) ≡ true))
      ⊎ ((out : List ℕ) × (text_sanitize slice capacity ≡ some out)
          × Shown out
          × (length out ≤ len slice)
          × (length out ≤ capacity)
          × (Shown (items slice) → out ≡ items slice))
unfolding text_sanitize
text_sanitize_lem slice capacity = elim (Bool-cases (dangling slice || ltb capacity (len slice))) [
  | inl refused ↦ inl (rw refused, refused)
  | inr accepted ↦
      let (shown, fits) = sanitized (length (items slice)) (items slice) (omega arith) in
      let sized = length-items slice (ground arith) in
      inr (
        sanitize_loop (length (items slice)) (items slice),
        rw accepted,
        shown,
        omega arith,
        ground arith,
        λ h. unchanged (length (items slice)) h (omega arith),
      )
]
