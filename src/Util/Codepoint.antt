-- ===== src/Util/Codepoint.antt =====
-- src/util.c: `decode_codepoint`, `display_codepoint_unsafe` and `pv_text_sanitize`.
use pvault.Base.{
  ℕ, zero, suc, ◌-◌, ◌*◌, ◌%◌, ◌^◌, Bool, not, ◌&&◌, ◌||◌, Option, none, some, List, [], ◌∷◌, ◌++◌,
  length, take, drop, bit_and, bit_or, ltb, leb, ◌==◌, if◌then◌else◌,
}
use pvault.Util.Slice.{Slice, len, items, dangling}

unfoldable pub display_codepoint_unsafe : ℕ → Bool
display_codepoint_unsafe codepoint =
    leb codepoint 0x1f
    || (leb 0x7f codepoint && leb codepoint 0x9f)
    || codepoint == 0x061c
    || (leb 0x200b codepoint && leb codepoint 0x200f)
    || (leb 0x2028 codepoint && leb codepoint 0x202e)
    || (leb 0x2060 codepoint && leb codepoint 0x2069)
    || codepoint == 0xfeff

-- The first byte of more than one: its bits, and the width.
unfoldable pub wide_lead : ℕ → Option (ℕ × ℕ)
wide_lead first =
    if leb 0xc2 first && leb first 0xdf
    then some (bit_and first 0x1f, 2)
    else if leb 0xe0 first && leb first 0xef
    then some (bit_and first 0x0f, 3)
    else if leb 0xf0 first && leb first 0xf4
    then some (bit_and first 0x07, 4)
    else none

-- The loop over the `n` bytes that follow; they are there.
unfoldable pub following : ℕ → ℕ → List ℕ → Option ℕ
following zero value bytes = some value
following (suc n) value [] = none
following (suc n) value (b ∷ bytes) =
    if not (bit_and b 0xc0 == 0x80)
    then none
    else following n (bit_or ((value * 2 ^ 6) % 2 ^ 32) (bit_and b 0x3f)) bytes

unfoldable pub value_refused : ℕ → ℕ → Bool
value_refused width value =
    (width == 3 && ltb value 0x800)
    || (width == 4 && ltb value 0x10000)
    || ltb 0x10ffff value
    || (leb 0xd800 value && leb value 0xdfff)

abbrev pub checked_value : ℕ → Option ℕ → Option (ℕ × ℕ)
checked_value width none = none
checked_value width (some value) = if value_refused width value then none else some (value, width)

-- `decode_codepoint`: the code point and its width; `none` is the width 0.
unfoldable pub decode_codepoint : List ℕ → Option (ℕ × ℕ)
unfolding following
decode_codepoint [] = none
decode_codepoint (first ∷ rest) =
    if leb first 0x7f then some (first, 1) else elim (wide_lead first) [
      | none ↦ none
      | some (bits, width) ↦
          if ltb (suc (length rest)) width
          then none
          else checked_value width (following (width - 1) bits rest)
    ]

-- One round of the loop: what it writes, and what is left of the input.
unfoldable pub sanitize_step : List ℕ → Option (ℕ × ℕ) → List ℕ × List ℕ
sanitize_step bytes none = (b'?' ∷ [], drop 1 bytes)
sanitize_step bytes (some (codepoint, width)) =
    if display_codepoint_unsafe codepoint
    then (b'?' ∷ [], drop width bytes)
    else (take width bytes, drop width bytes)

-- Each round takes a byte at least: the length is fuel enough.
unfoldable pub sanitize_loop : ℕ → List ℕ → List ℕ
unfolding sanitize_step
sanitize_loop fuel [] = []
sanitize_loop zero (b ∷ bytes) = []
sanitize_loop (suc fuel) (b ∷ bytes) =
    let (written, left) = sanitize_step (b ∷ bytes) (decode_codepoint (b ∷ bytes)) in
    let rest = sanitize_loop fuel left in written ++ rest

-- `pv_text_sanitize` with an output of `capacity` bytes; `none` is the answer `false`.
unfoldable pub text_sanitize : Slice → ℕ → Option (List ℕ)
text_sanitize slice capacity =
    if dangling slice || ltb capacity (len slice)
    then none
    else some (sanitize_loop (length (items slice)) (items slice))
