-- ===== src/Util/Utf8.antt =====
-- src/util.c: `pv_utf8_valid`.
use pvault.Base.{
  ℕ, zero, suc, ◌*◌, ◌%◌, ◌^◌, ◌≡◌, refl, Bool, true, false, not, ◌&&◌, ◌||◌, Option, none, some,
  List, [], ◌∷◌, length, bit_and, bit_or, ltb, leb, ◌==◌, if◌then◌else◌,
}

-- The first byte of a sequence of 2 to 4 bytes: its bits, and how many bytes follow.
unfoldable pub lead : ℕ → Option (ℕ × ℕ)
lead first =
    if leb 0xc2 first && leb first 0xdf
    then some (bit_and first 0x1f, 1)
    else if leb 0xe0 first && leb first 0xef
    then some (bit_and first 0x0f, 2)
    else if leb 0xf0 first && leb first 0xf4
    then some (bit_and first 0x07, 3)
    else none

-- The inner loop: `n` more bytes. The source has seen that they are there.
unfoldable pub continuation_bytes : ℕ → ℕ → List ℕ → Option (ℕ × List ℕ)
continuation_bytes zero codepoint rest = some (codepoint, rest)
continuation_bytes (suc n) codepoint [] = none
continuation_bytes (suc n) codepoint (next ∷ rest) =
    if not (bit_and next 0xc0 == 0x80)
    then none
    else continuation_bytes n (bit_or ((codepoint * 2 ^ 6) % 2 ^ 32) (bit_and next 0x3f)) rest

-- Overlong forms, surrogates, and code points past the last one.
unfoldable pub codepoint_refused : ℕ → ℕ → Bool
codepoint_refused continuation codepoint =
    (continuation == 2 && ltb codepoint 0x800)
    || (continuation == 3 && ltb codepoint 0x10000)
    || ltb 0x10ffff codepoint
    || (leb 0xd800 codepoint && leb codepoint 0xdfff)

-- One sequence, without its first byte: what follows it.
unfoldable pub sequence : ℕ → List ℕ → Option (List ℕ)
unfolding lead continuation_bytes codepoint_refused
sequence first rest = if leb first 0x7f then some rest else elim (lead first) [
  | none ↦ none
  | some (bits, continuation) ↦
      if ltb (length rest) continuation
      then none
      else elim (continuation_bytes continuation bits rest) [
        | none ↦ none
        | some (codepoint, after) ↦
            if codepoint_refused continuation codepoint then none else some after
      ]
]

-- The loop takes a byte at least in each round: the length is fuel enough.
unfoldable pub utf8_loop : ℕ → List ℕ → Bool
unfolding sequence
utf8_loop fuel [] = true
utf8_loop zero (first ∷ rest) = false
utf8_loop (suc fuel) (first ∷ rest) = elim (sequence first rest) [
  | none ↦ false
  | some after ↦ utf8_loop fuel after
]

unfoldable pub utf8_valid : List ℕ → Bool
unfolding utf8_loop
utf8_valid text = utf8_loop (length text) text

euro : utf8_valid (b'a' ∷ 0xe2 ∷ 0x82 ∷ 0xac ∷ []) ≡ true
unfolding utf8_valid
euro = refl

surrogate : utf8_valid (0xed ∷ 0xa0 ∷ 0x80 ∷ []) ≡ false
unfolding utf8_valid
surrogate = refl
