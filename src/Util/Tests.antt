-- ===== src/Util/Tests.antt =====
-- Runs of src/util.c.
use pvault.Base.{ℕ, refl, ◌+◌, ◌*◌, ◌≡◌, none, some, leb, if◌then◌else◌, arith}
use pvault.Util.{size_add, size_mul, size_max}
use pvault.Base.{List, [], ◌∷◌, ◌⊎◌, true, ◌||◌, ltb, length, ◌≤◌}
use pvault.Util.Codepoint.{
  text_sanitize, sanitize_loop, sanitize_step, decode_codepoint, wide_lead, following,
  value_refused, display_codepoint_unsafe,
}
use pvault.Util.Sanitize.{Shown, text_sanitize_lem}
use pvault.Util.Slice.{Slice, view, len, items, dangling}
use pvault.Base.{All, map, ◌≢◌, ◌↔◌, ◌<◌}
use pvault.Util.Found.{Within, SameText, slice_contains_cstr_iff, slice_equal_cstr_iff}
use pvault.Util.Hex.{hex_digits, hex_encode, hex_decode, hex_bytes, hex_value, ascii_fold}
use pvault.Base.Words.{IsByte}
use pvault.Base.{◌++◌}
use pvault.Util.Encoding.{utf8_bytes, decode_codepoint-utf8_bytes}
use pvault.Util.Utf8.{utf8_valid}
use pvault.Util.Valid.{IsUtf8, utf8_valid_iff}
use pvault.Util.HexBack.{hex_decode_iff, hex_decode-hex_encode}
use pvault.Util.Search.{slice_contains_cstr, slice_equal_cstr, search_loop, starts_with}
use pvault.Util.Sizes.{sizes_exact}

sizes_exact_example :
    (size_add size_max 1 ≡ (if leb (size_max + 1) size_max then some (size_max + 1) else none))
    × (size_mul size_max 1 ≡ (if leb (size_max * 1) size_max then some (size_max * 1) else none))
sizes_exact_example = sizes_exact size_max 1 (omega arith)

-- A bell in a text becomes a question mark.
abbrev alarm : Slice
alarm = view (b'a' ∷ 7 ∷ 0xc3 ∷ 0xa9 ∷ 0xff ∷ [])

alarm_sanitized : text_sanitize alarm 8 ≡ some (b'a' ∷ b'?' ∷ 0xc3 ∷ 0xa9 ∷ b'?' ∷ [])
unfolding text_sanitize sanitize_loop sanitize_step decode_codepoint wide_lead following
    value_refused display_codepoint_unsafe
alarm_sanitized = refl

text_sanitize_lem_example :
    ((text_sanitize alarm 8 ≡ none) × ((dangling alarm || ltb 8 (len alarm)) ≡ true))
    ⊎ ((out : List ℕ) × (text_sanitize alarm 8 ≡ some out)
        × Shown out
        × (length out ≤ len alarm)
        × (length out ≤ 8)
        × (Shown (items alarm) → out ≡ items alarm))
text_sanitize_lem_example = text_sanitize_lem alarm 8

-- Hexadecimal text in either case.
abbrev two_bytes : List ℕ
two_bytes = 0xde ∷ 0x0f ∷ []

abbrev two_bytes_text : List ℕ
two_bytes_text = b'D' ∷ b'e' ∷ b'0' ∷ b'F' ∷ []

hex_decode_iff_example : (hex_decode two_bytes_text 2 ≡ some two_bytes) ↔ (
    (length two_bytes ≡ 2)
    × All IsByte two_bytes
    × (map ascii_fold two_bytes_text ≡ hex_digits two_bytes))
hex_decode_iff_example = hex_decode_iff two_bytes_text two_bytes 2 (omega arith)

two_bytes_decoded : hex_decode two_bytes_text 2 ≡ some two_bytes
unfolding hex_decode hex_bytes hex_value
two_bytes_decoded = refl

hex_decode-hex_encode_example :
    (text : List ℕ) × (hex_encode two_bytes 5 ≡ some text)
    × (length text < 5)
    × (hex_decode text 2 ≡ some two_bytes)
hex_decode-hex_encode_example =
    hex_decode-hex_encode two_bytes 5 (omega arith, (omega arith, tt)) (omega arith) (omega arith)

abbrev big_a : List ℕ
big_a = b'A' ∷ []

slice_contains_cstr_iff_example :
    (slice_contains_cstr true alarm big_a ≡ true) ↔ ((big_a ≢ []) × Within true big_a (items alarm))
slice_contains_cstr_iff_example = slice_contains_cstr_iff true alarm big_a refl

alarm_contains : slice_contains_cstr true alarm big_a ≡ true
unfolding slice_contains_cstr search_loop starts_with ascii_fold
alarm_contains = refl

slice_equal_cstr_iff_example :
    (slice_equal_cstr true alarm two_bytes_text ≡ true) ↔ SameText true (items alarm) two_bytes_text
slice_equal_cstr_iff_example = slice_equal_cstr_iff true alarm two_bytes_text refl

-- The euro sign, before a letter.
decode_codepoint-utf8_bytes_example :
    decode_codepoint (utf8_bytes 0x20ac ++ (b'a' ∷ [])) ≡ some (0x20ac, length (utf8_bytes 0x20ac))
decode_codepoint-utf8_bytes_example = decode_codepoint-utf8_bytes 0x20ac (b'a' ∷ []) refl

-- The euro sign behind a letter.
abbrev price : List ℕ
price = b'a' ∷ 0xe2 ∷ 0x82 ∷ 0xac ∷ []

utf8_valid_iff_example : (utf8_valid price ≡ true) ↔ IsUtf8 price
utf8_valid_iff_example =
    utf8_valid_iff price (omega arith, (omega arith, (omega arith, (omega arith, tt))))
