-- ===== src/Cbor/Reader.antt =====
-- src/cbor_codec.c: `cbor_reader`. Every function that reads gives up at its first failure, with the
-- status that the reader then has, so a reader is a function from the bytes that are left to a value
-- with the bytes left then, or the status.
use pvault.Base.{
  ℕ, zero, suc, ◌*◌, ◌/◌, ◌%◌, ◌^◌, Bool, not, ◌&&◌, ◌||◌, Option, none, some, List, [], ◌∷◌,
  length, take, drop, bit_and, bit_or, ltb, leb, ◌==◌, if◌then◌else◌,
}
use pvault.Result.{Result, ok, err}
use pvault.Status.{Status, limit, format}
use pvault.Util.{size_max}
use pvault.Util.Slice.{Slice, view}
use pvault.Util.Utf8.{utf8_valid}

abbrev pub Reader {ℓ} : Type ℓ → Type ℓ
Reader A = List ℕ → Result (A × List ℕ)

module _ {ℓ κ} {A : Type ℓ} {B : Type κ} where
  abbrev pub proceed : Result (A × List ℕ) → (A → Reader B) → Result (B × List ℕ)
  proceed (ok (a, rest)) f = f a rest
  proceed (err e) f = err e

  infixl 5 ◌>>=◌
  abbrev pub ◌>>=◌ : Reader A → (A → Reader B) → Reader B
  ◌>>=◌ m f input = proceed (m input) f

infixl 5 ◌>>◌
abbrev pub ◌>>◌ {ℓ} : {A : Type ℓ} → Reader (Unit {0}) → Reader A → Reader A
◌>>◌ m k input = proceed (m input) (λ _. k)

abbrev pub pure {ℓ} : {A : Type ℓ} → A → Reader A
pure a input = ok (a, input)

-- `if (test) return reader_fail(reader, status);`
abbrev pub fail_if : Bool → Status → Reader (Unit {0})
fail_if test e input = if test then err e else ok (tt, input)

reader_take : Reader ℕ
reader_take [] = err format
reader_take (b ∷ rest) = ok (b, rest)

-- `decoded = (decoded << 8U) | reader->data[reader->pos++]`, `n` times; the bytes are there.
unfoldable pub read_be : ℕ → ℕ → Reader ℕ
read_be zero decoded input = ok (decoded, input)
read_be (suc n) decoded [] = err format
read_be (suc n) decoded (b ∷ rest) = read_be n (bit_or ((decoded * 2 ^ 8) % 2 ^ 64) b) rest

-- The bytes that follow an initial byte with this additional information, 24 or more.
unfoldable pub width_of : ℕ → Option ℕ
width_of additional =
    if additional == 24
    then some 1
    else if additional == 25
    then some 2
    else if additional == 26
    then some 4
    else if additional == 27
    then some 8
    else none

-- A number in more bytes than it needs.
unfoldable pub not_shortest : ℕ → ℕ → Bool
not_shortest width decoded =
    (width == 1 && ltb decoded 24)
    || (width == 2 && leb decoded 0xff)
    || (width == 4 && leb decoded 0xffff)
    || (width == 8 && leb decoded 0xffffffff)

unfoldable pub read_argument : ℕ → Reader ℕ
unfolding read_be not_shortest
read_argument width input =
    if ltb (length input) width
    then err format
    else (do
      decoded ← read_be width 0
      short ← fail_if (not_shortest width decoded) format
      pure decoded)
        input

-- `reader_value` behind the initial byte.
unfoldable pub read_additional : ℕ → Reader ℕ
unfolding width_of read_argument
read_additional additional =
    if ltb additional 24 then pure additional else elim (width_of additional) [
      | none ↦ λ input. err format
      | some width ↦ read_argument width
    ]

unfoldable pub reader_value : ℕ → Reader ℕ
unfolding reader_take read_additional
reader_value expected_major = do
  initial ← reader_take
  major ← fail_if (not (initial / 2 ^ 5 == expected_major)) format
  read_additional (bit_and initial 0x1f)

unfoldable pub reader_expect_uint : ℕ → Reader (Unit {0})
unfolding reader_value
reader_expect_uint expected = do value ← reader_value 0; fail_if (not (value == expected)) format

unfoldable pub reader_count : ℕ → ℕ → Reader ℕ
unfolding reader_value
reader_count major maximum = do
  value ← reader_value major
  fits ← fail_if (ltb maximum value || ltb size_max value) limit
  pure value

unfoldable pub take_slice : ℕ → ℕ → Reader Slice
take_slice major count input =
    if ltb (length input) count
    then err format
    else if major == 3 && not (utf8_valid (take count input))
    then err format
    else ok (view (take count input), drop count input)

unfoldable pub reader_slice : ℕ → ℕ → Reader Slice
unfolding reader_value take_slice
reader_slice major maximum = do
  count ← reader_value major
  fits ← fail_if (ltb maximum count) limit
  take_slice major count

-- A loop of `reader_slice` calls, by the rounds left.
unfoldable pub read_times {ℓ} : {A : Type ℓ} → ℕ → Reader A → Reader (List A)
read_times zero m = pure []
read_times (suc n) m = do a ← m; rest ← read_times n m; pure (a ∷ rest)
