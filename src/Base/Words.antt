-- ===== src/Base/Words.antt =====
-- src/crypto.c: the little-endian integers of the file header (`put_u16_le` to `get_u64_le`).
use Prim.Native.Nat.{ℕ, zero, suc, ◌+◌, ◌*◌, ◌/◌, ◌%◌, ◌^◌, ◌≤◌, ◌<◌, bit_or}
use mathlib.Core.Path.{◌≡◌, refl, ap, ap₂, sym, ◌∙◌}
use mathlib.Core.List.{List, [], ◌∷◌}
use native.Mathlib.Omega.{arith}
use native.Mathlib.Nat.{div-div-eq-div-mul, mod-eq_of_lt, pow-suc, pow-le-pow_right}
use native.Mathlib.Numerals.{towards_suc}
use pvault.Base.Lists.{length, All}
use pvault.Base.Bits.{bit_or_high}

abbrev pub IsByte : ℕ → Type 0
IsByte b = b < 256

-- `for (i = 0; i < n; ++i) out[i] = (uint8_t)(value >> (i * 8U));` from round `i` on
put_le : ℕ → ℕ → ℕ → List ℕ
put_le zero i value = []
put_le (suc n) i value = (value / 2 ^ (i * 8)) % 256 ∷ put_le n (i + 1) value

unfoldable pub put_u16_le : ℕ → List ℕ
put_u16_le value = value % 256 ∷ (value / 2 ^ 8) % 256 ∷ []

unfoldable pub put_u32_le : ℕ → List ℕ
unfolding put_le
put_u32_le value = put_le 4 0 value

unfoldable pub put_u64_le : ℕ → List ℕ
unfolding put_le
put_u64_le value = put_le 8 0 value

-- `for (i = 0; i < n; ++i) value |= (uintW_t)in[i] << (i * 8U);` in a word of `w` bits; the list is
-- what the loop has not read
get_le : ℕ → List ℕ → ℕ → ℕ → ℕ
get_le w [] i value = value
get_le w (b ∷ bs) i value = get_le w bs (i + 1) (bit_or value ((b * 2 ^ (i * 8)) % 2 ^ w))

-- The argument is the window of bytes that the source reads from its pointer on.
unfoldable pub get_u16_le : List ℕ → ℕ
unfolding get_le
get_u16_le input = get_le 16 input 0 0

unfoldable pub get_u32_le : List ℕ → ℕ
unfolding get_le
get_u32_le input = get_le 32 input 0 0

unfoldable pub get_u64_le : List ℕ → ℕ
unfolding get_le
get_u64_le input = get_le 64 input 0 0

-- The number that the bytes stand for, lowest first, and the n lowest bytes of a number.
abbrev pub le_value : List ℕ → ℕ
le_value [] = 0
le_value (b ∷ bs) = b + 256 * le_value bs

abbrev pub le_bytes : ℕ → ℕ → List ℕ
le_bytes zero v = []
le_bytes (suc n) v = v % 256 ∷ le_bytes n (v / 256)

pow_byte : (i : ℕ) → 2 ^ ((i + 1) * 8) ≡ 2 ^ (i * 8) * 256
pow_byte i = let e : (i + 1) * 8 ≡ i * 8 + 8 = omega arith in rw e (simp towards_suc (omega arith))

shift_byte : (v i : ℕ) → v / 2 ^ ((i + 1) * 8) ≡ v / 2 ^ (i * 8) / 256
shift_byte v i = ap (λ (t : ℕ). v / t) (pow_byte i) ∙ sym (div-div-eq-div-mul v (2 ^ (i * 8)) 256)

put_le-bytes : (n i v : ℕ) → put_le n i v ≡ le_bytes n (v / 2 ^ (i * 8))
unfolding put_le
put_le-bytes zero i v = refl
put_le-bytes (suc n) i v =
    ap (λ t. v / 2 ^ (i * 8) % 256 ∷ t)
      (put_le-bytes n (i + 1) v ∙ ap (le_bytes n) (shift_byte v i))

pub le_value-le_bytes : (n v : ℕ) → v < 256 ^ n → le_value (le_bytes n v) ≡ v
le_value-le_bytes zero v h = omega arith
le_value-le_bytes (suc n) v h =
    omega (arith, pow-suc 256 n, le_value-le_bytes n (v / 256) (omega (arith, pow-suc 256 n)))

pub le_bytes-le_value :
    (n : ℕ) (bs : List ℕ) → n ≡ length bs → All IsByte bs → le_bytes n (le_value bs) ≡ bs
le_bytes-le_value zero [] e h = refl
le_bytes-le_value zero (b ∷ bs) e h = absurd (omega arith)
le_bytes-le_value (suc n) [] e h = absurd (omega arith)
le_bytes-le_value (suc n) (b ∷ bs) e (h, hs) =
    let low : (b + 256 * le_value bs) % 256 ≡ b = omega arith in
    let high : (b + 256 * le_value bs) / 256 ≡ le_value bs = omega arith in
    ap₂ (λ x t. x ∷ t) low (ap (le_bytes n) high ∙ le_bytes-le_value n bs (omega arith) hs)

-- A shifted byte stays inside the word, so its `|=` adds it.
or_byte :
    (w i b value : ℕ)
    → b < 256
    → value < 2 ^ (i * 8)
    → (i + 1) * 8 ≤ w
    → (bit_or value ((b * 2 ^ (i * 8)) % 2 ^ w) ≡ value + b * 2 ^ (i * 8))
      × (value + b * 2 ^ (i * 8) < 2 ^ ((i + 1) * 8))
or_byte w i b value hb hv hw = (
  ap (bit_or value) (mod-eq_of_lt (omega (arith, fits, room))) ∙ bit_or_high (i * 8) b value hv,
  fits,
)
  where
    room : 2 ^ ((i + 1) * 8) ≤ 2 ^ w
    room = pow-le-pow_right (omega arith) hw

    fits : value + b * 2 ^ (i * 8) < 2 ^ ((i + 1) * 8)
    fits = rw pow_byte (grind arith)

get_le-value :
    (w i : ℕ) (bs : List ℕ) (value : ℕ)
    → All IsByte bs
    → value < 2 ^ (i * 8)
    → (i + length bs) * 8 ≤ w
    → get_le w bs i value ≡ value + 2 ^ (i * 8) * le_value bs
unfolding get_le
get_le-value w i [] value h hv hw = omega arith
get_le-value w i (b ∷ bs) value (h, hs) hv hw =
    let (sum, fits) = or_byte w i b value h hv (omega arith) in
    ap (get_le w bs (i + 1)) sum
    ∙ get_le-value w (i + 1) bs (value + b * 2 ^ (i * 8)) hs fits (omega arith)
    ∙ omega (arith, ap (λ (t : ℕ). t * le_value bs) (pow_byte i))

put_le_all : (n v : ℕ) → put_le n 0 v ≡ le_bytes n v
put_le_all n v = put_le-bytes n 0 v ∙ ap (le_bytes n) (omega arith)

pub put_u16-bytes : (v : ℕ) → put_u16_le v ≡ le_bytes 2 v
unfolding put_u16_le
put_u16-bytes v = refl

pub put_u32-bytes : (v : ℕ) → put_u32_le v ≡ le_bytes 4 v
unfolding put_u32_le
put_u32-bytes v = put_le_all 4 v

pub put_u64-bytes : (v : ℕ) → put_u64_le v ≡ le_bytes 8 v
unfolding put_u64_le
put_u64-bytes v = put_le_all 8 v

get_le_whole :
    (w : ℕ) (bs : List ℕ) → All IsByte bs → length bs * 8 ≤ w → get_le w bs 0 0 ≡ le_value bs
get_le_whole w bs h hw = get_le-value w 0 bs 0 h (omega arith) (omega arith) ∙ omega arith

pub get_u16-value : (bs : List ℕ) → All IsByte bs → length bs ≡ 2 → get_u16_le bs ≡ le_value bs
unfolding get_u16_le
get_u16-value bs h e = get_le_whole 16 bs h (omega arith)

pub get_u32-value : (bs : List ℕ) → All IsByte bs → length bs ≡ 4 → get_u32_le bs ≡ le_value bs
unfolding get_u32_le
get_u32-value bs h e = get_le_whole 32 bs h (omega arith)

pub get_u64-value : (bs : List ℕ) → All IsByte bs → length bs ≡ 8 → get_u64_le bs ≡ le_value bs
unfolding get_u64_le
get_u64-value bs h e = get_le_whole 64 bs h (omega arith)

pub length-le_bytes : (n v : ℕ) → length (le_bytes n v) ≡ n
length-le_bytes zero v = refl
length-le_bytes (suc n) v = ap suc (length-le_bytes n (v / 256))

pub le_bytes-IsByte : (n v : ℕ) → All IsByte (le_bytes n v)
le_bytes-IsByte zero v = tt
le_bytes-IsByte (suc n) v = (omega arith, le_bytes-IsByte n (v / 256))

le_value-lt : (n : ℕ) (bs : List ℕ) → length bs ≡ n → All IsByte bs → le_value bs < 256 ^ n
le_value-lt zero [] e h = omega arith
le_value-lt zero (b ∷ bs) e h = absurd (omega arith)
le_value-lt (suc n) [] e h = absurd (omega arith)
le_value-lt (suc n) (b ∷ bs) e (h, hs) =
    omega (arith, le_value-lt n bs (omega arith) hs, pow-suc 256 n)

pub get_u16-lt : (bs : List ℕ) → All IsByte bs → length bs ≡ 2 → get_u16_le bs < 2 ^ 16
get_u16-lt bs h e = omega (arith, get_u16-value bs h e, le_value-lt 2 bs e h)

pub get_u32-lt : (bs : List ℕ) → All IsByte bs → length bs ≡ 4 → get_u32_le bs < 2 ^ 32
get_u32-lt bs h e = omega (arith, get_u32-value bs h e, le_value-lt 4 bs e h)

pub get_u64-lt : (bs : List ℕ) → All IsByte bs → length bs ≡ 8 → get_u64_le bs < 2 ^ 64
get_u64-lt bs h e = omega (arith, get_u64-value bs h e, le_value-lt 8 bs e h)

-- A word that was written is read back.
pub get_u16-put_u16 : (v : ℕ) → v < 2 ^ 16 → get_u16_le (put_u16_le v) ≡ v
get_u16-put_u16 v h =
    rw put_u16-bytes (get_u16-value _ (le_bytes-IsByte 2 v) refl ∙ le_value-le_bytes 2 v h)

pub get_u32-put_u32 : (v : ℕ) → v < 2 ^ 32 → get_u32_le (put_u32_le v) ≡ v
get_u32-put_u32 v h =
    rw put_u32-bytes (get_u32-value _ (le_bytes-IsByte 4 v) refl ∙ le_value-le_bytes 4 v h)

pub get_u64-put_u64 : (v : ℕ) → v < 2 ^ 64 → get_u64_le (put_u64_le v) ≡ v
get_u64-put_u64 v h =
    rw put_u64-bytes (get_u64-value _ (le_bytes-IsByte 8 v) refl ∙ le_value-le_bytes 8 v h)

-- Bytes that were read are written back.
pub put_u16-get_u16 :
    (bs : List ℕ) → All IsByte bs → length bs ≡ 2 → put_u16_le (get_u16_le bs) ≡ bs
put_u16-get_u16 bs h e = rw (put_u16-bytes, get_u16-value bs h e) (le_bytes-le_value 2 bs (sym e) h)

pub put_u32-get_u32 :
    (bs : List ℕ) → All IsByte bs → length bs ≡ 4 → put_u32_le (get_u32_le bs) ≡ bs
put_u32-get_u32 bs h e = rw (put_u32-bytes, get_u32-value bs h e) (le_bytes-le_value 4 bs (sym e) h)

pub put_u64-get_u64 :
    (bs : List ℕ) → All IsByte bs → length bs ≡ 8 → put_u64_le (get_u64_le bs) ≡ bs
put_u64-get_u64 bs h e = rw (put_u64-bytes, get_u64-value bs h e) (le_bytes-le_value 8 bs (sym e) h)
