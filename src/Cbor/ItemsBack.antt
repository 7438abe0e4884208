-- ===== src/Cbor/ItemsBack.antt =====
-- What the readers of src/cbor_codec.c read from an item that the writers wrote.
use pvault.Base.{
  ℕ, zero, suc, ◌+◌, ◌*◌, ◌/◌, ◌%◌, ◌^◌, ◌≤◌, ◌<◌, ◌≡◌, refl, sym, ap, ◌∙◌, inl, inr, Bool-cases,
  false, not, ◌&&◌, ◌||◌, some, List, ◌∷◌, ◌++◌, length, bit_and, bit_or, ltb, leb, ◌==◌,
  append_assoc, length-append, take-append_length, drop-append_length, arith,
}
use pvault.Base.Bits.{bit_or_low, bit_and_mask}
use pvault.Cbor.Writer.{be_bytes, initial_byte, type_value_bytes}
use pvault.Cbor.Reader.{
  read_be, width_of, not_shortest, read_argument, read_additional, reader_value, reader_expect_uint,
  reader_count, reader_slice, take_slice, fail_if, proceed, pure,
}
use pvault.Status.{limit, format}
use pvault.Util.{size_max}
use pvault.Result.{ok}
use pvault.Util.Slice.{view}
use pvault.Util.Utf8.{utf8_valid}
use native.Mathlib.Nat.{div-le_self, div-div-eq-div-mul}
use native.Mathlib.Numerals.{towards_suc}
use pvault.Cbor.Items.{blob, item_bytes}

length-be_bytes : (n value : ℕ) → length (be_bytes n value) ≡ n
unfolding be_bytes
length-be_bytes zero value = refl
length-be_bytes (suc n) value = ap suc (length-be_bytes n value)

shift_round : (n value : ℕ) → value / 2 ^ (suc n * 8) ≡ value / 2 ^ (n * 8) / 256
shift_round n value =
    let e : suc n * 8 ≡ n * 8 + 8 = omega arith in
    let p : 2 ^ (n * 8 + 8) ≡ 2 ^ (n * 8) * 256 = simp towards_suc (omega arith) in
    ap (λ (t : ℕ). value / 2 ^ t) e
    ∙ ap (λ (t : ℕ). value / t) p
    ∙ sym (div-div-eq-div-mul value (2 ^ (n * 8)) 256)

-- One round of the reading loop puts the next byte behind the upper part.
next_part : (x : ℕ) → x < 2 ^ 64 → bit_or ((x / 256 * 2 ^ 8) % 2 ^ 64) (x % 256) ≡ x
next_part x h = ground (arith, bit_or_low 8 (x / 256) (x % 256))

-- The upper part `hi` was read; the bytes of `value` below are next.
read_be-be_bytes :
    (n hi value : ℕ) (rest : List ℕ)
    → hi ≡ value / 2 ^ (n * 8)
    → value < 2 ^ 64
    → read_be n hi (be_bytes n value ++ rest) ≡ ok (value, rest)
unfolding read_be be_bytes
read_be-be_bytes zero hi value rest h fits =
    let e : hi ≡ value = omega arith in ap (λ t. ok (t, rest)) e
read_be-be_bytes (suc n) hi value rest h fits =
    read_be-be_bytes n _ value rest
      (ap (λ (t : ℕ). bit_or ((t * 2 ^ 8) % 2 ^ 64) (value / 2 ^ (n * 8) % 256))
          (h ∙ shift_round n value)
        ∙ next_part (value / 2 ^ (n * 8)) (omega (arith, div-le_self value (2 ^ (n * 8)))))
      fits

pub initial_parts :
    (major low : ℕ)
    → major < 8
    → low < 32
    → (initial_byte major low / 2 ^ 5 ≡ major) × (bit_and (initial_byte major low) 0x1f ≡ low)
initial_parts major low hm hl = (omega (arith, sum), bit_and_mask 5 _ ∙ omega (arith, sum))
  where
    sum : initial_byte major low ≡ major * 32 + low
    sum = ground (arith, bit_or_low 5 major low)

read_head :
    (major low : ℕ) (rest : List ℕ)
    → major < 8
    → low < 32
    → reader_value major (initial_byte major low ∷ rest) ≡ read_additional low rest
unfolding reader_value
read_head major low rest hm hl =
    let (top, bits) = initial_parts major low hm hl in
    let same : not (initial_byte major low / 2 ^ 5 == major) ≡ false = ground arith in
    rw (same, bits)

argument_read :
    (width value : ℕ) (rest : List ℕ)
    → not_shortest width value ≡ false
    → 0 ≡ value / 2 ^ (width * 8)
    → value < 2 ^ 64
    → read_argument width (be_bytes width value ++ rest) ≡ ok (value, rest)
unfolding read_argument
argument_read width value rest short whole fits =
    let room : ltb (length (be_bytes width value ++ rest)) width ≡ false =
      ground (arith, length-append (be_bytes width value) rest, length-be_bytes width value) in
    rw (room, read_be-be_bytes width 0 value rest whole fits, short)

module _ (major value : ℕ) (rest : List ℕ) (hm : major < 8) (hv : value < 2 ^ 64) where
  wide :
      (width additional : ℕ)
      → additional < 32
      → ltb additional 24 ≡ false
      → width_of additional ≡ some width
      → not_shortest width value ≡ false
      → 0 ≡ value / 2 ^ (width * 8)
      → reader_value major (initial_byte major additional ∷ (be_bytes width value ++ rest))
        ≡ ok (value, rest)
  wide width additional ha large known short whole =
      read_head major additional (be_bytes width value ++ rest) hm ha
      ∙ (unfold read_additional in
          rw (large, known) (argument_read width value rest short whole hv))

  -- The number of a head that was written is read back, if the major type is the expected one.
  pub reader_value-item :
      reader_value major (type_value_bytes major value ++ rest) ≡ ok (value, rest)
  unfolding type_value_bytes
  reader_value-item = elim (Bool-cases (ltb value 24)) [
    | inl small ↦ rw small (
        read_head major (value % 256) rest hm (ground arith)
        ∙ (unfold read_additional in ground arith))
    | inr p ↦ rw p elim (Bool-cases (leb value 0xff)) [
      | inl q ↦ rw q (
          wide 1 24 (omega arith) refl (unfold width_of in refl)
            (unfold not_shortest in ground arith) (ground arith))
      | inr q ↦ rw q elim (Bool-cases (leb value 0xffff)) [
        | inl r ↦ rw r (
            wide 2 25 (omega arith) refl (unfold width_of in refl)
              (unfold not_shortest in ground arith) (ground arith))
        | inr r ↦ rw r elim (Bool-cases (leb value 0xffffffff)) [
          | inl s ↦ rw s (
              wide 4 26 (omega arith) refl (unfold width_of in refl)
                (unfold not_shortest in ground arith) (ground arith))
          | inr s ↦ rw s (
              wide 8 27 (omega arith) refl (unfold width_of in refl)
                (unfold not_shortest in ground arith) (ground arith))
        ]
      ]
    ]
  ]

pub reader_expect-item :
    (value : ℕ) (rest : List ℕ)
    → value < 2 ^ 64
    → reader_expect_uint value (type_value_bytes 0 value ++ rest) ≡ ok (tt, rest)
unfolding reader_expect_uint
reader_expect-item value rest h =
    ap (λ t. proceed t (λ v. fail_if (not (v == value)) format))
      (reader_value-item 0 value rest (omega arith) h)
    ∙ ground arith

pub reader_count-item :
    (major maximum value : ℕ) (rest : List ℕ)
    → major < 8
    → value ≤ maximum
    → maximum < 2 ^ 64
    → reader_count major maximum (type_value_bytes major value ++ rest) ≡ ok (value, rest)
unfolding reader_count
reader_count-item major maximum value rest hm fits small =
    ap
      (λ t.
        proceed t (λ v input.
          proceed (fail_if (ltb maximum v || ltb size_max v) limit input) (λ u. pure v)))
      (reader_value-item major value rest hm (omega arith))
    ∙ ground arith

take_slice-append :
    (major : ℕ) (bytes rest : List ℕ)
    → (major == 3 && not (utf8_valid bytes)) ≡ false
    → take_slice major (length bytes) (bytes ++ rest) ≡ ok (view bytes, rest)
unfolding take_slice
take_slice-append major bytes rest text =
    let room : ltb (length (bytes ++ rest)) (length bytes) ≡ false =
      ground (arith, length-append bytes rest) in
    rw (
      room,
      take-append_length (length bytes) bytes rest refl,
      drop-append_length (length bytes) bytes rest refl,
      text,
    )

-- So is a string, if it is no longer than allowed, and UTF-8 where that is asked for.
pub reader_slice-item :
    (major maximum : ℕ) (bytes rest : List ℕ)
    → major < 8
    → length bytes ≤ maximum
    → maximum < 2 ^ 64
    → (major == 3 && not (utf8_valid bytes)) ≡ false
    → reader_slice major maximum (item_bytes (blob major bytes) ++ rest) ≡ ok (view bytes, rest)
unfolding reader_slice
reader_slice-item major maximum bytes rest hm fits small text =
    let enough : ltb maximum (length bytes) ≡ false = ground arith in
    ap (reader_slice major maximum) (append_assoc _ bytes rest)
    ∙ ap
        (λ t. proceed t (λ count input.
          proceed (fail_if (ltb maximum count) limit input) (λ u. take_slice major count)))
        (reader_value-item major (length bytes) (bytes ++ rest) hm (omega arith))
    ∙ rw enough (take_slice-append major bytes rest text)
