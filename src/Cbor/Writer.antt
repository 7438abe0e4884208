-- ===== src/Cbor/Writer.antt =====
-- src/cbor_codec.c: `cbor_writer`. A writer that failed writes no more and its buffer is freed, so a
-- writer is a function from the bytes written before to the bytes written then, or the status.
use pvault.Base.{
  ℕ, zero, suc, ◌*◌, ◌/◌, ◌%◌, ◌^◌, none, some, List, [], ◌∷◌, ◌++◌, length, bit_or, ltb, leb, ◌==◌,
  if◌then◌else◌,
}
use pvault.Header.{max_plaintext}
use pvault.Result.{Result, ok, err, ◌>>=◌}
use pvault.Status.{limit, format}
use pvault.Util.{size_add}
use pvault.Util.Slice.{Slice, null, view, len}

abbrev pub Writer : Type 0
Writer = List ℕ → Result (List ℕ)

-- `PV_MAX_PLAINTEXT`, the capacity of the buffer
unfoldable pub append_bytes : List ℕ → Writer
append_bytes bytes out = elim (size_add (length out) (length bytes)) [
  | none ↦ err limit
  | some end ↦ if ltb max_plaintext end then err limit else ok (out ++ bytes)
]

unfoldable pub writer_bytes : Slice → Writer
unfolding append_bytes size_add
writer_bytes (null n) out = if n == 0 then ok out else err format
writer_bytes (view bytes) out = if length bytes == 0 then ok out else append_bytes bytes out

-- `bytes[1U + i] = (uint8_t)(value >> ((n - 1 - i) * 8U))`, by the rounds left
unfoldable pub be_bytes : ℕ → ℕ → List ℕ
be_bytes zero value = []
be_bytes (suc n) value = (value / 2 ^ (n * 8)) % 256 ∷ be_bytes n value

-- `(uint8_t)(major << 5U) | low`
abbrev pub initial_byte : ℕ → ℕ → ℕ
initial_byte major low = bit_or ((major * 2 ^ 5) % 256) low

-- The bytes that `writer_type_value` writes.
unfoldable pub type_value_bytes : ℕ → ℕ → List ℕ
type_value_bytes major value =
    if ltb value 24
    then initial_byte major (value % 256) ∷ []
    else if leb value 0xff
    then initial_byte major 24 ∷ be_bytes 1 value
    else if leb value 0xffff
    then initial_byte major 25 ∷ be_bytes 2 value
    else if leb value 0xffffffff
    then initial_byte major 26 ∷ be_bytes 4 value
    else initial_byte major 27 ∷ be_bytes 8 value

unfoldable pub writer_type_value : ℕ → ℕ → Writer
unfolding writer_bytes type_value_bytes be_bytes
writer_type_value major value = writer_bytes (view (type_value_bytes major value))

-- `writer_uint`, `writer_map`, `writer_array`
abbrev pub writer_uint : ℕ → Writer
writer_uint value = writer_type_value 0 value

abbrev pub writer_map : ℕ → Writer
writer_map count = writer_type_value 5 count

abbrev pub writer_array : ℕ → Writer
writer_array count = writer_type_value 4 count

unfoldable pub writer_blob : ℕ → Slice → Writer
unfolding writer_type_value writer_bytes
writer_blob major slice out = writer_type_value major (len slice) out >>= writer_bytes slice

-- The statements of a C function, one after the other.
unfoldable pub seq : List Writer → Writer
seq [] out = ok out
seq (w ∷ ws) out = w out >>= seq ws
