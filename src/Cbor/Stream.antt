-- ===== src/Cbor/Stream.antt =====
-- `libcbor_well_formed` of src/cbor_codec.c on what the encoder writes. libcbor's stream decoder
-- reads one item: a head, and the bytes of a string.
use pvault.Base.{
  ℕ, zero, suc, ◌^◌, ◌≤◌, ◌<◌, ◌≡◌, refl, ap, ◌∙◌, true, false, ◌||◌, Option, some, List, [], ◌∷◌,
  ◌++◌, All, length, length-append, drop-append_length, ltb, ◌==◌, arith,
}
use pvault.Cbor.Decode.{well_formed_loop, libcbor_well_formed}
use pvault.Cbor.Items.{Item, head, blob, item_bytes, items_bytes}
use pvault.Cbor.Writer.{type_value_bytes}

-- The items of the subset: counts and unsigned integers, and strings.
abbrev pub IsItem : Item → Type 0
IsItem (head major value) = ((major == 0) || (major == 4) || (major == 5)) ≡ true × (value < 2 ^ 64)
IsItem (blob major bytes) = ((major == 2) || (major == 3)) ≡ true × (length bytes < 2 ^ 64)

-- What libcbor documents of `cbor_stream_decode`: it finishes an item and says how many bytes it read.
abbrev pub StreamDecodes : (List ℕ → Option ℕ) → Type 0
StreamDecodes stream_decode =
    (item : Item) (rest : List ℕ)
    → IsItem item
    → stream_decode (item_bytes item ++ rest) ≡ some (length (item_bytes item))

some_head : (major value : ℕ) → 0 < length (type_value_bytes major value)
unfolding type_value_bytes
some_head major value = ground arith

some_bytes : (item : Item) → 0 < length (item_bytes item)
some_bytes (head major value) = some_head major value
some_bytes (blob major bytes) = omega (
  arith,
  some_head major (length bytes),
  length-append (type_value_bytes major (length bytes)) bytes,
)

loop_step :
    (stream_decode : List ℕ → Option ℕ) (fuel : ℕ) (front rest : List ℕ)
    → 0 < length front
    → stream_decode (front ++ rest) ≡ some (length front)
    → well_formed_loop stream_decode (suc fuel) (front ++ rest)
      ≡ well_formed_loop stream_decode fuel rest
unfolding well_formed_loop
loop_step stream_decode fuel [] rest h e = absurd (omega arith)
loop_step stream_decode fuel (b ∷ front) rest h e =
    let whole : (suc (length front) == 0 || ltb (suc (length (front ++ rest))) (suc (length front)))
        ≡ false =
      ground (arith, length-append front rest) in
    rw (e, well_formed_loop, whole)
      (ap (well_formed_loop stream_decode fuel) (drop-append_length (length front) front rest refl))

module _ (stream_decode : List ℕ → Option ℕ) (decodes : StreamDecodes stream_decode) where
  loop-items :
      (items : List Item) (fuel : ℕ)
      → All IsItem items
      → length (items_bytes items []) ≤ fuel
      → well_formed_loop stream_decode fuel (items_bytes items []) ≡ true
  loop-items [] fuel h enough = unfold well_formed_loop in refl
  loop-items (x ∷ xs) zero h enough =
      absurd (omega (arith, some_bytes x, length-append (item_bytes x) (items_bytes xs [])))
  loop-items (x ∷ xs) (suc fuel) (h, hs) enough =
      loop_step stream_decode fuel (item_bytes x) (items_bytes xs []) (some_bytes x)
        (decodes x (items_bytes xs []) h)
      ∙ loop-items xs fuel hs
          (omega (arith, some_bytes x, length-append (item_bytes x) (items_bytes xs [])))

  -- Whatever items are written, libcbor finds them well-formed.
  pub well_formed-items :
      (items : List Item)
      → All IsItem items
      → libcbor_well_formed stream_decode (items_bytes items []) ≡ true
  unfolding libcbor_well_formed
  well_formed-items items h = loop-items items (length (items_bytes items [])) h (omega arith)
