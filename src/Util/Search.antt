-- ===== src/Util/Search.antt =====
-- src/util.c: `pv_slice_equal_cstr` and `pv_slice_contains_cstr`. A string is the list of its
-- characters, and neither it nor the slice is NULL.
use pvault.Base.{
  ℕ, zero, suc, ◌+◌, ◌-◌, Bool, true, false, not, ◌||◌, List, [], ◌∷◌, length, drop, ltb, ◌==◌,
  if◌then◌else◌,
}
use pvault.Util.Hex.{ascii_fold}
use pvault.Util.Slice.{Slice, len, items}

-- `ascii_casefold ? ascii_fold(c) : c`
abbrev pub compared : Bool → ℕ → ℕ
compared true c = ascii_fold c
compared false c = c

-- The comparison of the needle with the characters from here on; all of them are there.
unfoldable pub starts_with : Bool → List ℕ → List ℕ → Bool
starts_with fold [] chars = true
starts_with fold (n ∷ needle) [] = false
starts_with fold (n ∷ needle) (c ∷ chars) =
    let rest = starts_with fold needle chars in
    if not (compared fold c == compared fold n) then false else rest

-- `pv_slice_equal_cstr`
unfoldable pub slice_equal_cstr : Bool → Slice → List ℕ → Bool
slice_equal_cstr fold slice text =
    if not (len slice == length text) then false else starts_with fold text (items slice)

-- The loop over the positions, by how many are left.
unfoldable pub search_loop : Bool → ℕ → List ℕ → List ℕ → Bool
search_loop fold zero needle chars = false
search_loop fold (suc left) needle chars =
    let rest = search_loop fold left needle (drop 1 chars) in
    if starts_with fold needle chars then true else rest

-- `pv_slice_contains_cstr`
unfoldable pub slice_contains_cstr : Bool → Slice → List ℕ → Bool
slice_contains_cstr fold slice text =
    if length text == 0 || ltb (len slice) (length text)
    then false
    else search_loop fold (len slice - length text + 1) text (items slice)
