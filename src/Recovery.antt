-- ===== src/Recovery.antt =====
-- src/recovery.c: the characters of a recovery key. `toupper` and `isspace` are those of the C
-- library in the C locale and in those that encode text in UTF-8, where bytes from 128 on are no
-- letters and no spaces.
pub mod Base32
pub mod Key
mod Letters
mod Encoded
mod Digits
mod Rounds
mod Back
mod KeyBack
mod KeyFits
mod Tests
use pvault.Base.{
  ℕ, suc, ◌+◌, ◌-◌, not, ◌&&◌, ◌||◌, Bool, Option, none, some, List, [], ◌∷◌, leb, ◌==◌,
  if◌then◌else◌,
}

abbrev pub crockford_alphabet : List ℕ
crockford_alphabet =
    b'0' ∷ b'1' ∷ b'2' ∷ b'3' ∷ b'4' ∷ b'5' ∷ b'6' ∷ b'7' ∷ b'8' ∷ b'9' ∷ b'A' ∷ b'B' ∷ b'C' ∷ b'D'
    ∷ b'E' ∷ b'F' ∷ b'G' ∷ b'H' ∷ b'J' ∷ b'K' ∷ b'M' ∷ b'N' ∷ b'P' ∷ b'Q' ∷ b'R' ∷ b'S' ∷ b'T'
    ∷ b'V' ∷ b'W' ∷ b'X' ∷ b'Y' ∷ b'Z' ∷ []

abbrev pub toupper : ℕ → ℕ
toupper c = if leb b'a' c && leb c b'z' then c - (b'a' - b'A') else c

abbrev pub isspace : ℕ → Bool
isspace c = c == b' ' || (leb 9 c && leb c 13)

-- The position of the character in the string; `strchr` finds the 0 at the end too.
abbrev pub position_of : List ℕ → ℕ → Option ℕ
position_of [] c = if c == 0 then some 0 else none
position_of (d ∷ ds) c =
    let rest = position_of ds c in
    if c == d then some 0 else elim rest [ none ↦ none | some i ↦ some (suc i) ]

-- `crockford_value`; `none` is -1.
unfoldable pub crockford_value : ℕ → Option ℕ
crockford_value c =
    let upper = toupper c in
    if upper == b'O'
    then some 0
    else if upper == b'I' || upper == b'L'
    then some 1
    else position_of crockford_alphabet upper
