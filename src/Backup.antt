-- ===== src/Backup.antt =====
-- src/store.c: the names of automatic backups, written and read.
mod NameFits
mod NameBack
mod Names
mod Tests
use pvault.Base.{
  ℕ, zero, suc, ◌+◌, ◌-◌, ◌*◌, ◌/◌, ◌%◌, ◌^◌, not, ◌&&◌, ◌||◌, Option, none, some, List, [], ◌∷◌,
  ◌++◌, length, take, drop, bytes_eq, ltb, leb, ◌==◌, if◌then◌else◌,
}
use pvault.Result.{Result, ok, err}
use pvault.Status.{usage, state, limit}
use pvault.Util.Hex.{hex_encode, put_first}

-- `PV_AUTO_BACKUP_PREFIX`
abbrev pub auto_prefix : List ℕ
auto_prefix = b'a' ∷ b'u' ∷ b't' ∷ b'o' ∷ b'-' ∷ b'v' ∷ b'1' ∷ b'-' ∷ []

abbrev pub marker : List ℕ
marker = b'-' ∷ b'g' ∷ []

abbrev pub extension : List ℕ
extension = b'.' ∷ b'p' ∷ b'v' ∷ b'l' ∷ b't' ∷ []

-- `%0<n>llu` of a number of at most n digits
unfoldable pub decimal : ℕ → ℕ → List ℕ
decimal zero value = []
decimal (suc n) value = decimal n (value / 10) ++ ((b'0' + value % 10) ∷ [])

-- `snprintf`, and the test of what it answers
abbrev pub printed : Option (List ℕ) → ℕ → Result (List ℕ)
printed none generation = err state
printed (some []) generation = err state
printed (some (c ∷ hex)) generation =
    let name = auto_prefix ++ ((c ∷ hex) ++ (marker ++ (decimal 20 generation ++ extension))) in
    if length name == 67 then ok name else err limit

unfoldable pub format_automatic_backup_name : List ℕ → ℕ → Result (List ℕ)
unfolding hex_encode
format_automatic_backup_name vault_id generation =
    if generation == 0 then err usage else printed (hex_encode vault_id 33) generation

-- `none` is -1.
unfoldable pub lowercase_hex_value : ℕ → Option ℕ
lowercase_hex_value c =
    if leb b'0' c && leb c b'9'
    then some (c - b'0')
    else if leb b'a' c && leb c b'f'
    then some (c - b'a' + 10)
    else none

abbrev pub byte_of : Option ℕ → Option ℕ → Option ℕ
byte_of none low = none
byte_of (some high) none = none
byte_of (some high) (some low) = some ((high * 16 + low) % 2 ^ 8)

-- The loop over the digits of the vault's id; they are there.
unfoldable pub id_bytes : ℕ → List ℕ → Option (List ℕ)
unfolding lowercase_hex_value
id_bytes zero name = some []
id_bytes (suc n) [] = none
id_bytes (suc n) (high ∷ []) = none
id_bytes (suc n) (high ∷ low ∷ name) =
    let rest = id_bytes n name in
    put_first (byte_of (lowercase_hex_value high) (lowercase_hex_value low)) rest

-- The loop over the digits of the generation.
unfoldable pub parse_digits : ℕ → List ℕ → Option ℕ
parse_digits value [] = some value
parse_digits value (c ∷ digits) =
    let rest = parse_digits ((value * 10 + (c - b'0')) % 2 ^ 64) digits in
    if ltb c b'0' || ltb b'9' c
    then none
    else if ltb ((2 ^ 64 - 1 - (c - b'0')) / 10) value
    then none
    else rest

abbrev pub identified : Option (List ℕ) → Option ℕ → Option (List ℕ × ℕ)
identified none generation = none
identified (some vault_id) none = none
identified (some vault_id) (some generation) =
    if generation == 0 then none else some (vault_id, generation)

-- The id and the generation in a name; `none` is the answer `false`.
unfoldable pub parse_automatic_backup_name : List ℕ → Option (List ℕ × ℕ)
unfolding id_bytes parse_digits
parse_automatic_backup_name name =
    if not (length name == 67)
      || not (bytes_eq (take 8 name) auto_prefix)
      || not (bytes_eq (take 2 (drop 40 name)) marker)
      || not (bytes_eq (take 5 (drop 62 name)) extension)
    then none
    else identified (id_bytes 16 (drop 8 name)) (parse_digits 0 (take 20 (drop 42 name)))
