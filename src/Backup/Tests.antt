-- ===== src/Backup/Tests.antt =====
-- The names of automatic backups on given values.
use pvault.Backup.{
  auto_prefix, marker, extension, format_automatic_backup_name, parse_automatic_backup_name,
  decimal, parse_digits,
}
use pvault.Backup.Names.{parse_automatic_backup_name_iff}
use pvault.Base.{
  ℕ, zero, suc, ◌≡◌, ◌-◌, ◌^◌, refl, none, some, List, [], ◌∷◌, ◌++◌, length, ◌<◌, ◌↔◌, replicate,
  arith, All,
}
use pvault.Base.Words.{IsByte}
use pvault.Util.Hex.{hex_digits}
use pvault.Result.{ok, err}
use pvault.Status.{usage}

abbrev some_id : List ℕ
some_id = 0xab ∷ replicate 15 0x3c

abbrev some_name : List ℕ
some_name = auto_prefix ++ (hex_digits some_id ++ (marker ++ (decimal 20 42 ++ extension)))

decimal_padded : decimal 4 57 ≡ b'0' ∷ b'0' ∷ b'5' ∷ b'7' ∷ []
unfolding decimal
decimal_padded = refl

-- The last number of 64 bits is read, the next one is not.
largest_read : parse_digits 0 (decimal 20 (2 ^ 64 - 1)) ≡ some (2 ^ 64 - 1)
unfolding decimal parse_digits
largest_read = refl

overflow_refused : parse_digits 0 (decimal 20 (2 ^ 64)) ≡ none
unfolding decimal parse_digits
overflow_refused = refl

generation_zero : format_automatic_backup_name some_id 0 ≡ err usage
unfolding format_automatic_backup_name
generation_zero = refl

replicate-IsByte : (n b : ℕ) → IsByte b → All IsByte (replicate n b)
replicate-IsByte zero b small = tt
replicate-IsByte (suc n) b small = (small, replicate-IsByte n b small)

some_id-IsByte : All IsByte some_id
some_id-IsByte = (omega arith, replicate-IsByte 15 0x3c (omega arith))

parse_automatic_backup_name_iff_example :
    (parse_automatic_backup_name some_name ≡ some (some_id, 42)) ↔ (
      (length some_id ≡ 16)
      × All IsByte some_id
      × (0 < 42)
      × (42 < 2 ^ 64)
      × (format_automatic_backup_name some_id 42 ≡ ok some_name))
parse_automatic_backup_name_iff_example = parse_automatic_backup_name_iff some_name some_id 42

-- The name of that backup is one that is read.
some_name_read : parse_automatic_backup_name some_name ≡ some (some_id, 42)
unfolding parse_automatic_backup_name decimal hex_digits pvault.Base.bytes_eq
some_name_read = refl
