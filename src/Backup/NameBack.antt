-- ===== src/Backup/NameBack.antt =====
-- src/store.c: the name of an automatic backup, read back.
use pvault.Backup.{
  auto_prefix, marker, extension, decimal, printed, format_automatic_backup_name,
  lowercase_hex_value, byte_of, id_bytes, parse_digits, identified, parse_automatic_backup_name,
}
use pvault.Base.{
  ℕ, zero, suc, ◌+◌, ◌-◌, ◌*◌, ◌/◌, ◌%◌, ◌^◌, ◌<◌, ◌≡◌, refl, sym, ap, ap₂, ◌∙◌, Bool, true, false,
  Option, none, some, List, [], ◌∷◌, ◌++◌, All, length, take, drop, bytes_eq, length-append,
  take-append_length, drop-append_length, drop-drop, ◌==◌, if◌then◌else◌, arith, bit_and,
}
use pvault.Base.Bits.{bit_and_mask}
use pvault.Base.Tried.{tried, tried-lt}
use pvault.Base.Words.{IsByte}
use pvault.Result.{ok, err}
use pvault.Status.{limit}
use pvault.Util.HexBack.{length-digits}
use pvault.Util.Hex.{alphabet, char_at, hex_digits, hex_encode}

abbrev holds : Option ℕ → ℕ → Bool
holds none d = false
holds (some v) d = v == d

holds_eq : (o : Option ℕ) (d : ℕ) → holds o d ≡ true → o ≡ some d
holds_eq none d h = absurd (ground arith)
holds_eq (some v) d h = ap some (ground arith)

-- A digit that is written is read as its value.
digit_read : (d : ℕ) → d < 16 → lowercase_hex_value (char_at alphabet d) ≡ some d
unfolding lowercase_hex_value tried
digit_read d small =
    holds_eq (lowercase_hex_value (char_at alphabet d)) d
      (tried-lt (λ k. holds (lowercase_hex_value (char_at alphabet k)) k) 16 d refl small)

pair_read :
    (b : ℕ)
    → IsByte b
    → byte_of
        (lowercase_hex_value (char_at alphabet (b / 2 ^ 4)))
        (lowercase_hex_value (char_at alphabet (bit_and b 0x0f)))
      ≡ some b
pair_read b small =
    let mask : bit_and b 0x0f ≡ b % 16 = bit_and_mask 4 b in
    rw (digit_read (b / 2 ^ 4) (omega arith), digit_read (bit_and b 0x0f) (omega arith))
      (ap some (omega arith))

id_bytes-digits :
    (bytes rest : List ℕ)
    → All IsByte bytes
    → id_bytes (length bytes) (hex_digits bytes ++ rest) ≡ some bytes
unfolding id_bytes hex_digits
id_bytes-digits [] rest h = refl
id_bytes-digits (b ∷ bytes) rest (small, smalls) =
    rw (pair_read b small, id_bytes-digits bytes rest smalls)

length-decimal : (n value : ℕ) → length (decimal n value) ≡ n
unfolding decimal
length-decimal zero value = refl
length-decimal (suc n) value =
    length-append (decimal n (value / 10)) ((b'0' + value % 10) ∷ [])
    ∙ omega (arith, length-decimal n (value / 10))

-- One more digit after those read.
one_more :
    (value read d : ℕ) (digits : List ℕ)
    → d < 10
    → read * 10 + d < 2 ^ 64
    → parse_digits value digits ≡ some read
    → parse_digits value (digits ++ ((b'0' + d) ∷ [])) ≡ some (read * 10 + d)
unfolding parse_digits
one_more value read d [] small fits e = ground arith
one_more value read d (c ∷ digits) small fits e =
    let next = one_more ((value * 10 + (c - b'0')) % 2 ^ 64) read d digits small fits in
    ground (arith, next)

parse_digits-decimal :
    (n value : ℕ) → value < 10 ^ n → value < 2 ^ 64 → parse_digits 0 (decimal n value) ≡ some value
unfolding decimal parse_digits
parse_digits-decimal zero value small fits = ap some (omega arith)
parse_digits-decimal (suc n) value small fits =
    one_more 0 (value / 10) (value % 10) (decimal n (value / 10)) (omega arith) (omega arith) (
      parse_digits-decimal n (value / 10)
        (let next : 10 ^ suc n ≡ 10 ^ n * 10 = omega arith in omega arith) (omega arith))
    ∙ ap some (omega arith)

abbrev pub tail : ℕ → List ℕ
tail generation = marker ++ (decimal 20 generation ++ extension)

length-tail : (generation : ℕ) → length (tail generation) ≡ 27
length-tail generation =
    let parts = length-append (decimal 20 generation) extension in
    omega (arith, parts, length-decimal 20 generation)

-- The parts of a name, at their places.
module _ (hex : List ℕ) (generation : ℕ) (sized : length hex ≡ 32) where
  length-name : length (auto_prefix ++ hex ++ tail generation) ≡ 67
  length-name =
      let parts = length-append hex (tail generation) in
      omega (arith, parts, length-tail generation, sized)

  drop-name :
      (n k : ℕ)
      → n ≡ 40 + k
      → drop n (auto_prefix ++ hex ++ tail generation) ≡ drop k (tail generation)
  drop-name n k h =
      drop-drop 40 k n (auto_prefix ++ hex ++ tail generation) h
      ∙ ap (drop k) (drop-append_length 32 hex (tail generation) (sym sized))

  take-generation :
      take 20 (drop 42 (auto_prefix ++ hex ++ tail generation)) ≡ decimal 20 generation
  take-generation =
      ap (take 20) (drop-name 42 2 refl)
      ∙ take-append_length 20 (decimal 20 generation) extension (sym (length-decimal 20 generation))

  drop-extension : drop 62 (auto_prefix ++ hex ++ tail generation) ≡ extension
  drop-extension =
      drop-name 62 22 refl
      ∙ drop-append_length 20 (decimal 20 generation) extension (sym (length-decimal 20 generation))

printed_lem :
    (hex : List ℕ) (generation : ℕ)
    → length hex ≡ 32
    → printed (some hex) generation ≡ ok (auto_prefix ++ hex ++ tail generation)
printed_lem [] generation sized = absurd (omega arith)
printed_lem (c ∷ hex) generation sized =
    let long : length (auto_prefix ++ (c ∷ hex) ++ tail generation) == 67 ≡ true =
      ap (λ n. n == 67) (length-name (c ∷ hex) generation sized) in
    ap (λ b. if b then ok (auto_prefix ++ (c ∷ hex) ++ tail generation) else err limit) long

pub format_lem :
    (vault_id : List ℕ) (generation : ℕ)
    → length vault_id ≡ 16
    → 0 < generation
    → format_automatic_backup_name vault_id generation
      ≡ ok (auto_prefix ++ hex_digits vault_id ++ tail generation)
unfolding format_automatic_backup_name hex_encode
format_lem vault_id generation sized positive =
    let wide : length (hex_digits vault_id) ≡ 32 = omega (arith, length-digits vault_id) in
    ground (arith, printed_lem (hex_digits vault_id) generation wide)

parse_parts :
    (name digits : List ℕ)
    → length name ≡ 67
    → take 8 name ≡ auto_prefix
    → take 2 (drop 40 name) ≡ marker
    → take 5 (drop 62 name) ≡ extension
    → take 20 (drop 42 name) ≡ digits
    → parse_automatic_backup_name name
      ≡ identified (id_bytes 16 (drop 8 name)) (parse_digits 0 digits)
unfolding parse_automatic_backup_name bytes_eq
parse_parts name digits sized start middle end generation =
    rw (sized, start, middle, end, generation) refl

identified-some :
    (vault_id : List ℕ) (generation : ℕ)
    → 0 < generation
    → identified (some vault_id) (some generation) ≡ some (vault_id, generation)
identified-some vault_id generation positive = ground arith

pub name_back :
    (vault_id : List ℕ) (generation : ℕ)
    → length vault_id ≡ 16
    → All IsByte vault_id
    → 0 < generation
    → generation < 2 ^ 64
    → parse_automatic_backup_name (auto_prefix ++ hex_digits vault_id ++ tail generation)
      ≡ some (vault_id, generation)
name_back vault_id generation sized bytes positive fits =
    let hex = hex_digits vault_id in
    let wide : length hex ≡ 32 = omega (arith, length-digits vault_id) in
    let id_back : id_bytes 16 (hex ++ tail generation) ≡ some vault_id =
      ap (λ n. id_bytes n (hex ++ tail generation)) (sym sized)
      ∙ id_bytes-digits vault_id (tail generation) bytes in
    let generation_back = parse_digits-decimal 20 generation (omega arith) fits in
    parse_parts (auto_prefix ++ hex ++ tail generation) (decimal 20 generation)
      (length-name hex generation wide) refl (ap (take 2) (drop-name hex generation wide 40 0 refl))
      (ap (take 5) (drop-extension hex generation wide)) (take-generation hex generation wide)
    ∙ ap₂ identified id_back generation_back
    ∙ identified-some vault_id generation positive
