-- ===== src/Backup/Names.antt =====
-- src/store.c: the names that `parse_automatic_backup_name` accepts.
use pvault.Backup.{
  auto_prefix, marker, extension, decimal, format_automatic_backup_name, id_bytes, parse_digits,
  identified, parse_automatic_backup_name,
}
use pvault.Base.{
  ℕ, ◌+◌, ◌^◌, ◌<◌, ◌≡◌, ◌↔◌, refl, sym, ap, ◌∙◌, Bool, Bool-cases, inl, inr, not, ◌||◌, true,
  false, Option, none, some, List, ◌++◌, All, length, take, drop, bytes_eq, bytes_eq→eq,
  take-append-drop, take_all, length-drop, length-take, drop-drop, ◌==◌, if◌then◌else◌, arith,
}
use pvault.Base.Words.{IsByte}
use pvault.Result.{ok}
use pvault.Backup.NameFits.{id_bytes_inv, digits_inv}
use pvault.Util.Hex.{hex_digits}
use pvault.Backup.NameBack.{tail, format_lem, name_back}

identified_inv :
    (o : Option (List ℕ)) (g : Option ℕ) (vault_id : List ℕ) (generation : ℕ)
    → identified o g ≡ some (vault_id, generation)
    → (o ≡ some vault_id) × (g ≡ some generation) × (0 < generation)
identified_inv none g vault_id generation e = absurd (ground arith)
identified_inv (some v) none vault_id generation e = absurd (ground arith)
identified_inv (some v) (some k) vault_id generation e = elim (Bool-cases (k == 0)) [
  | inl null ↦ absurd (ground arith)
  | inr other ↦
      let taken : ◌≡◌ {A = Option (List ℕ × ℕ)} (if k == 0 then none else some (v, k))
          (some (v, k)) =
        ap (λ b. if b then none else some (v, k)) other in
      let both : ◌≡◌ {A = Option (List ℕ × ℕ)} (some (v, k)) (some (vault_id, generation)) =
        sym taken ∙ e in
      let pair : ◌≡◌ {A = List ℕ × ℕ} (v, k) (vault_id, generation) = cc in
      let number : k ≡ generation = ap (λ p. p.1) pair in
      (ap (λ p. some (p.0)) pair, ap some number, ground arith)
]

-- A name that no test refuses passed them all.
guards :
    (a b c d : Bool) (x : Option (List ℕ × ℕ)) (y : List ℕ × ℕ)
    → (if not a || not b || not c || not d then none else x) ≡ some y
    → (a ≡ true) × (b ≡ true) × (c ≡ true) × (d ≡ true) × (x ≡ some y)
guards false b c d x y e = absurd (cc)
guards true false c d x y e = absurd (cc)
guards true true false d x y e = absurd (cc)
guards true true true false x y e = absurd (cc)
guards true true true true x y e = (refl, refl, refl, refl, e)

test_eq : (n k : ℕ) → (n == k) ≡ true → n ≡ k
test_eq n k h = ground arith

parse_inv :
    (name vault_id : List ℕ) (generation : ℕ)
    → parse_automatic_backup_name name ≡ some (vault_id, generation)
    → (length name ≡ 67)
      × (take 8 name ≡ auto_prefix)
      × (take 2 (drop 40 name) ≡ marker)
      × (take 5 (drop 62 name) ≡ extension)
      × (identified (id_bytes 16 (drop 8 name)) (parse_digits 0 (take 20 (drop 42 name)))
          ≡ some (vault_id, generation))
unfolding parse_automatic_backup_name
parse_inv name vault_id generation e =
    let (long, start, middle, end, both) =
      guards (length name == 67) (bytes_eq (take 8 name) auto_prefix)
        (bytes_eq (take 2 (drop 40 name)) marker) (bytes_eq (take 5 (drop 62 name)) extension)
        (identified (id_bytes 16 (drop 8 name)) (parse_digits 0 (take 20 (drop 42 name))))
        (vault_id, generation) e in
    (
      test_eq (length name) 67 long,
      bytes_eq→eq (take 8 name) auto_prefix start,
      bytes_eq→eq (take 2 (drop 40 name)) marker middle,
      bytes_eq→eq (take 5 (drop 62 name)) extension end,
      both,
    )

piece : (n k m : ℕ) (name : List ℕ) → m ≡ n + k → drop n name ≡ take k (drop n name) ++ drop m name
piece n k m name h =
    sym (take-append-drop k (drop n name))
    ∙ ap (λ (rest : List ℕ). take k (drop n name) ++ rest) (sym (drop-drop n k m name h))

-- A name is its parts.
pieces :
    (name : List ℕ)
    → length name ≡ 67
    → name
      ≡ take 8 name
        ++ (take 32 (drop 8 name)
            ++ (take 2 (drop 40 name) ++ (take 20 (drop 42 name) ++ take 5 (drop 62 name))))
pieces name sized =
    let last : drop 62 name ≡ take 5 (drop 62 name) =
      sym (take_all 5 (drop 62 name) (omega (arith, length-drop 62 name))) in
    piece 0 8 8 name refl
    ∙ ap (λ (rest : List ℕ). take 8 name ++ rest)
        (piece 8 32 40 name refl
          ∙ ap (λ (rest : List ℕ). take 32 (drop 8 name) ++ rest)
              (piece 40 2 42 name refl
                ∙ ap (λ (rest : List ℕ). take 2 (drop 40 name) ++ rest)
                    (piece 42 20 62 name refl
                      ∙ ap (λ (rest : List ℕ). take 20 (drop 42 name) ++ rest) last)))

name_fits :
    (name vault_id : List ℕ) (generation : ℕ)
    → parse_automatic_backup_name name ≡ some (vault_id, generation)
    → (length vault_id ≡ 16)
      × All IsByte vault_id
      × (0 < generation)
      × (generation < 2 ^ 64)
      × (name ≡ auto_prefix ++ hex_digits vault_id ++ tail generation)
name_fits name vault_id generation e =
    let (long, start, middle, end, both) = parse_inv name vault_id generation e in
    let (hex, digits, positive) =
      identified_inv (id_bytes 16 (drop 8 name)) (parse_digits 0 (take 20 (drop 42 name))) vault_id
        generation both in
    let (sized, bytes, text) = id_bytes_inv 16 (drop 8 name) vault_id hex in
    let (written, whole, fits) =
      digits_inv (take 20 (drop 42 name)) 0 generation (omega arith) digits in
    let twenty : length (take 20 (drop 42 name)) ≡ 20 =
      omega (arith, length-take 20 (drop 42 name), length-drop 42 name) in
    let number = written ∙ ap (λ (k : ℕ). decimal k generation) twenty in
    (
      sized,
      bytes,
      positive,
      fits,
      pieces name long ∙ (λ i. start i ++ (text i ++ (middle i ++ (number i ++ end i)))),
    )

-- parse_automatic_backup_name accepts a name exactly if it is the name that
-- format_automatic_backup_name writes for an id of sixteen bytes and a generation of 64 bits that
-- is not zero, and it answers that id and that generation.
pub parse_automatic_backup_name_iff :
    (name vault_id : List ℕ) (generation : ℕ)
    → (parse_automatic_backup_name name ≡ some (vault_id, generation)) ↔ (
        (length vault_id ≡ 16)
        × All IsByte vault_id
        × (0 < generation)
        × (generation < 2 ^ 64)
        × (format_automatic_backup_name vault_id generation ≡ ok name))
parse_automatic_backup_name_iff name vault_id generation = (
  λ e.
      let (sized, bytes, positive, fits, same) = name_fits name vault_id generation e in
      (
        sized,
        bytes,
        positive,
        fits,
        format_lem vault_id generation sized positive ∙ ap ok (sym same),
      ),
  λ h.
      let (sized, bytes, positive, fits, format) = h in
      let written = format_lem vault_id generation sized positive in
      let same : auto_prefix ++ hex_digits vault_id ++ tail generation ≡ name = cc in
      ap parse_automatic_backup_name (sym same)
      ∙ name_back vault_id generation sized bytes positive fits,
)
