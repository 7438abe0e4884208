-- ===== src/Recovery/Letters.antt =====
-- src/recovery.c: the 32 letters of the alphabet, by trying them all.
use pvault.Base.{ℕ, ◌<◌, ◌≡◌, not, ◌&&◌, Bool, true, false, Option, none, some, ◌==◌, refl, arith}
use pvault.Base.Tried.{tried, tried-lt}
use pvault.Recovery.{crockford_alphabet, crockford_value, toupper, isspace}
use pvault.Util.Hex.{char_at}

abbrev pub letter : ℕ → ℕ
letter v = char_at crockford_alphabet v

abbrev stands_for : Option ℕ → ℕ → Bool
stands_for none v = false
stands_for (some w) v = w == v

abbrev plain : ℕ → Bool
plain c = toupper c == c && (not (c == b'-') && (not (isspace c) && not (c == 0)))

values_tried : tried (λ v. stands_for (crockford_value (letter v)) v) 32 ≡ true
unfolding tried crockford_value
values_tried = refl

letters_tried : tried (λ v. plain (letter v)) 32 ≡ true
unfolding tried
letters_tried = refl

stands_for-some : (o : Option ℕ) (v : ℕ) → stands_for o v ≡ true → o ≡ some v
stands_for-some none v h = cc
stands_for-some (some w) v h = ground arith

pub crockford_value-letter : (v : ℕ) → v < 32 → crockford_value (letter v) ≡ some v
crockford_value-letter v h =
    stands_for-some (crockford_value (letter v)) v (tried-lt _ 32 v values_tried h)

-- A character that is kept as it is when a key is read.
pub record IsPlain (c : ℕ) : Type 0 where
  pub upper : toupper c ≡ c
  pub no_dash : (c == b'-') ≡ false
  pub no_space : isspace c ≡ false

plain-IsPlain : (c : ℕ) → plain c ≡ true → IsPlain c
plain-IsPlain c h = record { upper = ground arith; no_dash = ground arith; no_space = ground arith }

pub letter-IsPlain : (v : ℕ) → v < 32 → IsPlain (letter v)
letter-IsPlain v h =
    plain-IsPlain (letter v) (tried-lt (λ v. plain (letter v)) 32 v letters_tried h)
