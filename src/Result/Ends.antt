-- ===== src/Result/Ends.antt =====
-- The ways in which a C function that returns a status can end.
use pvault.Base.{◌≡◌, refl, Bool, true, false, Option, none, some, if◌then◌else◌}
use pvault.Result.{Result, ok, err, or_fail, ◌>>=◌, ◌>>◌}
use pvault.Status.{Status}

-- A value with P, or one of the errors.
pub data Ends {ℓ} {A : Type ℓ} (P : A → Type 0) (E : Status → Type 0) : Result A → Type ℓ where
  value : {a : A} → P a → Ends P E (ok a)
  error : {e : Status} → E e → Ends P E (err e)

abbrev pub Any {ℓ} : {A : Type ℓ} → A → Type 0
Any a = Unit

module _ {E : Status → Type 0} where
  pub bind-Ends {ℓ κ} :
      {A : Type ℓ} {B : Type κ} {P : A → Type 0} {Q : B → Type 0} {r : Result A} {f : A → Result B}
      → Ends P E r
      → ((a : A) → P a → Ends Q E (f a))
      → Ends Q E (r >>= f)
  bind-Ends (value {a = a} h) k = k a h
  bind-Ends (error h) k = error h

  pub then-Ends {ℓ} :
      {A : Type ℓ} {Q : A → Type 0} {r : Result (Unit {0})} {k : Result A}
      → Ends Any E r
      → Ends Q E k
      → Ends Q E (r >> k)
  then-Ends (value h) q = q
  then-Ends (error h) q = error h

  pub or_fail-Ends {ℓ} : {A : Type ℓ} (o : Option A) (e : Status) → E e → Ends Any E (or_fail o e)
  or_fail-Ends none e h = error h
  or_fail-Ends (some a) e h = value tt

  pub refuse-Ends {ℓ} :
      {A : Type ℓ} {P : A → Type 0} (b : Bool) (e : Status) {r : Result A}
      → E e
      → (b ≡ false → Ends P E r)
      → Ends P E (if b then err e else r)
  refuse-Ends true e h k = error h
  refuse-Ends false e h k = k refl
