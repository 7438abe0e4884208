-- ===== src/Result.antt =====
-- A C function that returns a `pv_status` and, with `PV_OK`, a value.
pub mod Ends
use pvault.Base.{◌≡◌, refl, ◌⊎◌, inl, inr, Bool, true, false, Option, none, some, if◌then◌else◌}
use pvault.Status.{Status}

pub data Result {ℓ} (A : Type ℓ) : Type ℓ where
  ok : A → Result A
  err : Status → Result A

infixl 5 ◌>>=◌
abbrev pub ◌>>=◌ {ℓ κ} : {A : Type ℓ} {B : Type κ} → Result A → (A → Result B) → Result B
err status >>= next = err status
ok value >>= next = next value

-- `if (status != PV_OK) return status;` and the next call
infixl 5 ◌>>◌
abbrev pub ◌>>◌ {ℓ} : {A : Type ℓ} → Result (Unit {0}) → Result A → Result A
err status >> next = err status
ok u >> next = next

pub Result-cases {ℓ} :
    {A : Type ℓ} (r : Result A) → ((a : A) × (r ≡ ok a)) ⊎ ((s : Status) × (r ≡ err s))
Result-cases (ok a) = inl (a, refl)
Result-cases (err s) = inr (s, refl)

-- What a chain of calls returned, each of its calls returned.
module _ {ℓ κ} {A : Type ℓ} {B : Type κ} where
  pub bind-ok :
      (r : Result A) (f : A → Result B) {b : B}
      → (r >>= f) ≡ ok b
      → (a : A) × (r ≡ ok a) × (f a ≡ ok b)
  bind-ok (err e) f p = cc
  bind-ok (ok a) f p = (a, refl, p)

pub then-ok {ℓ} :
    {A : Type ℓ} (r : Result (Unit {0})) (k : Result A) {a : A} → (r >> k) ≡ ok a → k ≡ ok a
then-ok (err e) k p = cc
then-ok (ok u) k p = p

pub then_first-ok {ℓ} :
    {A : Type ℓ} (r : Result (Unit {0})) (k : Result A) {a : A} → (r >> k) ≡ ok a → r ≡ ok tt
then_first-ok (err e) k p = cc
then_first-ok (ok u) k p = refl

-- A failed call of another library becomes a status.
abbrev pub or_fail {ℓ} : {A : Type ℓ} → Option A → Status → Result A
or_fail none e = err e
or_fail (some a) e = ok a

module _ {ℓ} {A : Type ℓ} where
  pub or_fail-ok : (o : Option A) (e : Status) (a : A) → or_fail o e ≡ ok a → o ≡ some a
  or_fail-ok none e a h = cc
  or_fail-ok (some b) e a h = cc

  -- `if (test) return status;` before a call that returned.
  pub unless-ok :
      (b : Bool) (e : Status) (r : Result A) (a : A)
      → (if b then err e else r) ≡ ok a
      → (b ≡ false) × (r ≡ ok a)
  unless-ok true e r a h = cc
  unless-ok false e r a h = (refl, h)

  pub only_if-ok :
      (b : Bool) (e : Status) (x a : A) → (if b then ok x else err e) ≡ ok a → (b ≡ true) × (x ≡ a)
  only_if-ok true e x a h = (refl, cc)
  only_if-ok false e x a h = cc
