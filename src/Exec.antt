-- ===== src/Exec.antt =====
-- A C function that changes an object through a pointer and returns a status: the object comes back
-- beside the status, since what was written before an error stays written.
use pvault.Base.{Bool, true, false}
use pvault.Result.{Result, ok, err}
use pvault.Status.{Status}

abbrev pub Exec {ℓ κ} : Type ℓ → Type κ → Type (ℓ ⊔ κ)
Exec S A = S → Result A × S

module _ {ℓ κ μ} {S : Type ℓ} {A : Type κ} {B : Type μ} where
  abbrev pub proceed : Result A × S → (A → Exec S B) → Result B × S
  proceed (ok a, s) f = f a s
  proceed (err e, s) f = (err e, s)

  infixl 5 ◌>>=◌
  abbrev pub ◌>>=◌ : Exec S A → (A → Exec S B) → Exec S B
  ◌>>=◌ m f s = proceed (m s) f

module _ {ℓ κ} {S : Type ℓ} {A : Type κ} where
  infixl 5 ◌>>◌
  abbrev pub ◌>>◌ : Exec S (Unit {0}) → Exec S A → Exec S A
  ◌>>◌ m k s = proceed (m s) (λ _. k)

  abbrev pub pure : A → Exec S A
  pure a s = (ok a, s)

  abbrev pub fail : Status → Exec S A
  fail e s = (err e, s)

  abbrev pub lift : Result A → Exec S A
  lift r s = (r, s)

-- `if (test) return status;`
abbrev pub refuse_if {ℓ} : {S : Type ℓ} → Bool → Status → Exec S (Unit {0})
refuse_if true e s = (err e, s)
refuse_if false e s = (ok tt, s)
