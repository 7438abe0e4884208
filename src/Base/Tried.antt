-- ===== src/Base/Tried.antt =====
-- Facts about the numbers below a small bound, by trying them all.
use pvault.Base.{
  ℕ, zero, suc, ◌<◌, ◌≡◌, ap, ◌∙◌, inl, inr, Bool, true, false, ◌==◌, if◌then◌else◌, Bool-cases,
  arith,
}

-- `p` holds below `n`, found by trying.
unfoldable pub tried : (ℕ → Bool) → ℕ → Bool
tried p zero = true
tried p (suc n) = let rest = tried p n in if p n then rest else false

pub tried-lt : (p : ℕ → Bool) (n k : ℕ) → tried p n ≡ true → k < n → p k ≡ true
unfolding tried
tried-lt p zero k h below = absurd (omega arith)
tried-lt p (suc n) k h below = elim (Bool-cases (k == n)) [
  | inl same ↦ let e : k ≡ n = ground arith in ap p e ∙ ground arith
  | inr other ↦ tried-lt p n k (ground arith) (ground arith)
]
