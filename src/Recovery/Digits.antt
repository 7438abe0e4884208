-- ===== src/Recovery/Digits.antt =====
-- src/recovery.c: the arithmetic of the rounds of the base 32 loops, for each number of bits.
use pvault.Base.{ℕ, zero, suc, ◌+◌, ◌-◌, ◌*◌, ◌/◌, ◌%◌, ◌^◌, ◌≤◌, ◌<◌, ◌≡◌, arith}

-- A round that takes the byte b. The reader completes its byte and has the first bits of b.
abbrev pub Taken : ℕ → ℕ → ℕ → ℕ → ℕ → Type 0
Taken e d eb db b =
    let x = eb * 256 + b in
    let v = x / 2 ^ (e + 3) % 32 in
    ((db * 32 + v) / 2 ^ (d - 3) % 256 ≡ db * 2 ^ e + eb)
    × ((db * 32 + v) % 2 ^ (d - 3) * 2 ^ (e + 3) + x % 2 ^ (e + 3) ≡ b)
    × (x % 2 ^ (e + 3) < 2 ^ (e + 3))
    × ((db * 32 + v) % 2 ^ (d - 3) < 2 ^ (d - 3))
    × (db < 256)

pub taken :
    (e eb db b : ℕ)
    → 1 ≤ e
    → e ≤ 4
    → eb < 2 ^ e
    → db < 2 ^ (8 - e)
    → b < 256
    → Taken e (8 - e) eb db b
taken zero eb db b low high he hd hb = absurd (omega arith)
taken (suc zero) eb db b low high he hd hb = omega arith
taken (suc (suc zero)) eb db b low high he hd hb = omega arith
taken (suc (suc (suc zero))) eb db b low high he hd hb = omega arith
taken (suc (suc (suc (suc zero)))) eb db b low high he hd hb = omega arith
taken (suc (suc (suc (suc (suc e))))) eb db b low high he hd hb = absurd (omega arith)

-- The last round, where the writer fills up with zeros.
abbrev pub Padded : ℕ → ℕ → ℕ → ℕ → Type 0
Padded e d eb db =
    let v = eb * 2 ^ (5 - e) in
    (v < 32)
    × ((db * 32 + v) / 2 ^ (d - 3) % 256 ≡ db * 2 ^ e + eb)
    × ((db * 32 + v) % 2 ^ (d - 3) ≡ 0)
    × (db < 256)

pub filled : (e eb db : ℕ) → 1 ≤ e → e ≤ 4 → eb < 2 ^ e → db < 2 ^ (8 - e) → Padded e (8 - e) eb db
filled zero eb db low high he hd = absurd (omega arith)
filled (suc zero) eb db low high he hd = omega arith
filled (suc (suc zero)) eb db low high he hd = omega arith
filled (suc (suc (suc zero))) eb db low high he hd = omega arith
filled (suc (suc (suc (suc zero)))) eb db low high he hd = omega arith
filled (suc (suc (suc (suc (suc e))))) eb db low high he hd = absurd (omega arith)

-- A round that takes no byte and completes none.
abbrev pub Moved : ℕ → ℕ → ℕ → ℕ → Type 0
Moved e d eb db =
    let v = eb / 2 ^ (e - 5) % 32 in
    ((db * 32 + v) * 2 ^ (e - 5) + eb % 2 ^ (e - 5) ≡ db * 2 ^ e + eb)
    × (eb % 2 ^ (e - 5) < 2 ^ (e - 5))
    × (db * 32 + v < 2 ^ (d + 5))
    × (db < 256)

pub moved :
    (k eb db : ℕ) → k ≤ 1 → eb < 2 ^ (6 + k) → db < 2 ^ (2 - k) → Moved (6 + k) (2 - k) eb db
moved zero eb db high he hd = omega arith
moved (suc zero) eb db high he hd = omega arith
moved (suc (suc k)) eb db high he hd = absurd (omega arith)
