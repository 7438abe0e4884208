-- ===== src/Recovery/Back.antt =====
-- src/recovery.c: the base 32 loops, one after the other.
use pvault.Base.{
  ℕ, zero, suc, ◌+◌, ◌-◌, ◌*◌, ◌/◌, ◌%◌, ◌^◌, ◌≤◌, ◌<◌, ◌≡◌, refl, sym, subst, inl, inr, Bool-cases,
  leb, some, List, [], ◌∷◌, ◌++◌, length, All, arith,
}
use pvault.Base.Words.{IsByte}
use pvault.Recovery.Base32.{base32_encode, base32_decode}
use pvault.Recovery.Encoded.{encode-take, encode-keep}
use pvault.Recovery.Letters.{IsPlain}
use pvault.Recovery.Digits.{Taken, taken, Moved, moved}
use pvault.Recovery.Rounds.{
  Decodes, Aligned, level, pending, needed, then_byte, then_wait, ended, last_round,
}

-- The rounds that follow, with less room.
abbrev Later : ℕ → Type 0
Later room =
    (rest : List ℕ) (eb e db d : ℕ) (pend : List ℕ)
    → Aligned eb e db d pend
    → All IsByte rest
    → needed rest e ≤ room
    → Decodes room rest eb e db d (pend ++ rest) (needed rest e)

module _ (room : ℕ) (later : Later room) (eb e db d : ℕ) (low : 1 ≤ e) (high : e ≤ 7)
    (dq : d ≡ 8 - e) (he : eb < 2 ^ e) (hd : db < 2 ^ d) where
  step_take :
      (b : ℕ) (rest : List ℕ)
      → e ≤ 4
      → All IsByte (b ∷ rest)
      → needed (b ∷ rest) e ≤ suc room
      → Decodes
          (suc room)
          (b ∷ rest)
          eb
          e
          db
          d
          ((db * 2 ^ e + eb) ∷ (b ∷ rest))
          (needed (b ∷ rest) e)
  step_take b rest few (hb, hs) fits =
      let (byte, joined, small, room_left, hdb) : Taken e d eb db b =
        subst (λ (t : ℕ). Taken e t eb db b) (sym dq)
          (taken e eb db b low few he (subst (λ (t : ℕ). db < 2 ^ t) dq hd) hb) in
      let x : ℕ = eb * 256 + b in
      let v : ℕ = x / 2 ^ (e + 3) % 32 in
      let eb' : ℕ = x % 2 ^ (e + 3) in
      let db' : ℕ = (db * 32 + v) % 2 ^ (d - 3) in
      let after : Decodes room rest eb' (e + 3) db' (d - 3) (b ∷ rest) (needed rest (e + 3)) =
        subst
          (λ (t : ℕ). Decodes room rest eb' (e + 3) db' (d - 3) (t ∷ rest) (needed rest (e + 3)))
          joined
          (later rest eb' (e + 3) db' (d - 3) _
            (pending eb' (e + 3) db' (d - 3) (omega arith) (omega arith) (omega arith) small
              room_left)
            hs (omega arith)) in
      then_byte room (b ∷ rest) rest eb e db d x (e + 3) (needed rest (e + 3)) v (omega arith) hdb
        (encode-take room eb e b rest few he hb) (b ∷ rest) (db * 2 ^ e + eb) _ (omega arith) after
        (omega arith) (omega arith) byte

module _ (room : ℕ) (later : Later room) (bytes : List ℕ) (hs : All IsByte bytes) where
  -- The writer's five bits complete the reader's byte.
  step_whole :
      (eb db : ℕ)
      → eb < 32
      → db < 8
      → needed bytes 5 ≤ suc room
      → Decodes (suc room) bytes eb 5 db 3 ((db * 2 ^ 5 + eb) ∷ bytes) (needed bytes 5)
  step_whole eb db he hd fits =
      let v : ℕ = eb / 1 % 32 in
      let after : Decodes room bytes (eb % 1) 0 ((db * 32 + v) % 1) 0 bytes (needed bytes 0) =
        subst (λ (t : ℕ). Decodes room bytes t 0 ((db * 32 + v) % 1) 0 bytes (needed bytes 0))
          (omega arith)
          (subst (λ (t : ℕ). Decodes room bytes 0 0 t 0 bytes (needed bytes 0)) (omega arith)
            (later bytes 0 0 0 0 [] level hs (omega arith))) in
      then_byte room bytes bytes eb 5 db 3 eb 0 (needed bytes 0) v (omega arith) (omega arith)
        (encode-keep room eb 5 bytes (omega arith) (omega arith)) bytes (db * 2 ^ 5 + eb) _
        (omega arith) after (omega arith) (omega arith) (omega arith)

  step_move :
      (e d eb db : ℕ)
      → 6 ≤ e
      → e ≤ 7
      → d ≡ 8 - e
      → Moved e d eb db
      → needed bytes e ≤ suc room
      → Decodes (suc room) bytes eb e db d ((db * 2 ^ e + eb) ∷ bytes) (needed bytes e)
  step_move e d eb db low high dq (joined, small, room_left, hdb) fits =
      let v : ℕ = eb / 2 ^ (e - 5) % 32 in
      let after : Decodes room bytes (eb % 2 ^ (e - 5)) (e - 5) (db * 32 + v) (d + 5)
          ((db * 2 ^ e + eb) ∷ bytes) (needed bytes (e - 5)) =
        subst
          (λ (t : ℕ).
            Decodes room bytes (eb % 2 ^ (e - 5)) (e - 5) (db * 32 + v) (d + 5) (t ∷ bytes)
              (needed bytes (e - 5)))
          joined
          (later bytes (eb % 2 ^ (e - 5)) (e - 5) (db * 32 + v) (d + 5) _
            (pending (eb % 2 ^ (e - 5)) (e - 5) (db * 32 + v) (d + 5) (omega arith) (omega arith)
              (omega arith) small room_left)
            hs (omega arith)) in
      then_wait room bytes bytes eb e db d eb (e - 5) (needed bytes (e - 5)) v (omega arith) hdb
        (encode-keep room eb e bytes (omega arith) high) _ _ (omega arith) after (omega arith)

  -- Five bits or more.
  step_high :
      (k eb db : ℕ)
      → k ≤ 2
      → eb < 2 ^ (5 + k)
      → db < 2 ^ (3 - k)
      → needed bytes (5 + k) ≤ suc room
      → Decodes
          (suc room)
          bytes
          eb
          (5 + k)
          db
          (3 - k)
          ((db * 2 ^ (5 + k) + eb) ∷ bytes)
          (needed bytes (5 + k))
  step_high zero eb db high he hd fits = step_whole eb db he hd fits
  step_high (suc zero) eb db high he hd fits =
      step_move 6 2 eb db (omega arith) (omega arith) refl (moved 0 eb db (omega arith) he hd) fits
  step_high (suc (suc zero)) eb db high he hd fits =
      step_move 7 1 eb db (omega arith) (omega arith) refl (moved 1 eb db (omega arith) he hd) fits
  step_high (suc (suc (suc k))) eb db high he hd fits = absurd (omega arith)

-- A round that starts with some bits left.
abbrev Round : ℕ → List ℕ → ℕ → ℕ → ℕ → ℕ → Type 0
Round room bytes eb db e d =
    eb < 2 ^ e
    → db < 2 ^ d
    → needed bytes e ≤ suc room
    → Decodes (suc room) bytes eb e db d ((db * 2 ^ e + eb) ∷ bytes) (needed bytes e)

many_bits :
    (room : ℕ)
    → Later room
    → (bytes : List ℕ) → All IsByte bytes
    → (eb e db d : ℕ) → 5 ≤ e
    → e ≤ 7
    → d ≡ 8 - e
    → Round room bytes eb db e d
many_bits room later bytes hs eb e db d low high dq =
    let k : ℕ = e - 5 in
    subst (λ (t : ℕ). Round room bytes eb db t d) (omega arith)
      (subst (λ (t : ℕ). Round room bytes eb db (5 + k) t) (omega arith)
        (step_high room later bytes hs k eb db (omega arith)))

few_bits :
    (room : ℕ)
    → Later room
    → (bytes : List ℕ) → All IsByte bytes
    → (eb e db d : ℕ) → 1 ≤ e
    → e ≤ 4
    → d ≡ 8 - e
    → Round room bytes eb db e d
few_bits room later [] hs eb e db d low high dq he hd fits =
    last_round room eb e db d _ (omega arith) low high dq he hd
few_bits room later (b ∷ rest) hs eb e db d low high dq he hd fits =
    step_take room later eb e db d low (omega arith) dq he hd b rest high hs fits

-- A round that starts a byte.
fresh_byte :
    (room : ℕ)
    → Later room
    → (b : ℕ) (rest : List ℕ) → All IsByte (b ∷ rest)
    → needed (b ∷ rest) 0 ≤ suc room
    → Decodes (suc room) (b ∷ rest) 0 0 0 0 (b ∷ rest) (needed (b ∷ rest) 0)
fresh_byte room later b rest (hb, hs) fits =
    let x : ℕ = 0 * 256 + b in
    let v : ℕ = x / 2 ^ 3 % 32 in
    let after : Decodes room rest (x % 2 ^ 3) 3 (0 * 32 + v) 5 (b ∷ rest) (needed rest 3) =
      subst (λ (t : ℕ). Decodes room rest (x % 2 ^ 3) 3 (0 * 32 + v) 5 (t ∷ rest) (needed rest 3))
        (omega arith)
        (later rest (x % 2 ^ 3) 3 (0 * 32 + v) 5 _
          (pending (x % 2 ^ 3) 3 (0 * 32 + v) 5 (omega arith) (omega arith) refl (omega arith)
            (omega arith))
          hs (omega arith)) in
    then_wait room (b ∷ rest) rest 0 0 0 0 x 3 (needed rest 3) v (omega arith) (omega arith)
      (encode-take room 0 0 b rest (omega arith) (omega arith) hb) _ _ (omega arith) after
      (omega arith)

Aligned-Decodes :
    (room : ℕ) (bytes : List ℕ) (eb e db d : ℕ) (pend : List ℕ)
    → Aligned eb e db d pend
    → All IsByte bytes
    → needed bytes e ≤ room
    → Decodes room bytes eb e db d (pend ++ bytes) (needed bytes e)
Aligned-Decodes zero [] eb e db d pend level hs fits = ended 0
Aligned-Decodes zero (b ∷ rest) eb e db d pend level hs fits = absurd (omega arith)
Aligned-Decodes zero bytes _ _ _ _ _ (pending eb e db d low high dq he hd) hs fits =
    absurd (omega arith)
Aligned-Decodes (suc room) [] eb e db d pend level hs fits = ended (suc room)
Aligned-Decodes (suc room) (b ∷ rest) eb e db d pend level hs fits =
    fresh_byte room (Aligned-Decodes room) b rest hs fits
Aligned-Decodes (suc room) bytes _ _ _ _ _ (pending eb e db d low high dq he hd) hs fits =
    elim (Bool-cases (leb e 4)) [
      | inl few ↦
          few_bits room (Aligned-Decodes room) bytes hs eb e db d low (ground arith) dq he hd fits
      | inr many ↦
          many_bits room (Aligned-Decodes room) bytes hs eb e db d (ground arith) high dq he hd fits
    ]

-- For bytes whose base 32 text fits the capacity with its end, base32_encode returns a text of the
-- length of the bits divided by 5 and rounded up, of characters that are neither dash, space nor
-- small letter, and base32_decode reads it into as many bytes as those bytes.
pub base32_decode-base32_encode :
    (bytes : List ℕ) (cap : ℕ)
    → All IsByte bytes
    → needed bytes 0 < cap
    → (text : List ℕ) × (base32_encode bytes cap ≡ some text)
      × (length text ≡ needed bytes 0)
      × All IsPlain text
      × (base32_decode text (length bytes) ≡ some bytes)
unfolding base32_encode base32_decode
base32_decode-base32_encode bytes cap hs fits =
    let back = Aligned-Decodes (cap - 1) bytes 0 0 0 0 [] level hs (omega arith) in
    (back.text, back.written, back.size, back.letters, back.read)
