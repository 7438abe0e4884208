-- ===== src/Util/Widths.antt =====
-- How `decode_codepoint` of src/util.c reads a code point from its own bytes.
use pvault.Base.{
  ℕ, zero, suc, ◌-◌, ◌≡◌, ◌<◌, refl, sym, ap, ◌∙◌, true, false, not, Option, none, some, List, [],
  ◌∷◌, ◌++◌, length, take, bit_and, ltb, leb, ◌==◌, if◌then◌else◌, inl, inr, Option-cases,
  Bool-cases, arith, length-append,
}
use pvault.Util.Codepoint.{following, decode_codepoint, wide_lead, checked_value, value_refused}

following-take :
    (n value : ℕ) (bytes rest : List ℕ) {u : ℕ}
    → following n value bytes ≡ some u
    → (following n value (take n bytes ++ rest) ≡ some u) × (length (take n bytes) ≡ n)
unfolding following
following-take zero value bytes rest e = (e, refl)
following-take (suc n) value [] rest e = absurd (ground arith)
following-take (suc n) value (b ∷ bytes) rest {u} e =
    elim (Bool-cases (not (bit_and b 0xc0 == 0x80))) [
      | inl bad ↦ absurd (ground arith)
      | inr good ↦
          let (again, sized) = following-take n _ bytes rest (ground arith) in
          (rw good again, ap suc sized)
    ]

checked_value_inv :
    (width : ℕ) (o : Option ℕ) (codepoint w : ℕ)
    → checked_value width o ≡ some (codepoint, w)
    → (o ≡ some codepoint) × (width ≡ w) × (value_refused width codepoint ≡ false)
checked_value_inv width none codepoint w e = absurd (ground arith)
checked_value_inv width (some value) codepoint w e = ground arith

pub decode_ascii :
    (first : ℕ) (bytes : List ℕ)
    → leb first 0x7f ≡ true
    → decode_codepoint (first ∷ bytes) ≡ some (first, 1)
unfolding decode_codepoint
decode_ascii first bytes h = rw h

pub decode_wide :
    (first bits k : ℕ) (bytes : List ℕ)
    → leb first 0x7f ≡ false
    → wide_lead first ≡ some (bits, suc k)
    → decode_codepoint (first ∷ bytes)
      ≡ (if ltb (length bytes) k then none else checked_value (suc k) (following k bits bytes))
unfolding decode_codepoint
decode_wide first bits k bytes h e =
    let fits : ltb (suc (length bytes)) (suc k) ≡ ltb (length bytes) k = ground arith in
    let less : suc k - 1 ≡ k = omega arith in rw (h, e, fits, less)

wide_lead_width : (first bits w : ℕ) → wide_lead first ≡ some (bits, w) → (k : ℕ) × (w ≡ suc k)
unfolding wide_lead
wide_lead_width first bits zero e = absurd (ground arith)
wide_lead_width first bits (suc w) e = (w, refl)

-- What the head of a wide code point and its bytes must be.
pub record WideAt (first : ℕ) (bytes : List ℕ) (codepoint width : ℕ) : Type 0 where
  pub bits : ℕ
  pub k : ℕ
  pub lead : wide_lead first ≡ some (bits, suc k)
  pub fits : ltb (length bytes) k ≡ false
  pub value : following k bits bytes ≡ some codepoint
  pub good : value_refused (suc k) codepoint ≡ false
  pub width_is : width ≡ suc k

unwrapped : {m n : ℕ × ℕ} → some m ≡ some n → m ≡ n
unwrapped e = cc

pub wide_inv :
    (first : ℕ) (bytes : List ℕ) (codepoint width : ℕ)
    → leb first 0x7f ≡ false
    → decode_codepoint (first ∷ bytes) ≡ some (codepoint, width)
    → WideAt first bytes codepoint width
wide_inv first bytes codepoint width h e = elim (Option-cases (wide_lead first)) [
  | inl bad ↦ absurd (unfold decode_codepoint in ground arith)
  | inr ((bits, w), lead) ↦
      let (k, wide) = wide_lead_width first bits w lead in
      let lead' : wide_lead first ≡ some (bits, suc k) = lead ∙ ap (λ t. some (bits, t)) wide in
      let out = sym (decode_wide first bits k bytes h lead') ∙ e in
      let fits : ltb (length bytes) k ≡ false = ground arith in
      let (value, same, good) =
        checked_value_inv (suc k) (following k bits bytes) codepoint width (ground arith) in
      record {
        bits = bits;
        k = k;
        lead = lead';
        fits = fits;
        value = value;
        good = good;
        width_is = sym same;
      }
]

-- A code point is read from its own bytes, whatever follows them.
pub decode-take :
    (bytes rest : List ℕ) (codepoint width : ℕ)
    → decode_codepoint bytes ≡ some (codepoint, width)
    → (decode_codepoint (take width bytes ++ rest) ≡ some (codepoint, width))
      × (length (take width bytes) ≡ width)
      × (0 < width)
decode-take [] rest codepoint width e = absurd (unfold decode_codepoint in ground arith)
decode-take (first ∷ bytes) rest codepoint width e = elim (Bool-cases (leb first 0x7f)) [
  | inl ascii ↦
      let same = sym (decode_ascii first bytes ascii) ∙ e in
      let one : width ≡ 1 = ground arith in
      rw one (decode_ascii first rest ascii ∙ ground arith, refl, omega arith)
  | inr wide ↦
      let w = wide_inv first bytes codepoint width wide e in
      let (again, sized) = following-take w.k w.bits bytes rest w.value in
      let room : ltb (length (take w.k bytes ++ rest)) w.k ≡ false =
        ground (arith, length-append (take w.k bytes) rest, sized) in
      rw w.width_is (
        decode_wide first w.bits w.k (take w.k bytes ++ rest) wide w.lead
            ∙ rw (room, again, w.good),
        ap suc sized,
        omega arith,
      )
]
