-- ===== src/Header/Layout.antt =====
-- The byte layout of the file header: fields one after the other, each at the offset that
-- src/crypto.c writes it to.
use pvault.Base.{
  ℕ, zero, suc, ◌+◌, ◌≡◌, refl, sym, ap, ap₂, subst, ◌∙◌, some, List, [], ◌∷◌, ◌++◌, length,
  get_elem?, take, drop, append_assoc, append-nil, take-append-drop, drop_past, take-append_length,
  drop-append_length, drop-drop, length-append, arith,
}
use pvault.Base.Words.{put_u16_le, put_u32_le, put_u64_le}
use pvault.Header.{FileHeader, IsShaped, memcpy_at, write_fields, header_fields, window}

-- Each field begins where the one before it ends.
abbrev pub Contiguous : ℕ → List (ℕ × List ℕ) → Type 0
Contiguous start [] = Unit
Contiguous start ((offset, bytes) ∷ fields) =
    (offset ≡ start) × Contiguous (start + length bytes) fields

abbrev pub flat : List (ℕ × List ℕ) → List ℕ
flat [] = []
flat ((offset, bytes) ∷ fields) = bytes ++ flat fields

memcpy_at-append :
    (offset : ℕ) (bytes pre rest : List ℕ)
    → offset ≡ length pre
    → memcpy_at offset bytes (pre ++ rest) ≡ (pre ++ bytes) ++ drop (length bytes) rest
memcpy_at-append offset bytes pre rest h =
    ap₂ (λ s t. s ++ (bytes ++ t)) (take-append_length offset pre rest h)
      (drop-drop offset (length bytes) _ (pre ++ rest) refl
        ∙ ap (drop (length bytes)) (drop-append_length offset pre rest h))
    ∙ sym (append_assoc pre bytes (drop (length bytes) rest))

-- Contiguous writes from `pre` on put the fields behind it.
pub write_fields-flat :
    (fields : List (ℕ × List ℕ)) (pre rest : List ℕ)
    → Contiguous (length pre) fields
    → write_fields fields (pre ++ rest) ≡ pre ++ (flat fields ++ drop (length (flat fields)) rest)
write_fields-flat [] pre rest h = refl
write_fields-flat ((offset, bytes) ∷ fields) pre rest (h, hs) =
    ap (write_fields fields) (memcpy_at-append offset bytes pre rest h)
    ∙ write_fields-flat fields (pre ++ bytes) (drop (length bytes) rest)
        (subst (λ t. Contiguous t fields) (sym (length-append pre bytes)) hs)
    ∙ append_assoc pre bytes _
    ∙ ap (λ t. pre ++ t) tails
  where
    tails :
        bytes ++ (flat fields ++ drop (length (flat fields)) (drop (length bytes) rest))
        ≡ (bytes ++ flat fields) ++ drop (length (bytes ++ flat fields)) rest
    tails =
        sym (append_assoc bytes (flat fields) _)
        ∙ ap (λ t. (bytes ++ flat fields) ++ t)
            (sym (
              drop-drop (length bytes) (length (flat fields)) _ rest
                (length-append bytes (flat fields))))

-- Each field is read back at its offset.
pub window-flat :
    (fields : List (ℕ × List ℕ)) (pre rest : List ℕ) (k offset n : ℕ) (bytes : List ℕ)
    → Contiguous (length pre) fields
    → get_elem? fields k ≡ some (offset, bytes)
    → n ≡ length bytes
    → window offset n (pre ++ (flat fields ++ rest)) ≡ bytes
window-flat [] pre rest k offset n bytes h e l = cc
window-flat ((o, b) ∷ fields) pre rest zero offset n bytes (h, hs) e l =
    ap (take n) (drop-append_length offset pre _ (ground arith) ∙ append_assoc b (flat fields) rest)
    ∙ ap (λ t. take n (t ++ (flat fields ++ rest))) same
    ∙ take-append_length n bytes _ l
  where
    same : b ≡ bytes
    same = cc
window-flat ((o, b) ∷ fields) pre rest (suc k) offset n bytes (h, hs) e l =
    ap (window offset n)
      (ap (λ t. pre ++ t) (append_assoc b (flat fields) rest) ∙ sym (append_assoc pre b _))
    ∙ window-flat fields (pre ++ b) rest k offset n bytes
        (subst (λ t. Contiguous t fields) (sym (length-append pre b)) hs) e l

abbrev pub total : List (ℕ × List ℕ) → ℕ
total [] = 0
total ((offset, bytes) ∷ fields) = length bytes + total fields

pub length-flat : (fields : List (ℕ × List ℕ)) → length (flat fields) ≡ total fields
length-flat [] = refl
length-flat ((offset, bytes) ∷ fields) =
    omega (arith, length-append bytes (flat fields), length-flat fields)

-- Each field holds the bytes of `input` at its offset.
abbrev pub Windows : List ℕ → List (ℕ × List ℕ) → Type 0
Windows input [] = Unit
Windows input ((offset, bytes) ∷ fields) =
    (bytes ≡ window offset (length bytes) input) × Windows input fields

flat-Windows :
    (input : List ℕ) (fields : List (ℕ × List ℕ)) (start : ℕ)
    → Contiguous start fields
    → Windows input fields
    → flat fields ++ drop (start + total fields) input ≡ drop start input
flat-Windows input [] start h w = ap (λ t. drop t input) (omega arith)
flat-Windows input ((o, b) ∷ fields) start (h, hs) (w, ws) =
    append_assoc b (flat fields) _
    ∙ ap₂ (λ s t. s ++ t) (w ∙ ap (λ t. window t (length b) input) h)
        (ap (λ t. flat fields ++ drop t input) (omega arith)
          ∙ flat-Windows input fields (start + length b) hs ws
          ∙ drop-drop start (length b) (start + length b) input refl)
    ∙ take-append-drop (length b) (drop start input)

-- Contiguous fields that hold all of an input are that input.
pub flat-eq-input :
    (input : List ℕ) (fields : List (ℕ × List ℕ))
    → Contiguous 0 fields
    → Windows input fields
    → length input ≡ length (flat fields)
    → flat fields ≡ input
flat-eq-input input fields h w l =
    sym (append-nil (flat fields))
    ∙ ap (λ t. flat fields ++ t) (sym rest)
    ∙ flat-Windows input fields 0 h w
  where
    rest : drop (0 + total fields) input ≡ []
    rest = drop_past _ input (omega (arith, length-flat fields))

pub header_fields-Contiguous : (h : FileHeader) → IsShaped h → Contiguous 0 (header_fields h)
unfolding header_fields put_u16_le put_u32_le put_u64_le
header_fields-Contiguous h s = omega arith

pub length-flat_header : (h : FileHeader) → IsShaped h → length (flat (header_fields h)) ≡ 252
length-flat_header h s =
    length-flat (header_fields h)
    ∙ (unfold header_fields put_u16_le put_u32_le put_u64_le in omega arith)
