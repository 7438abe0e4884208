-- ===== src/Recovery/Rounds.antt =====
-- src/recovery.c: base 32 text that was written is read back. While the writer has `e` bits of its
-- input left and the reader `d` bits of the text, either both have none, or e + d is 8 and these are
-- the bits of one byte.
use pvault.Base.{
  ℕ, suc, ◌+◌, ◌-◌, ◌*◌, ◌/◌, ◌%◌, ◌^◌, ◌≤◌, ◌<◌, ◌≡◌, refl, sym, ap, ap₂, ◌∙◌, subst, false, ◌==◌,
  some, List, [], ◌∷◌, length, All, arith,
}
use pvault.Recovery.Base32.{put_char, encode_loop, decode_loop}
use pvault.Recovery.Encoded.{acc, encode-stop, encode-pad, decode-wait, decode-byte}
use pvault.Recovery.Letters.{letter, letter-IsPlain, IsPlain}
use pvault.Recovery.Digits.{Padded, filled}

-- What the writer makes of the rest of its input, and the reader of that.
pub record Decodes (room : ℕ) (bytes : List ℕ) (eb e db d : ℕ) (out : List ℕ) (n : ℕ) : Type 0 where
  pub text : List ℕ
  pub written : encode_loop room bytes (acc eb e) ≡ some text
  pub size : length text ≡ n
  pub letters : All IsPlain text
  pub read : decode_loop text (length out) (acc db d) ≡ some out

module _ (room : ℕ) (bytes rest : List ℕ) (eb e db d x k n v : ℕ) (hv : v < 32) (hd : db < 256)
    (round : encode_loop (suc room) bytes (acc eb e)
      ≡ put_char (letter v) (encode_loop room rest (acc (x % 2 ^ k) k))) where
  pub then_byte :
      (out : List ℕ) (p m : ℕ)
      → suc n ≡ m
      → Decodes room rest (x % 2 ^ k) k ((db * 32 + v) % 2 ^ (d - 3)) (d - 3) out n
      → 3 ≤ d
      → d ≤ 7
      → (db * 32 + v) / 2 ^ (d - 3) % 256 ≡ p
      → Decodes (suc room) bytes eb e db d (p ∷ out) m
  then_byte out p m count later low high byte = record {
    text = letter v ∷ later.text;
    written = round ∙ ap (put_char (letter v)) later.written;
    size = ap suc later.size ∙ count;
    letters = (letter-IsPlain v hv, later.letters);
    read = decode-byte later.text v hv db d hd (length out) low high ∙ ap₂ put_char byte later.read;
  }

  pub then_wait :
      (out : List ℕ) (m : ℕ)
      → suc n ≡ m
      → Decodes room rest (x % 2 ^ k) k (db * 32 + v) (d + 5) out n
      → d ≤ 2
      → Decodes (suc room) bytes eb e db d out m
  then_wait out m count later h = record {
    text = letter v ∷ later.text;
    written = round ∙ ap (put_char (letter v)) later.written;
    size = ap suc later.size ∙ count;
    letters = (letter-IsPlain v hv, later.letters);
    read = decode-wait later.text v hv db d hd (length out) h ∙ later.read;
  }

-- The bits that the writer still has, and the characters that they take.
abbrev pub needed : List ℕ → ℕ → ℕ
needed bytes e = (8 * length bytes + e + 4) / 5

pub ended : (room : ℕ) → Decodes room [] 0 0 0 0 [] 0
unfolding decode_loop
ended room = record {
  text = [];
  written = encode-stop room;
  size = refl;
  letters = tt;
  read = refl;
}

pub last_round :
    (room eb e db d n : ℕ)
    → 1 ≡ n
    → 1 ≤ e
    → e ≤ 4
    → d ≡ 8 - e
    → eb < 2 ^ e
    → db < 2 ^ d
    → Decodes (suc room) [] eb e db d ((db * 2 ^ e + eb) ∷ []) n
unfolding decode_loop
last_round room eb e db d n one low high dq he hd =
    let (small, byte, empty, hdb) : Padded e d eb db =
      subst (λ (t : ℕ). Padded e t eb db) (sym dq)
        (filled e eb db low high he (subst (λ (t : ℕ). db < 2 ^ t) dq hd)) in
    let more : (d - 3 == 0) ≡ false = ground arith in
    record {
      text = letter (eb * 2 ^ (5 - e)) ∷ [];
      written = encode-pad room eb e low high he;
      size = one;
      letters = (letter-IsPlain (eb * 2 ^ (5 - e)) small, tt);
      read =
          decode-byte [] (eb * 2 ^ (5 - e)) small db d hdb 0 (omega arith) (omega arith)
          ∙ rw (byte, empty, more) refl;
    }

-- The bits on the two sides, and the byte that they are part of.
pub data Aligned : ℕ → ℕ → ℕ → ℕ → List ℕ → Type 0 where
  level : Aligned 0 0 0 0 []
  pending :
      (eb e db d : ℕ)
      → 1 ≤ e
      → e ≤ 7
      → d ≡ 8 - e
      → eb < 2 ^ e
      → db < 2 ^ d
      → Aligned eb e db d ((db * 2 ^ e + eb) ∷ [])
