-- ===== src/Util/Found.antt =====
-- The text search of src/util.c against its meaning.
use pvault.Base.{
  ℕ, zero, suc, ◌+◌, ◌-◌, ◌≤◌, ◌<◌, ◌≡◌, ◌≢◌, ◌↔◌, refl, sym, ap, ◌∙◌, inl, inr, Bool, true, false,
  not, ◌||◌, List, [], ◌∷◌, ◌++◌, length, length-append, append-nil, length-map, map, ltb, ◌==◌,
  Bool-cases, arith,
}
use pvault.Util.Search.{compared, starts_with, slice_equal_cstr, search_loop, slice_contains_cstr}
use pvault.Util.Slice.{Slice, len, items, dangling, length-items}

-- The same text, but for the case of letters where that is asked for.
abbrev pub SameText : Bool → List ℕ → List ℕ → Type 0
SameText fold xs ys = map (compared fold) xs ≡ map (compared fold) ys

-- `needle` stands in `chars`.
pub record Within (fold : Bool) (needle chars : List ℕ) : Type 0 where
  pub before : List ℕ
  pub here : List ℕ
  pub after : List ℕ
  pub split : chars ≡ before ++ (here ++ after)
  pub same : SameText fold here needle

-- `needle` stands at the beginning of `chars`.
record First (fold : Bool) (needle chars : List ℕ) : Type 0 where
  pub here : List ℕ
  pub after : List ℕ
  pub split : chars ≡ here ++ after
  pub same : SameText fold here needle

First-starts_with :
    (fold : Bool) (needle chars : List ℕ)
    → starts_with fold needle chars ≡ true
    → First fold needle chars
unfolding starts_with
First-starts_with fold [] chars e = record { here = []; after = chars; split = refl; same = refl }
First-starts_with fold (n ∷ needle) [] e = absurd (ground arith)
First-starts_with fold (n ∷ needle) (c ∷ chars) e =
    let f = First-starts_with fold needle chars (ground arith) in
    let one : compared fold c ≡ compared fold n = ground arith in
    record {
      here = c ∷ f.here;
      after = f.after;
      split = ap (λ t. c ∷ t) f.split;
      same = λ i. one i ∷ f.same i;
    }

cons_inv : {a b : ℕ} {xs ys : List ℕ} → (a ∷ xs) ≡ (b ∷ ys) → (a ≡ b) × (xs ≡ ys)
cons_inv e = (cc, cc)

starts_with-append :
    (fold : Bool) (needle here after : List ℕ)
    → SameText fold here needle
    → starts_with fold needle (here ++ after) ≡ true
unfolding starts_with
starts_with-append fold [] here after e = refl
starts_with-append fold (n ∷ needle) [] after e = absurd (cc)
starts_with-append fold (n ∷ needle) (c ∷ here) after e =
    let (one, more) = cons_inv e in
    let rest = starts_with-append fold needle here after more in rw rest (ground arith)

shifted :
    (fold : Bool) (needle chars : List ℕ) (c : ℕ)
    → Within fold needle chars
    → Within fold needle (c ∷ chars)
shifted fold needle chars c w = record {
  before = c ∷ w.before;
  here = w.here;
  after = w.after;
  split = ap (λ t. c ∷ t) w.split;
  same = w.same;
}

found_here :
    (fold : Bool) (needle chars : List ℕ)
    → starts_with fold needle chars ≡ true
    → Within fold needle chars
found_here fold needle chars found =
    let f = First-starts_with fold needle chars found in
    record { before = []; here = f.here; after = f.after; split = f.split; same = f.same }

Within-search_loop :
    (fold : Bool) (left : ℕ) (needle chars : List ℕ)
    → search_loop fold left needle chars ≡ true
    → left ≤ length chars
    → Within fold needle chars
unfolding search_loop
Within-search_loop fold zero needle chars e h = absurd (ground arith)
Within-search_loop fold (suc left) needle [] e h = absurd (omega arith)
Within-search_loop fold (suc left) needle (c ∷ chars) e h =
    elim (Bool-cases (starts_with fold needle (c ∷ chars))) [
      | inl found ↦ found_here fold needle (c ∷ chars) found
      | inr other ↦
          shifted fold needle chars c
            (Within-search_loop fold left needle chars (ground arith) (omega arith))
    ]

search_loop-append :
    (fold : Bool) (left : ℕ) (needle before here after : List ℕ)
    → SameText fold here needle
    → length before < left
    → search_loop fold left needle (before ++ (here ++ after)) ≡ true
unfolding search_loop
search_loop-append fold zero needle before here after e h = absurd (omega arith)
search_loop-append fold (suc left) needle [] here after e h =
    rw (starts_with-append fold needle here after e)
search_loop-append fold (suc left) needle (b ∷ before) here after e h =
    let rest = search_loop-append fold left needle before here after e (omega arith) in ground arith

nonempty : (text : List ℕ) → text ≢ [] → length text ≢ 0
nonempty [] h = absurd (h refl)
nonempty (c ∷ text) h = ground arith

same_length : (fold : Bool) (xs ys : List ℕ) → SameText fold xs ys → length xs ≡ length ys
same_length fold xs ys e =
    sym (length-map (compared fold) xs) ∙ ap length e ∙ length-map (compared fold) ys

empty : (xs : List ℕ) → length xs ≡ 0 → xs ≡ []
empty [] h = refl
empty (x ∷ xs) h = absurd (omega arith)

-- For a slice that is not NULL with a length, pv_slice_contains_cstr answers true exactly if the
-- text is not empty and a part of the slice is the text, up to the case of ASCII letters where
-- that is asked for.
pub slice_contains_cstr_iff :
    (fold : Bool) (slice : Slice) (text : List ℕ)
    → dangling slice ≡ false
    → (slice_contains_cstr fold slice text ≡ true) ↔ ((text ≢ []) × Within fold text (items slice))
unfolding slice_contains_cstr
slice_contains_cstr_iff fold slice text sound =
    let sized = length-items slice sound in
    (
      λ e.
          let some_text : length text ≢ 0 = ground arith in
          (
            λ empty. some_text (ap length empty),
            Within-search_loop fold (len slice - length text + 1) text (items slice) (ground arith)
                (ground arith),
          ),
      λ p.
          let w = p.1 in
          let long = same_length fold w.here text w.same in
          let total : length (items slice) ≡ length w.before + (length w.here + length w.after) =
            ap length w.split
            ∙ length-append w.before (w.here ++ w.after)
            ∙ ap (λ (t : ℕ). length w.before + t) (length-append w.here w.after) in
          let passes : (length text == 0 || ltb (len slice) (length text)) ≡ false =
            ground (arith, nonempty text p.0) in
          rw (passes, w.split)
            (search_loop-append fold (len slice - length text + 1) text w.before w.here w.after
              w.same (omega arith)),
    )

-- For a slice that is not NULL with a length, pv_slice_equal_cstr answers true exactly if the
-- slice is the text, up to the case of ASCII letters where that is asked for.
pub slice_equal_cstr_iff :
    (fold : Bool) (slice : Slice) (text : List ℕ)
    → dangling slice ≡ false
    → (slice_equal_cstr fold slice text ≡ true) ↔ SameText fold (items slice) text
unfolding slice_equal_cstr
slice_equal_cstr_iff fold slice text sound =
    let sized = length-items slice sound in
    (
      λ e.
          let f = First-starts_with fold text (items slice) (ground arith) in
          let long = same_length fold f.here text f.same in
          let total : length (items slice) ≡ length f.here + length f.after =
            ap length f.split ∙ length-append f.here f.after in
          let all : len slice ≡ length text = ground arith in
          let rest : f.after ≡ [] = empty f.after (omega arith) in
          ap (map (compared fold)) (f.split ∙ ap (λ t. f.here ++ t) rest ∙ append-nil f.here)
          ∙ f.same,
      λ e.
          let long = same_length fold (items slice) text e in
          let passes : not (len slice == length text) ≡ false = ground arith in
          rw passes (
            ap (starts_with fold text) (sym (append-nil (items slice)))
            ∙ starts_with-append fold text (items slice) [] e),
    )
