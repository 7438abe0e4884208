-- ===== src/Store/Disk.antt =====
-- src/store.c: a directory in the course of a call. Every state that it was in is kept, since a crash
-- can leave any of them.
use pvault.Base.{
  ℕ, ◌≡◌, refl, ◌∙◌, ap, Bool-cases, inl, inr, true, false, none, some, List, [], ◌∷◌, ◌++◌,
  bytes_eq, bytes_eq_refl, bytes_eq→eq,
}
use pvault.Exec.{Exec}
use pvault.Result.{ok}
use pvault.Store.{Name, File, Dir, file_at, remove, put}

pub record Disk : Type 0 where
  pub files : Dir
  pub seen : List Dir

abbrev pub change : (Dir → Dir) → Exec Disk (Unit {0})
change g s = (ok tt, record { files = g s.files; seen = s.files ∷ s.seen })

abbrev pub create : Name → Exec Disk (Unit {0})
create t = change (put t (record { bytes = []; synced = false }))

-- What a change of the file does, if it is there.
abbrev pub on_file : Name → (File → Dir → Dir) → Dir → Dir
on_file t g d = elim (file_at t d) [ none ↦ d | some f ↦ g f d ]

abbrev pub append : Name → List ℕ → Exec Disk (Unit {0})
append t more = change (on_file t (λ f. put t (record { bytes = f.bytes ++ more; synced = false })))

abbrev pub sync : Name → Exec Disk (Unit {0})
sync t = change (on_file t (λ f. put t (record { bytes = f.bytes; synced = true })))

abbrev pub rename : Name → Name → Exec Disk (Unit {0})
rename t n = change (on_file t (λ f d. put n f (remove t d)))

abbrev pub unlink : Name → Exec Disk (Unit {0})
unlink t = change (remove t)

pub file_at-remove : (n : Name) (d : Dir) → file_at n (remove n d) ≡ none
unfolding file_at remove
file_at-remove n [] = refl
file_at-remove n ((m, f) ∷ d) = elim (Bool-cases (bytes_eq m n)) [
  | inl same ↦ rw same (file_at-remove n d)
  | inr other ↦ rw (other, other) (file_at-remove n d)
]

pub file_at-remove_other :
    (n k : Name) (d : Dir) → bytes_eq n k ≡ false → file_at k (remove n d) ≡ file_at k d
unfolding file_at remove
file_at-remove_other n k [] h = refl
file_at-remove_other n k ((m, f) ∷ d) h = elim (Bool-cases (bytes_eq m n)) [
  | inl same ↦
      let e : m ≡ n = bytes_eq→eq m n same in
      let skip : bytes_eq m k ≡ false = ap (λ t. bytes_eq t k) e ∙ h in
      rw (same, skip) (file_at-remove_other n k d h)
  | inr other ↦ elim (Bool-cases (bytes_eq m k)) [
    | inl here ↦ rw (other, here) refl
    | inr away ↦ rw (other, away) (file_at-remove_other n k d h)
  ]
]

pub file_at-put : (n : Name) (f : File) (d : Dir) → file_at n (put n f d) ≡ some f
unfolding file_at put
file_at-put n f d = rw (bytes_eq_refl n) refl

pub file_at-put_other :
    (n k : Name) (f : File) (d : Dir) → bytes_eq n k ≡ false → file_at k (put n f d) ≡ file_at k d
unfolding file_at put
file_at-put_other n k f d h = rw h (file_at-remove_other n k d h)
