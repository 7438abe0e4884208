-- ===== src/Store/Crash.antt =====
-- src/store.c: every state that `write_atomic_at` passes.
use pvault.Base.{ℕ, ◌≡◌, ◌⊎◌, inl, inr, Bool, true, some, List, [], ◌∷◌, ◌++◌, All}
use pvault.Result.{Result}
use pvault.Store.{Name, Dir, file_at}
use pvault.Store.Disk.{Disk}
use pvault.Store.Steps.{name-IsOther, IsIntact}
use pvault.Store.Write.{Answers, write_atomic}
use pvault.Store.Atomic.{Outcome, replaced, untouched, write_atomic-Outcome}

-- What a crash can leave under a name.
abbrev OldOrNew : Name → Dir → List ℕ → Dir → Type 0
OldOrNew name old new d =
    (file_at name d ≡ file_at name old)
    ⊎ (file_at name d ≡ some (record { bytes = new; synced = true }))

Intact-OldOrNew :
    (name : Name) (old : Dir) (new : List ℕ) (ds : List Dir)
    → All (IsIntact name old) ds
    → All (OldOrNew name old new) ds
Intact-OldOrNew name old new [] h = tt
Intact-OldOrNew name old new (d ∷ ds) (h, hs) =
    (inl (h.kept name (name-IsOther name)), Intact-OldOrNew name old new ds hs)

Outcome-OldOrNew :
    (name : Name) (old : Dir) (new : List ℕ) (no_replace : Bool) (r : Result (Unit {0}) × Disk)
    → Outcome name old new no_replace r
    → All (OldOrNew name old new) (r.1.files ∷ r.1.seen)
Outcome-OldOrNew name old new no_replace r (replaced _ h) =
    (inr h.found, Intact-OldOrNew name old new _ h.before)
Outcome-OldOrNew name old new no_replace r (untouched _ q) =
    Intact-OldOrNew name old new (r.1.files ∷ r.1.seen) (q.now, q.before)

-- In every state of the directory from before write_atomic_at to its end, the name has its old
-- file, or a file of the new header and body that is synced: a crash leaves one of the two.
pub write_atomic_crash :
    (a : Answers) (name : Name) (header ciphertext : List ℕ) (no_replace : Bool) (old : Dir)
    → (let s =
          (write_atomic a name header ciphertext no_replace
            (record { files = old; seen = [] })).1 in
        All
          (λ d.
            (file_at name d ≡ file_at name old)
            ⊎ (file_at name d ≡ some (record { bytes = header ++ ciphertext; synced = true })))
          (s.files ∷ s.seen))
write_atomic_crash a name header ciphertext no_replace old =
    Outcome-OldOrNew name old (header ++ ciphertext) no_replace _
      (write_atomic-Outcome a name header ciphertext no_replace old)
