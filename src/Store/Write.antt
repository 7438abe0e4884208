-- ===== src/Store/Write.antt =====
-- src/store.c: `write_all` and `write_atomic_at`. The calls of the system answer what `Answers` says;
-- calls that only look (`fstat`) or close leave the directory as it is.
use pvault.Base.{
  ℕ, zero, suc, ◌/◌, ◌%◌, ◌^◌, not, Bool, true, false, none, some, List, [], ◌∷◌, ◌++◌, length,
  take, drop, leb, ◌==◌, if◌then◌else◌,
}
use pvault.Exec.{Exec, pure, fail, refuse_if, ◌>>=◌, ◌>>◌}
use pvault.Result.{Result, ok, err}
use pvault.Status.{usage, io, limit, exists, durability}
use pvault.Store.{Name, file_at}
use pvault.Store.Disk.{Disk, create, append, sync, rename, unlink}
use pvault.Util.Hex.{alphabet, char_at}

-- One call of `write`: interrupted by a signal, an error, or so many bytes written.
pub data WriteAnswer : Type 0 where
  interrupted failed : WriteAnswer
  wrote : ℕ → WriteAnswer

pub record Attempt : Type 0 where
  pub suffix : ℕ
  -- `openat` fails only if the file is there.
  pub openable : Bool

pub record Answers : Type 0 where
  pub attempts : List Attempt
  pub stat_first : Bool
  pub header_writes : List WriteAnswer
  pub body_writes : List WriteAnswer
  pub stat_last : Bool
  pub file_sync : Bool
  pub close_ok : Bool
  pub renames : Bool
  pub directory_sync : Bool
  pub unlinks : Bool

-- `PATH_MAX`
abbrev pub path_max : ℕ
path_max = 4096

-- `%08x`
abbrev pub hex_eight : ℕ → ℕ → List ℕ
hex_eight zero value = []
hex_eight (suc n) value = char_at alphabet (value / 16 ^ n % 16) ∷ hex_eight n value

abbrev pub temporary : Name → ℕ → Name
temporary name suffix = name ++ (b'.' ∷ b't' ∷ b'm' ∷ b'p' ∷ b'.' ∷ hex_eight 8 suffix)

-- `while (remaining > 0U)`
abbrev pub while_left : List ℕ → Exec Disk (Unit {0}) → Exec Disk (Unit {0})
while_left [] round s = (ok tt, s)
while_left (b ∷ bytes) round s = round s

-- The loop of `write_all`; where there are no more answers, a call writes all that is left.
unfoldable pub write_all : Name → List WriteAnswer → List ℕ → Exec Disk (Unit {0})
write_all t [] bytes = while_left bytes (append t bytes)
write_all t (interrupted ∷ answers) bytes = while_left bytes (write_all t answers bytes)
write_all t (failed ∷ answers) bytes = while_left bytes (fail io)
write_all t (wrote zero ∷ answers) bytes = while_left bytes (fail io)
write_all t (wrote (suc m) ∷ answers) bytes =
    while_left bytes (append t (take (suc m) bytes) >> write_all t answers (drop (suc m) bytes))

-- The attempts to make a temporary file, with so many left; no answer is one more that fails.
unfoldable pub open_temporary : ℕ → List Attempt → Name → Exec Disk Name
open_temporary zero attempts name s = (err io, s)
open_temporary (suc left) [] name s = (err io, s)
open_temporary (suc left) (a ∷ attempts) name s =
    let t = temporary name a.suffix in
    elim (leb path_max (length t)) [
      | true ↦ (err limit, s)
      | false ↦ elim (file_at t s.files) [
        | some f ↦ open_temporary left attempts name s
        | none ↦ if a.openable then (create t >> pure t) s else (err io, s)
      ]
    ]

-- The new content in the temporary file, and on the disk.
unfoldable pub staged : Answers → Name → List ℕ → List ℕ → Exec Disk (Unit {0})
staged a t header ciphertext =
    write_all t a.header_writes header
    >> write_all t a.body_writes ciphertext
    >> refuse_if (not a.stat_last) io
    >> (if a.file_sync then sync t else fail io)
    >> refuse_if (not a.close_ok) io

-- `store_renameat`; over a file that is there, a call that may not replace answers `EEXIST` unless
-- it fails otherwise.
unfoldable pub published : Answers → Name → Name → Bool → Exec Disk (Unit {0})
published a t name no_replace s = elim (file_at name s.files) [
  | some f ↦
      if a.renames then if no_replace then (err exists, s) else rename t name s else (err io, s)
  | none ↦ if a.renames then rename t name s else (err io, s)
]

abbrev pub discard : Answers → Name → Disk → Disk
discard a t s = if a.unlinks then (unlink t s).1 else s

-- After the renaming the directory is synced; before it, the temporary file goes.
abbrev pub settle : Answers → Name → Result (Unit {0}) × Disk → Result (Unit {0}) × Disk
settle a t (ok u, s) = refuse_if (not a.directory_sync) durability s
settle a t (err e, s) = (err e, discard a t s)

-- `write_atomic_at`
unfoldable pub write_atomic : Answers → Name → List ℕ → List ℕ → Bool → Exec Disk (Unit {0})
write_atomic a name header ciphertext no_replace =
    refuse_if (length ciphertext == 0) usage
    >> (open_temporary 32 a.attempts name >>= λ t s.
        if not a.stat_first
        then (err io, discard a t s)
        else settle a t ((staged a t header ciphertext >> published a t name no_replace) s))
