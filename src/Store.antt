-- ===== src/Store.antt =====
-- src/store.c: the directory of a vault. A file is its bytes, and whether they have reached the disk.
pub mod Disk
pub mod Write
mod Steps
mod Content
pub mod Read
pub mod Snapshot
mod Hashed
mod Copied
mod Save
mod Backed
mod Atomic
mod Crash
mod Succeeds
mod Prior
mod Refused
mod Verified
mod Saved
mod SaveTests
mod Tests
use pvault.Base.{Bool, Option, none, some, List, [], ◌∷◌, ℕ, bytes_eq, if◌then◌else◌}

abbrev pub Name : Type 0
Name = List ℕ

pub record File : Type 0 where
  pub bytes : List ℕ
  pub synced : Bool

abbrev pub Dir : Type 0
Dir = List (Name × File)

unfoldable pub file_at : Name → Dir → Option File
file_at n [] = none
file_at n ((m, f) ∷ d) = if bytes_eq m n then some f else file_at n d

unfoldable pub remove : Name → Dir → Dir
remove n [] = []
remove n ((m, f) ∷ d) = let rest = remove n d in if bytes_eq m n then rest else (m, f) ∷ rest

unfoldable pub put : Name → File → Dir → Dir
put n f d = (n, f) ∷ remove n d
