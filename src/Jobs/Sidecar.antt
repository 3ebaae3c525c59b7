-- ===== src/Jobs/Sidecar.antt =====
-- services/jobs/state_store.py: the sidecar file of a job, which has the full bodies of its events,
-- with its one backup. A file is the list of its lines, and a missing file an empty one; the last line
-- may be a part that a failed write left, which does not parse.
pub mod Kept
pub mod Torn
mod Tests
use super_opencode.Base.{
  ℕ, zero, suc, ◌+◌, Bool, true, false, Option, none, some, List, [], ◌∷◌, ◌++◌, max, min, ltb,
  ◌==◌, if◌then◌else◌, Text,
}

-- _MAX_FULL_BYTES
abbrev pub max_full_bytes : ℕ
max_full_bytes = 16777216

pub record Body : Type 0 where
  pub level : Text
  pub body : Text

-- A line that parses has a body and its reference; each line has its length in bytes.
pub record Line : Type 0 where
  pub bytes : ℕ
  pub parsed : Option (ℕ × Body)

-- `torn` is the bytes of a last line without its end, which no line feed closes.
pub record Files : Type 0 where
  pub full : List Line
  pub torn : ℕ
  pub backup : List Line

-- The files with the reference that was given out last, once it is known.
pub record Sidecar : Type 0 where
  pub files : Files
  pub full_next_ref : Option ℕ

unfoldable pub size : List Line → ℕ
size [] = 0
size (l ∷ ls) = l.bytes + size ls

unfoldable pub highest : List Line → ℕ
highest [] = 0
highest (l ∷ ls) = elim l.parsed [ none ↦ highest ls | some p ↦ max p.0 (highest ls) ]

-- `_seed_full_ref`
unfoldable pub seed_full_ref : Files → ℕ
seed_full_ref f = max (highest f.full) (highest f.backup)

unfoldable pub last_ref : Sidecar → ℕ
last_ref s = elim s.full_next_ref [ none ↦ seed_full_ref s.files | some n ↦ n ]

-- How an attempt to write ends: well, or with an error before the rotation, between the removal of the
-- old backup and the renaming, or at the write, which leaves so many bytes of the line.
pub data Try : Type 0 where
  written early unlinked : Try
  late : ℕ → Try

-- No part of a line is left.
unfoldable pub is_clean : Try → Bool
is_clean written = true
is_clean early = true
is_clean unlinked = true
is_clean (late bytes) = bytes == 0

abbrev pub junk : ℕ → Line
junk bytes = record { bytes = bytes; parsed = none }

-- the lines with the part at the end
unfoldable pub with_torn : ℕ → List Line → List Line
with_torn torn ls = if torn == 0 then ls else ls ++ junk torn ∷ []

-- `path.stat().st_size`
abbrev pub file_size : Files → ℕ
file_size f = size f.full + f.torn

-- the rotation of a file past the bound
unfoldable pub rotate : Files → Files
unfolding with_torn
rotate f =
    if ltb max_full_bytes (file_size f)
    then record { full = []; torn = 0; backup = with_torn f.torn f.full }
    else f

unfoldable pub unlink : Files → Files
unlink f = if ltb max_full_bytes (file_size f) then record f { backup = [] } else f

-- A line that is written behind a part of another one is one line with it, which does not parse.
unfoldable pub write : Line → Files → Files
write l f =
    if f.torn == 0
    then record f { full = f.full ++ l ∷ [] }
    else record f { full = f.full ++ junk (f.torn + l.bytes) ∷ []; torn = 0 }

-- a write that fails after some bytes
abbrev pub tear : ℕ → Line → Files → Files
tear bytes l f = record f { torn = f.torn + min bytes l.bytes }

-- The attempts that are left; an empty list of ends is one of successes. The Boolean is false where
-- the last error is raised.
unfoldable pub attempt : ℕ → List Try → Line → Files → Files × Bool
attempt zero ends l f = (f, false)
attempt (suc n) [] l f = (write l (rotate f), true)
attempt (suc n) (written ∷ ends) l f = (write l (rotate f), true)
attempt (suc n) (early ∷ ends) l f = attempt n ends l f
attempt (suc n) (unlinked ∷ ends) l f = attempt n ends l (unlink f)
attempt (suc n) (late bytes ∷ ends) l f = attempt n ends l (tear bytes l (rotate f))

-- The line of a body: `width` is the length of its JSON text.
abbrev pub line_of : (ℕ → Body → ℕ) → ℕ → Body → Line
line_of width ref b = record { bytes = width ref b; parsed = some (ref, b) }

-- `append_full`, with the reference where it returns
unfoldable pub append_full : (ℕ → Body → ℕ) → List Try → Body → Sidecar → Sidecar × Option ℕ
append_full width ends b s =
    let ref = suc (last_ref s) in
    let (f, done) = attempt 3 ends (line_of width ref b) s.files in
    (record { files = f; full_next_ref = some ref }, if done then some ref else none)

-- the first line with the reference
unfoldable pub find_ref : ℕ → List Line → Option Body
find_ref ref [] = none
find_ref ref (l ∷ ls) = elim l.parsed [
  | none ↦ find_ref ref ls
  | some p ↦ if p.0 == ref then some p.1 else find_ref ref ls
]

unfoldable pub or_else : Option Body → Option Body → Option Body
or_else none o = o
or_else (some b) o = some b

-- `read_full`
unfoldable pub read_full : ℕ → Sidecar → Option Body
read_full ref s = or_else (find_ref ref s.files.full) (find_ref ref s.files.backup)
