-- ===== src/Jobs/Sidecar/Kept.antt =====
-- services/jobs/state_store.py: how long a body can be read back.
use super_opencode.Base.{
  ◌⊎◌, inl, subst, ℕ, zero, suc, ◌+◌, ◌≤◌, ◌<◌, ◌≡◌, refl, true, none, some, List, [], ◌∷◌, ◌++◌,
  max, min, all, arith,
}
use super_opencode.Jobs.Sidecar.{
  Body, Line, Files, Sidecar, Try, written, early, unlinked, late, size, highest, seed_full_ref,
  last_ref, rotate, unlink, write, attempt, line_of, append_full, find_ref, or_else, read_full,
  max_full_bytes, with_torn, junk, tear, file_size, is_clean,
}

pub find_ref-append :
    (ref : ℕ) (xs ys : List Line)
    → find_ref ref (xs ++ ys) ≡ or_else (find_ref ref xs) (find_ref ref ys)
unfolding find_ref or_else
find_ref-append ref [] ys = refl
find_ref-append ref (l ∷ ls) ys = ground (arith, find_ref-append ref ls ys)

size-append : (xs ys : List Line) → size (xs ++ ys) ≡ size xs + size ys
unfolding size
size-append [] ys = omega arith
size-append (l ∷ ls) ys = omega (arith, size-append ls ys)

pub above-highest : (ref : ℕ) (ls : List Line) → highest ls < ref → find_ref ref ls ≡ none
unfolding highest find_ref
above-highest ref [] h = refl
above-highest ref (l ∷ ls) h = ground (arith, h, above-highest ref ls)

highest-append : (xs ys : List Line) → highest (xs ++ ys) ≡ max (highest xs) (highest ys)
unfolding highest
highest-append [] ys = omega arith
highest-append (l ∷ ls) ys = ground (arith, highest-append ls ys)

-- The files hold no reference beyond the last one.
unfoldable pub IsSeeded : Sidecar → Type 0
IsSeeded s = seed_full_ref s.files ≤ last_ref s

rotate-seed : (ref : ℕ) (f : Files) → seed_full_ref f ≤ ref → seed_full_ref (rotate f) ≤ ref
unfolding seed_full_ref rotate with_torn highest
rotate-seed ref f h = ground (arith, h, highest-append f.full (junk f.torn ∷ []))

write-seed :
    (ref bytes : ℕ) (b : Body) (f : Files)
    → seed_full_ref f ≤ ref
    → seed_full_ref (write (record { bytes = bytes; parsed = some (ref, b) }) f) ≤ ref
unfolding seed_full_ref write highest
write-seed ref bytes b f h = ground (
  arith,
  h,
  highest-append f.full (record { bytes = bytes; parsed = some (ref, b) } ∷ []),
  highest-append f.full (junk (f.torn + bytes) ∷ []),
)

attempt-seed :
    (n ref : ℕ) (ends : List Try) (bytes : ℕ) (b : Body) (f : Files)
    → seed_full_ref f ≤ ref
    → seed_full_ref (attempt n ends (record { bytes = bytes; parsed = some (ref, b) }) f).0 ≤ ref
unfolding attempt seed_full_ref unlink highest
attempt-seed zero ref ends bytes b f h = h
attempt-seed (suc n) ref [] bytes b f h = write-seed ref bytes b (rotate f) (rotate-seed ref f h)
attempt-seed (suc n) ref (written ∷ ends) bytes b f h =
    write-seed ref bytes b (rotate f) (rotate-seed ref f h)
attempt-seed (suc n) ref (early ∷ ends) bytes b f h = attempt-seed n ref ends bytes b f h
attempt-seed (suc n) ref (unlinked ∷ ends) bytes b f h =
    attempt-seed n ref ends bytes b (unlink f) (ground (arith, h))
attempt-seed (suc n) ref (late k ∷ ends) bytes b f h =
    attempt-seed n ref ends bytes b
      (tear k (record { bytes = bytes; parsed = some (ref, b) }) (rotate f)) (rotate-seed ref f h)

-- Where the last errors leave a body: in the file, or in the backup of a file that has at most the
-- bytes written since.
unfoldable IsStored : ℕ → Body → ℕ → Files → Type 0
IsStored ref b spent f =
    (find_ref ref f.full ≡ some b)
    ⊎ ((find_ref ref f.full ≡ none) × (find_ref ref f.backup ≡ some b) × (file_size f ≤ spent))

rotate-IsStored :
    (ref : ℕ) (b : Body) (spent : ℕ) (f : Files)
    → spent ≤ max_full_bytes
    → IsStored ref b spent f
    → IsStored ref b spent (rotate f)
unfolding IsStored rotate with_torn find_ref size or_else
rotate-IsStored ref b spent f room h =
    ground (arith, room, h, find_ref-append ref f.full (junk f.torn ∷ []))

unlink-IsStored :
    (ref : ℕ) (b : Body) (spent : ℕ) (f : Files)
    → spent ≤ max_full_bytes
    → IsStored ref b spent f
    → IsStored ref b spent (unlink f)
unfolding IsStored unlink
unlink-IsStored ref b spent f room h = ground (arith, room, h)

write-IsStored :
    (ref new : ℕ) (b c : Body) (spent bytes : ℕ) (f : Files)
    → ref < new
    → IsStored ref b spent f
    → IsStored ref b (spent + bytes) (write (record { bytes = bytes; parsed = some (new, c) }) f)
unfolding IsStored write find_ref size or_else
write-IsStored ref new b c spent bytes f newer h =
    let l : Line = record { bytes = bytes; parsed = some (new, c) } in
    ground (
      arith,
      h,
      newer,
      find_ref-append ref f.full (l ∷ []),
      size-append f.full (l ∷ []),
      find_ref-append ref f.full (junk (f.torn + bytes) ∷ []),
      size-append f.full (junk (f.torn + bytes) ∷ []),
    )

-- the bytes that the attempts write, the parts that fail included
unfoldable pub written_bytes : ℕ → List Try → ℕ → ℕ
written_bytes zero ends bytes = 0
written_bytes (suc n) [] bytes = bytes
written_bytes (suc n) (written ∷ ends) bytes = bytes
written_bytes (suc n) (early ∷ ends) bytes = written_bytes n ends bytes
written_bytes (suc n) (unlinked ∷ ends) bytes = written_bytes n ends bytes
written_bytes (suc n) (late k ∷ ends) bytes = min k bytes + written_bytes n ends bytes

tear-IsStored :
    (ref : ℕ) (b : Body) (spent k : ℕ) (l : Line) (f : Files)
    → IsStored ref b spent f
    → IsStored ref b (spent + min k l.bytes) (tear k l f)
unfolding IsStored
tear-IsStored ref b spent k l f h = ground (arith, h)

module _ (ref new : ℕ) (b c : Body) (bytes : ℕ) (newer : ref < new) where
  abbrev new_line : Line
  new_line = record { bytes = bytes; parsed = some (new, c) }

  attempt-IsStored :
      (n spent : ℕ) (ends : List Try) (f : Files)
      → spent + written_bytes n ends bytes ≤ max_full_bytes
      → IsStored ref b spent f
      → IsStored ref b (spent + written_bytes n ends bytes) (attempt n ends new_line f).0
  unfolding attempt written_bytes
  attempt-IsStored zero spent ends f room h = subst (λ k. IsStored ref b k f) (omega arith) h
  attempt-IsStored (suc n) spent [] f room h =
      write-IsStored ref new b c spent bytes (rotate f) newer
        (rotate-IsStored ref b spent f (omega (arith, room)) h)
  attempt-IsStored (suc n) spent (written ∷ ends) f room h =
      write-IsStored ref new b c spent bytes (rotate f) newer
        (rotate-IsStored ref b spent f (omega (arith, room)) h)
  attempt-IsStored (suc n) spent (early ∷ ends) f room h = attempt-IsStored n spent ends f room h
  attempt-IsStored (suc n) spent (unlinked ∷ ends) f room h =
      attempt-IsStored n spent ends (unlink f) room
        (unlink-IsStored ref b spent f (omega (arith, room)) h)
  attempt-IsStored (suc n) spent (late k ∷ ends) f room h =
      let torn = tear k new_line (rotate f) in
      subst (λ m. IsStored ref b m (attempt n ends new_line torn).0) (omega arith)
        (attempt-IsStored n (spent + min k bytes) ends torn (omega (arith, room)) (
          tear-IsStored ref b spent k new_line (rotate f)
            (rotate-IsStored ref b spent f (omega (arith, room)) h)))

rotate-fresh : (ref : ℕ) (f : Files) → highest f.full < ref → highest (rotate f).full < ref
unfolding rotate highest
rotate-fresh ref f fresh = ground (arith, fresh)

unlink-fresh : (ref : ℕ) (f : Files) → highest f.full < ref → highest (unlink f).full < ref
unfolding unlink
unlink-fresh ref f fresh = ground (arith, fresh)

rotate-whole : (f : Files) → f.torn ≡ 0 → (rotate f).torn ≡ 0
unfolding rotate
rotate-whole f whole = ground (arith, whole)

unlink-whole : (f : Files) → f.torn ≡ 0 → (unlink f).torn ≡ 0
unfolding unlink
unlink-whole f whole = ground (arith, whole)

write-stores :
    (ref bytes : ℕ) (b : Body) (f : Files)
    → highest f.full < ref
    → f.torn ≡ 0
    → find_ref ref (write (record { bytes = bytes; parsed = some (ref, b) }) f).full ≡ some b
unfolding write find_ref or_else
write-stores ref bytes b f fresh whole =
    let l : Line = record { bytes = bytes; parsed = some (ref, b) } in
    ground (arith, whole, find_ref-append ref f.full (l ∷ []), above-highest ref f.full fresh)

-- A body that has been written, with no part of a line before it, is in the file.
module _ (ref bytes : ℕ) (b : Body) where
  abbrev own_line : Line
  own_line = record { bytes = bytes; parsed = some (ref, b) }

  attempt-stores :
      (n : ℕ) (ends : List Try) (f : Files)
      → all is_clean ends ≡ true
      → highest f.full < ref
      → f.torn ≡ 0
      → (attempt n ends own_line f).1 ≡ true
      → find_ref ref (attempt n ends own_line f).0.full ≡ some b
  unfolding attempt is_clean
  attempt-stores zero ends f clean fresh whole done = cc
  attempt-stores (suc n) [] f clean fresh whole done =
      write-stores ref bytes b (rotate f) (rotate-fresh ref f fresh) (rotate-whole f whole)
  attempt-stores (suc n) (written ∷ ends) f clean fresh whole done =
      write-stores ref bytes b (rotate f) (rotate-fresh ref f fresh) (rotate-whole f whole)
  attempt-stores (suc n) (early ∷ ends) f clean fresh whole done =
      attempt-stores n ends f clean fresh whole done
  attempt-stores (suc n) (unlinked ∷ ends) f clean fresh whole done =
      attempt-stores n ends (unlink f) clean (unlink-fresh ref f fresh) (unlink-whole f whole) done
  attempt-stores (suc n) (late k ∷ ends) f clean fresh whole done =
      attempt-stores n ends (tear k own_line (rotate f)) (ground (arith, clean))
        (rotate-fresh ref f fresh) (ground (arith, clean, rotate-whole f whole)) done

-- The bodies that are written later, each with the ends of its attempts.
pub record Append : Type 0 where
  pub body : Body
  pub ends : List Try

module _ (width : ℕ → Body → ℕ) where
  unfoldable pub append_all : List Append → Sidecar → Sidecar
  append_all [] s = s
  append_all (a ∷ rest) s = append_all rest (append_full width a.ends a.body s).0

  -- the bytes that they write, the parts that fail included
  unfoldable pub cost : List Append → Sidecar → ℕ
  cost [] s = 0
  cost (a ∷ rest) s =
      written_bytes 3 a.ends (width (suc (last_ref s)) a.body)
      + cost rest (append_full width a.ends a.body s).0

  kept :
      (later : List Append) (ref : ℕ) (b : Body) (spent : ℕ) (s : Sidecar)
      → ref ≤ last_ref s
      → spent + cost later s ≤ max_full_bytes
      → IsStored ref b spent s.files
      → read_full ref (append_all later s) ≡ some b
  unfolding append_all cost read_full or_else IsStored append_full last_ref
  kept [] ref b spent s old room h = ground (arith, h)
  kept (a ∷ rest) ref b spent s old room h =
      let bytes = written_bytes 3 a.ends (width (suc (last_ref s)) a.body) in
      kept rest ref b (spent + bytes) (append_full width a.ends a.body s).0 (omega (arith, old))
        (omega (arith, room))
        (attempt-IsStored ref (suc (last_ref s)) b a.body (width (suc (last_ref s)) a.body)
          (omega (arith, old)) 3 spent a.ends s.files (omega (arith, room)) h)

  -- A body whose write returns a reference is read back by that reference, unchanged, until as many
  -- bytes as the rotation bound have been written after it. The attempts to write it may fail, but must
  -- not leave a part of its line, and the file must not end in a part of another one; the attempts to
  -- write the later bodies may fail in any way.
  pub body_is_kept :
      (b : Body) (ends : List Try) (later : List Append) (s : Sidecar) (ref : ℕ)
      → IsSeeded s
      → s.files.torn ≡ 0
      → all is_clean ends ≡ true
      → (append_full width ends b s).1 ≡ some ref
      → cost later (append_full width ends b s).0 ≤ max_full_bytes
      → read_full ref (append_all later (append_full width ends b s).0) ≡ some b
  unfolding IsSeeded append_full IsStored last_ref seed_full_ref
  body_is_kept b ends later s ref seeded whole clean done room =
      let new = suc (last_ref s) in
      let s' : Sidecar = (append_full width ends b s).0 in
      let wrote : (attempt 3 ends (line_of width new b) s.files).1 ≡ true = ground (arith, done) in
      let same : new ≡ ref = ground (arith, done) in
      let stored =
        attempt-stores new (width new b) b 3 ends s.files clean (omega (arith, seeded)) whole
          wrote in
      subst (λ r. read_full r (append_all later s') ≡ some b) same
        (kept later new b 0 s' (omega arith) (omega (arith, room)) (inl stored))

  -- A new reference is greater than every reference in the files.
  pub append_full-IsSeeded :
      (b : Body) (ends : List Try) (s : Sidecar)
      → IsSeeded s
      → IsSeeded (append_full width ends b s).0
  unfolding IsSeeded append_full last_ref
  append_full-IsSeeded b ends s seeded =
      attempt-seed 3 (suc (last_ref s)) ends (width (suc (last_ref s)) b) b s.files
        (omega (arith, seeded))
