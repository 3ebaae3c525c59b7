-- ===== src/Jobs/Sidecar/Torn.antt =====
-- services/jobs/state_store.py: a write that fails after a part of its line.
use super_opencode.Base.{
  ℕ, suc, ◌+◌, ◌≤◌, ◌<◌, ◌≡◌, refl, ◌∙◌, true, none, some, List, [], ◌∷◌, ◌++◌, arith,
}
use super_opencode.Jobs.Sidecar.{
  Body, Line, Files, Sidecar, late, highest, seed_full_ref, last_ref, rotate, write, attempt,
  line_of, append_full, find_ref, or_else, read_full, max_full_bytes, junk, tear, file_size,
}
use super_opencode.Jobs.Sidecar.Kept.{IsSeeded, find_ref-append, above-highest}

junk-hides :
    (ref bytes : ℕ) (ls : List Line)
    → highest ls < ref
    → find_ref ref (ls ++ junk bytes ∷ []) ≡ none
unfolding find_ref or_else
junk-hides ref bytes ls h =
    find_ref-append ref ls (junk bytes ∷ []) ∙ ground (arith, above-highest ref ls h)

within-rotate : (f : Files) → file_size f ≤ max_full_bytes → rotate f ≡ f
unfolding rotate
within-rotate f h = ground (arith, h)

torn-write :
    (l : Line) (f : Files) → 0 < f.torn → (write l f).full ≡ f.full ++ junk (f.torn + l.bytes) ∷ []
unfolding write
torn-write l f h = ground (arith, h)

write-backup : (l : Line) (f : Files) → (write l f).backup ≡ f.backup
unfolding write
write-backup l f = ground arith

module _ (width : ℕ → Body → ℕ) where
  torn_attempt :
      (k : ℕ) (l : Line) (f : Files)
      → file_size f + l.bytes ≤ max_full_bytes
      → attempt 3 (late k ∷ []) l f ≡ (write l (tear k l f), true)
  unfolding attempt
  torn_attempt k l f room =
      let first = within-rotate f (omega (arith, room)) in
      let second = within-rotate (tear k l f) (omega (arith, room)) in rw first (rw second refl)

  -- If the first attempt to write a body fails after some bytes of its line and the second one
  -- succeeds, in a file within the rotation bound, the write returns a reference by which nothing is
  -- read back: the whole line stands behind the part, and the two are one line that does not parse.
  pub torn_write_hides_body :
      (b : Body) (k : ℕ) (s : Sidecar)
      → IsSeeded s
      → 0 < k
      → 0 < width (suc (last_ref s)) b
      → file_size s.files + width (suc (last_ref s)) b ≤ max_full_bytes
      → let (s', result) = append_full width (late k ∷ []) b s in
        (result ≡ some (suc (last_ref s))) × (read_full (suc (last_ref s)) s' ≡ none)
  unfolding append_full read_full IsSeeded seed_full_ref or_else
  torn_write_hides_body b k s seeded some_bytes wide room =
      let ref = suc (last_ref s) in
      let l : Line = line_of width ref b in
      let t : Files = tear k l s.files in
      rw (torn_attempt k l s.files room) (
        refl,
        ground (
          arith,
          torn-write l t (omega (arith, some_bytes, wide)),
          write-backup l t,
          junk-hides ref (t.torn + l.bytes) s.files.full (omega (arith, seeded)),
          above-highest ref s.files.backup (omega (arith, seeded)),
        ),
      )
