-- ===== src/Jobs/Sidecar/Tests.antt =====
-- A sidecar file with a failed attempt.
use super_opencode.Base.{
  ◌≡◌, ◌≤◌, arith, ◌+◌, refl, suc, all, true, ℕ, some, none, [], ◌∷◌, codes, length,
}
use super_opencode.Jobs.Sidecar.{
  Body, Sidecar, Try, late, written, append_full, read_full, is_clean, last_ref, attempt,
  max_full_bytes,
}
use super_opencode.Jobs.Sidecar.Torn.{torn_write_hides_body}
use super_opencode.Jobs.Sidecar.Kept.{
  Append, IsSeeded, append_all, cost, written_bytes, body_is_kept, append_full-IsSeeded,
}

abbrev width : ℕ → Body → ℕ
width ref b = 60 + length b.body

abbrev empty : Sidecar
empty = record { files = record { full = []; torn = 0; backup = [] }; full_next_ref = none }

abbrev first : Body
first = record { level = codes "opencode_output"; body = codes "done" }

abbrev second : Append
second = record {
  body = record { level = codes "opencode_prompt"; body = codes "go on" };
  ends = late 7 ∷ written ∷ [];
}

seeded : IsSeeded empty
unfolding IsSeeded last_ref
seeded = omega arith

stored : (append_full width (late 0 ∷ []) first empty).1 ≡ some 1
unfolding append_full attempt last_ref super_opencode.Jobs.Sidecar.seed_full_ref
    super_opencode.Jobs.Sidecar.highest
stored = refl

clean : all is_clean (late 0 ∷ []) ≡ true
unfolding is_clean
clean = refl

small : cost width (second ∷ []) (append_full width (late 0 ∷ []) first empty).0 ≤ max_full_bytes
unfolding cost written_bytes
small = omega arith

body_is_kept_example :
    read_full 1 (append_all width (second ∷ []) (append_full width (late 0 ∷ []) first empty).0)
    ≡ some first
body_is_kept_example =
    body_is_kept width first (late 0 ∷ []) (second ∷ []) empty 1 seeded refl clean stored small

append_full-IsSeeded_example : IsSeeded (append_full width [] first empty).0
append_full-IsSeeded_example = append_full-IsSeeded width first [] empty seeded

last : last_ref empty ≡ 0
unfolding last_ref super_opencode.Jobs.Sidecar.seed_full_ref super_opencode.Jobs.Sidecar.highest
last = refl

torn_write_hides_body_example :
    let (s', result) = append_full width (late 7 ∷ []) first empty in
    (result ≡ some (suc (last_ref empty))) × (read_full (suc (last_ref empty)) s' ≡ none)
torn_write_hides_body_example =
    torn_write_hides_body width first 7 empty seeded (omega arith) (omega arith)
      (unfold super_opencode.Jobs.Sidecar.size in omega arith)
