-- ===== src/Skills/Tests.antt =====
-- A bank of two skills.
use super_opencode.Base.{
  ◌≡◌, refl, ◌≤◌, ◌<◌, ◌+◌, max, true, false, some, List, [], ◌∷◌, codes, length, Text, arith,
  split_lines, join, is_empty, strip, text_eq,
}
use super_opencode.Skills.{
  Bank, Skill, SkillFile, Directory, new, truncation_note, parse_skill_file, discover,
  is_valid_name, cut_body,
}
use super_opencode.Skills.Evict.{
  evict_over_budget, fits, longest_end, total_chars, evict_over_budget_lem,
}
use super_opencode.Skills.Queue.{
  load, load_round, load_each, load_one, load_found, find_skill, has_skill, key_of,
}
use super_opencode.Skills.Render.{context_block, build_goal_context}
use super_opencode.Skills.Reach.{Use, load_use, run, step}
use super_opencode.Skills.Caps.{resident_is_bounded}
use super_opencode.Skills.Hidden.{prompt_loses_bank}
use super_opencode.Skills.Loop.{SkillLoop, fulfill_pending_skills, queue_deferred_skill_requests}
use super_opencode.Skills.Held.{is_resident, held_request_loads}
use super_opencode.Skills.Latest.{last_request_is_resident}

abbrev alpha : SkillFile
alpha = record { stem = codes "alpha"; raw = codes "Alpha body.\n" }

abbrev beta : SkillFile
beta = record { stem = codes "beta"; raw = codes "---\ndescription: two\n---\nBeta body.\n" }

abbrev dirs : List Directory
dirs = record { label = codes "workspace"; files = alpha ∷ beta ∷ [] } ∷ []

abbrev uses : List Use
uses = load_use (codes "alpha" ∷ codes " Beta" ∷ []) ∷ []

resident_is_bounded_example :
    let b = run uses (new 6000 5 16000 2 dirs) in
    (length b.resident ≤ max 1 5)
    × (total_chars b.resident ≤ max (max 500 6000) 16000 + length truncation_note)
resident_is_bounded_example = resident_is_bounded 6000 5 16000 2 dirs uses

abbrev small : Skill
small = record { name = codes "a"; description = []; body = codes "abc"; source = [] }

evict_over_budget_lem_example :
    evict_over_budget 1 10 (small ∷ small ∷ []) ≡ longest_end (fits 1 10) (small ∷ small ∷ [])
evict_over_budget_lem_example = evict_over_budget_lem 1 10 (small ∷ small ∷ [])

two_resident : length (run uses (new 6000 5 16000 2 dirs)).resident ≡ 2
unfolding run step load load_round load_each load_one load_found find_skill new discover text_eq
    strip evict_over_budget total_chars is_valid_name parse_skill_file cut_body split_lines join
two_resident = refl

many : 2 ≤ length (run uses (new 6000 5 16000 2 dirs)).resident
many = omega (arith, two_resident)

prompt_loses_bank_example :
    build_goal_context
      (some (codes "goal") ∷ (context_block (run uses (new 6000 5 16000 2 dirs))).1 ∷ [])
    ≡ build_goal_context (some (codes "goal") ∷ [])
prompt_loses_bank_example =
    prompt_loses_bank 6000 5 16000 2 dirs uses (some (codes "goal") ∷ []) [] many

abbrev no_requests : List Text
no_requests = []

room_for_one : length no_requests < (run [] (new 6000 1 16000 2 dirs)).max_loads_per_turn
unfolding run new
room_for_one = omega arith

named : is_empty (key_of (codes " Beta")) ≡ false
unfolding strip
named = refl

known : has_skill (key_of (codes " Beta")) (run [] (new 6000 1 16000 2 dirs)).skills ≡ true
unfolding run new discover text_eq strip is_valid_name parse_skill_file cut_body split_lines join
known = refl

last_request_is_resident_example :
    has_skill
      (key_of (codes " Beta"))
      (load (codes " Beta" ∷ []) (run [] (new 6000 1 16000 2 dirs))).0.resident
    ≡ true
last_request_is_resident_example =
    last_request_is_resident 6000 1 16000 2 dirs [] no_requests (codes " Beta") room_for_one named
      known

abbrev fresh : Bank
fresh = new 6000 1 16000 2 dirs

abbrev loop : SkillLoop
loop = record { bank = some fresh; events = [] }

fresh_room : (fresh.pending ≡ []) × (1 ≤ fresh.max_resident) × (1 ≤ fresh.max_loads_per_turn)
unfolding new
fresh_room = (refl, omega arith, omega arith)

fresh_known : has_skill (key_of (codes " Beta")) fresh.skills ≡ true
unfolding new discover text_eq strip is_valid_name parse_skill_file cut_body split_lines join
fresh_known = refl

held_request_loads_example :
    is_resident
      (key_of (codes " Beta"))
      (fulfill_pending_skills (queue_deferred_skill_requests (codes " Beta" ∷ []) loop))
    ≡ true
held_request_loads_example =
    held_request_loads loop fresh (codes " Beta") refl fresh_room.0 fresh_room.1 fresh_room.2 named
      fresh_known
