-- ===== src/Skills/Hidden.antt =====
-- supervisor/core/skill_bank.py and llm_supervisor.py: what the prompt shows of the bank.
use super_opencode.Base.{
  ◌≡◌, refl, ◌≤◌, ◌↔◌, arith, ℕ, true, false, Option, none, some, List, [], ◌∷◌, ◌++◌, length, Text,
}
use super_opencode.Skills.{Skill, Bank, Directory, new}
use super_opencode.Skills.Queue.{has_skill}
use super_opencode.Skills.Render.{
  is_last, render_each, block_of, with_catalog, resident_block, context_block, rendered_blocks,
  build_goal_context,
}
use super_opencode.Skills.Distinct.{distinct}
use super_opencode.Skills.Reach.{Use, run, reached}

is_last-has_skill : (n : Text) (ss : List Skill) → is_last n ss ≡ true → has_skill n ss ≡ true
unfolding is_last
is_last-has_skill n [] h = cc
is_last-has_skill n (s ∷ []) h = ground arith
is_last-has_skill n (s ∷ t ∷ ss) h = ground (arith, is_last-has_skill n (t ∷ ss))

not_last :
    (s t : Skill) (ss : List Skill)
    → distinct (s ∷ t ∷ ss) ≡ true
    → is_last s.name (s ∷ t ∷ ss) ≡ false
unfolding is_last distinct
not_last s t ss d = ground (arith, d, is_last-has_skill s.name (t ∷ ss))

block_fails_iff :
    (b : Bank) (ss : List Skill)
    → b.resident ≡ ss
    → distinct ss ≡ true
    → ((context_block b).1 ≡ none) ↔ (2 ≤ length ss)
unfolding context_block resident_block render_each block_of with_catalog
block_fails_iff b [] e d = rw e (ground arith)
block_fails_iff b (s ∷ []) e d = rw e (ground arith)
block_fails_iff b (s ∷ t ∷ ss) e d = rw e (rw (not_last s t ss d) (ground arith))

-- In every run of a new bank, rendering its block for the prompt raises exactly when two or more
-- skills are resident: moving the first to the end changes the dictionary under its iterator.
pub context_block_fails_iff :
    (bb mr mt ml : ℕ) (ds : List Directory) (us : List Use)
    → let b = run us (new bb mr mt ml ds) in ((context_block b).1 ≡ none) ↔ (2 ≤ length b.resident)
context_block_fails_iff bb mr mt ml ds us =
    block_fails_iff (run us (new bb mr mt ml ds)) _ refl (reached bb mr mt ml ds us).apart

skip_failed :
    (before after : List (Option Text))
    → rendered_blocks (before ++ none ∷ after) ≡ rendered_blocks (before ++ after)
unfolding rendered_blocks
skip_failed [] after = refl
skip_failed (none ∷ before) after = skip_failed before after
skip_failed (some t ∷ before) after = ground (arith, skip_failed before after)

-- In every run of a new bank in which two or more skills are resident, the prompt is the one without
-- the bank: it shows neither the catalog nor a loaded skill.
pub prompt_loses_bank :
    (bb mr mt ml : ℕ) (ds : List Directory) (us : List Use) (before after : List (Option Text))
    → 2 ≤ length (run us (new bb mr mt ml ds)).resident
    → build_goal_context (before ++ (context_block (run us (new bb mr mt ml ds))).1 ∷ after)
      ≡ build_goal_context (before ++ after)
unfolding build_goal_context
prompt_loses_bank bb mr mt ml ds us before after h =
    let e = (context_block_fails_iff bb mr mt ml ds us).1 h in
    rw e (rw (skip_failed before after) refl)
