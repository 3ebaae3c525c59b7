-- ===== src/Skills/Caps.antt =====
-- supervisor/core/skill_bank.py: the caps on the resident skills.
use super_opencode.Base.{
  ◌≡◌, refl, ◌≤◌, arith, ℕ, ◌+◌, max, true, List, [], ◌∷◌, all, is_empty, length, drop, Text,
  Bool-cases, inl, inr,
}
use super_opencode.Skills.{Skill, Bank, Directory, new, is_short, truncation_note}
use super_opencode.Skills.Evict.{total_chars, fits}
use super_opencode.Skills.Queue.{load, queue_pending, drain_pending}
use super_opencode.Skills.Render.{resident_block, context_block}
use super_opencode.Skills.Reach.{
  Use, load_use, queue_use, drain_use, show_use, step, run, IsSound, reached,
}

-- the caps that no operation changes
record IsCapped (n c : ℕ) (b : Bank) : Type 0 where
  count : b.max_resident ≡ n
  chars : b.max_total_chars ≡ c

module _ (n c : ℕ) where
  load-IsCapped :
      (requested : List Text) (b : Bank) → IsCapped n c b → IsCapped n c (load requested b).0
  unfolding load queue_pending
  load-IsCapped requested b i = elim (Bool-cases (is_empty (drop b.max_loads_per_turn requested))) [
    | inl e ↦ rw e (record { count = i.count; chars = i.chars })
    | inr e ↦ rw e (record { count = i.count; chars = i.chars })
  ]

  show-IsCapped : (b : Bank) → IsCapped n c b → IsCapped n c (context_block b).0
  unfolding context_block resident_block
  show-IsCapped b i = elim (Bool-cases (is_empty b.resident)) [
    | inl e ↦ rw e i
    | inr e ↦ rw e (record { count = i.count; chars = i.chars })
  ]

  run-IsCapped : (us : List Use) (b : Bank) → IsCapped n c b → IsCapped n c (run us b)
  unfolding run step queue_pending drain_pending
  run-IsCapped [] b i = i
  run-IsCapped (load_use requested ∷ us) b i = run-IsCapped us _ (load-IsCapped requested b i)
  run-IsCapped (queue_use names ∷ us) b i =
      run-IsCapped us _ (record { count = i.count; chars = i.chars })
  run-IsCapped (drain_use ∷ us) b i =
      run-IsCapped us _ (record { count = i.count; chars = i.chars })
  run-IsCapped (show_use ∷ us) b i = run-IsCapped us _ (show-IsCapped b i)

short_total :
    (budget : ℕ) (ss : List Skill)
    → all (is_short budget) ss ≡ true
    → length ss ≤ 1
    → total_chars ss ≤ budget + length truncation_note
unfolding total_chars
short_total budget [] a h = omega arith
short_total budget (s ∷ []) a h = ground (arith, a)
short_total budget (s ∷ t ∷ ss) a h = omega (arith, h)

within_caps :
    (b : Bank)
    → IsSound b
    → (length b.resident ≤ b.max_resident)
      × (total_chars b.resident ≤ b.max_total_chars + length truncation_note)
unfolding fits
within_caps b i = (
  ground (arith, i.within),
  ground (arith, i.within, i.budget, short_total b.body_budget b.resident i.short),
)

-- After every run of loads, queued requests, drains and prompts from a new bank, the resident skills
-- number at most the cap, and their bodies together have at most the characters of the budget and
-- of one truncation note.
pub resident_is_bounded :
    (bb mr mt ml : ℕ) (ds : List Directory) (us : List Use)
    → let b = run us (new bb mr mt ml ds) in
      (length b.resident ≤ max 1 mr)
      × (total_chars b.resident ≤ max (max 500 bb) mt + length truncation_note)
unfolding new
resident_is_bounded bb mr mt ml ds us =
    let b = run us (new bb mr mt ml ds) in
    let (few, small) = within_caps b (reached bb mr mt ml ds us) in
    let k =
      run-IsCapped (max 1 mr) (max (max 500 bb) mt) us (new bb mr mt ml ds)
        (record { count = refl; chars = refl }) in
    (omega (arith, few, k.count), omega (arith, small, k.chars))
