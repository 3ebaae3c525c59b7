-- ===== src/Skills/Evict.antt =====
-- supervisor/core/skill_bank.py: the eviction of the least recently used skills.
use super_opencode.Base.{
  ◌≡◌, ◌≤◌, inl, inr, arith, refl, ℕ, suc, ◌+◌, Bool, true, ◌&&◌, ◌||◌, List, [], ◌∷◌, length,
  if◌then◌else◌, leb, ltb, Bool-cases, ◌∙◌, sym,
}
use super_opencode.Skills.{Skill}

-- `sum(len(skill.body) for skill in ...)`
unfoldable pub total_chars : List Skill → ℕ
total_chars [] = 0
total_chars (s ∷ ss) = length s.body + total_chars ss

-- The first loop of `_evict_over_budget`
evict_by_count : ℕ → List Skill → List Skill
evict_by_count limit [] = []
evict_by_count limit (s ∷ ss) =
    let rest = evict_by_count limit ss in if ltb limit (suc (length ss)) then rest else s ∷ ss

-- The second loop of `_evict_over_budget`
evict_by_chars : ℕ → List Skill → List Skill
evict_by_chars limit [] = []
evict_by_chars limit (s ∷ ss) =
    let rest = evict_by_chars limit ss in
    if ltb limit (total_chars (s ∷ ss)) && ltb 1 (suc (length ss)) then rest else s ∷ ss

-- `_evict_over_budget`, from the least recently used
unfoldable pub evict_over_budget : ℕ → ℕ → List Skill → List Skill
unfolding evict_by_count evict_by_chars
evict_over_budget max_resident max_total_chars ss =
    evict_by_chars max_total_chars (evict_by_count max_resident ss)

-- within the cap of skills, and within that of characters unless it is a single one
unfoldable pub fits : ℕ → ℕ → List Skill → Bool
fits max_resident max_total_chars ss =
    leb (length ss) max_resident && (leb (total_chars ss) max_total_chars || leb (length ss) 1)

-- The longest end of the list that passes a test
unfoldable pub longest_end : (List Skill → Bool) → List Skill → List Skill
longest_end test [] = []
longest_end test (s ∷ ss) = let rest = longest_end test ss in if test (s ∷ ss) then s ∷ ss else rest

module _ (n c : ℕ) where
  count_fits : (ss : List Skill) → length ss ≤ n → evict_by_count n ss ≡ ss
  unfolding evict_by_count
  count_fits [] h = refl
  count_fits (s ∷ ss) h = ground arith

  chars_end : (ss : List Skill) → length ss ≤ n → evict_by_chars c ss ≡ longest_end (fits n c) ss
  unfolding evict_by_chars longest_end fits total_chars
  chars_end [] h = refl
  chars_end (s ∷ ss) h = ground (arith, chars_end ss)

  too_many :
      (s : Skill) (ss : List Skill)
      → ltb n (suc (length ss)) ≡ true
      → longest_end (fits n c) (s ∷ ss) ≡ longest_end (fits n c) ss
  unfolding fits longest_end
  too_many s ss h = ground (arith, h)

  -- Eviction keeps the longest end of the list of the resident skills, which is in the order of
  -- their use, that is within the cap of skills, and within that of characters unless it is a single
  -- skill: one skill may exceed the characters.
  pub evict_over_budget_lem :
      (ss : List Skill) → evict_over_budget n c ss ≡ longest_end (fits n c) ss
  unfolding evict_over_budget evict_by_count evict_by_chars longest_end
  evict_over_budget_lem [] = refl
  evict_over_budget_lem (s ∷ ss) = elim (Bool-cases (ltb n (suc (length ss)))) [
    | inl over ↦ rw over (evict_over_budget_lem ss ∙ sym (too_many s ss over))
    | inr kept ↦ rw kept (chars_end (s ∷ ss) (ground (arith, kept)))
  ]
