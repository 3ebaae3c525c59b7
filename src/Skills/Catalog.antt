-- ===== src/Skills/Catalog.antt =====
-- supervisor/core/skill_bank.py: the catalog that every prompt shows, and the names in order.
use super_opencode.Base.{
  ℕ, suc, ◌+◌, ◌-◌, Bool, true, false, ◌&&◌, ◌||◌, List, [], ◌∷◌, ◌++◌, length, map, take,
  if◌then◌else◌, is_empty, leb, ltb, ◌==◌, join, show_nat, Text, codes,
}
use super_opencode.Skills.{Skill, Bank}

abbrev pub catalog_max_entries : ℕ
catalog_max_entries = 12

abbrev pub catalog_char_budget : ℕ
catalog_char_budget = 2000

abbrev pub known_names_shown : ℕ
known_names_shown = 8

-- `s < t` on texts
text_less : Text → Text → Bool
text_less s [] = false
text_less [] (d ∷ t) = true
text_less (c ∷ s) (d ∷ t) = ltb c d || (c == d && text_less s t)

insert : Skill → List Skill → List Skill
insert s [] = s ∷ []
insert s (t ∷ ts) =
    let rest = insert s ts in if text_less s.name t.name then s ∷ t ∷ ts else t ∷ rest

-- `skills`: by name
unfoldable pub sorted_skills : List Skill → List Skill
unfolding text_less insert
sorted_skills [] = []
sorted_skills (s ∷ ss) = insert s (sorted_skills ss)

-- `_known_names`
unfoldable pub known_names : List Skill → Text
known_names skills =
    join (codes ", ") (take known_names_shown (map (λ (s : Skill). s.name) (sorted_skills skills)))
    ++ (if ltb known_names_shown (length skills) then codes "..." else [])

abbrev pub entry_of : Skill → Text
entry_of s = codes "- " ++ s.name ++ codes ": " ++ s.description

-- The loop of `catalog_block`: `listed` counts the entries shown. It gives them and the number of
-- those hidden.
unfoldable pub list_entries : ℕ → ℕ → List Skill → List Text × ℕ
list_entries listed budget [] = ([], 0)
list_entries listed budget (s ∷ ss) =
    let entry = entry_of s in
    let (skipped, more) = list_entries listed budget ss in
    let (entries, hidden) = list_entries (suc listed) (budget - (length entry + 1)) ss in
    if leb catalog_max_entries listed || ltb budget (length entry)
    then (skipped, suc more)
    else (entry ∷ entries, hidden)

-- `catalog_block`
unfoldable pub catalog_block : Bank → Text
catalog_block b =
    let (entries, hidden) = list_entries 0 catalog_char_budget (sorted_skills b.skills) in
    if is_empty b.skills
    then []
    else join (10 ∷ []) (
        (codes "--- Supervisor Skills (bank) ---"
          ∷ codes "Optional know-how you may load into your context before judging:"
          ∷ [])
        ++ entries
        ++ (if hidden == 0
            then []
            else (codes "(+" ++ show_nat hidden ++ codes " more not listed)") ∷ [])
        ++ (codes
              "Load only skills relevant to the current judgement — do not load them all. To load one, add a line `LOAD_SKILL: <name>` to your verdict; it stays in your context for the rest of the run."
            ∷ []))
      ++ (10 ∷ [])
