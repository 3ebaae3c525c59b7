-- ===== src/Skills/Queue.antt =====
-- supervisor/core/skill_bank.py: loading skills, and the requests held for the next turn.
use super_opencode.Base.{
  Bool, not, ◌||◌, Option, none, some, List, [], ◌∷◌, ◌++◌, any, drop, if◌then◌else◌, is_empty,
  keep, length, lower, mem_text, show_nat, strip, take, text_eq, Text, codes,
}
use super_opencode.Skills.{Skill, Bank}
use super_opencode.Skills.Catalog.{known_names}
use super_opencode.Skills.Evict.{evict_over_budget}

-- `d.get(name)`
unfoldable pub find_skill : Text → List Skill → Option Skill
find_skill name [] = none
find_skill name (s ∷ ss) =
    let rest = find_skill name ss in if text_eq s.name name then some s else rest

-- `name in d`
abbrev pub has_skill : Text → List Skill → Bool
has_skill name ss = any (λ (s : Skill). text_eq s.name name) ss

unfoldable pub append_found : List Skill → Option Skill → List Skill
append_found ss none = ss
append_found ss (some s) = ss ++ s ∷ []

-- `OrderedDict.move_to_end`, on a key that is there
unfoldable pub move_to_end : Text → List Skill → List Skill
unfolding append_found
move_to_end name ss =
    append_found (keep (λ (s : Skill). not (text_eq s.name name)) ss) (find_skill name ss)

-- the name that a request means
abbrev pub key_of : Text → Text
key_of raw = lower (strip raw)

-- The resident skills and the `SkillLoadResult` while `load` runs
pub record Round : Type 0 where
  pub resident : List Skill
  pub loaded : List Skill
  pub notes : List Text

unfoldable pub load_found : List Skill → Text → Option Skill → Round → Round
load_found skills name none r = record r {
  notes =
      r.notes
      ++ (codes "skill '"
          ++ name
          ++ codes "' not in bank (known: "
          ++ known_names skills
          ++ codes ")")
        ∷ [];
}
load_found skills name (some s) r =
    if has_skill name r.resident
    then record r {
      resident = move_to_end name r.resident;
      notes = r.notes ++ (codes "skill '" ++ name ++ codes "' already loaded") ∷ [];
    }
    else record r { resident = r.resident ++ s ∷ []; loaded = r.loaded ++ s ∷ [] }

-- The body of the loop of `load`
unfoldable pub load_one : List Skill → Text → Round → Round
unfolding load_found
load_one skills raw r =
    let name = key_of raw in
    if is_empty name then r else load_found skills name (find_skill name skills) r

unfoldable pub load_each : List Skill → List Text → Round → Round
load_each skills [] r = r
load_each skills (raw ∷ raws) r = load_each skills raws (load_one skills raw r)

-- The body of the loop of `queue_pending`
unfoldable pub queue_one : List Skill → Text → List Text → List Text
queue_one resident raw pending =
    let name = key_of raw in
    if is_empty name || mem_text name pending || has_skill name resident
    then pending
    else pending ++ name ∷ []

unfoldable pub queue_each : List Skill → List Text → List Text → List Text
queue_each resident [] pending = pending
queue_each resident (raw ∷ raws) pending = queue_each resident raws (queue_one resident raw pending)

-- `queue_pending`
unfoldable pub queue_pending : List Text → Bank → Bank
queue_pending names b = record b { pending = queue_each b.resident names b.pending }

-- `drain_pending`
unfoldable pub drain_pending : Bank → Bank × List Text
drain_pending b = (record b { pending = [] }, b.pending)

-- the rounds of `load` before it evicts
unfoldable pub load_round : List Text → Bank → Round
load_round requested b =
    load_each b.skills (take b.max_loads_per_turn requested)
      (record { resident = b.resident; loaded = []; notes = [] })

-- `load`
unfoldable pub load : List Text → Bank → Bank × Round
load requested b =
    let r = load_round requested b in
    let deferred = drop b.max_loads_per_turn requested in
    let held = queue_pending deferred (record b { resident = r.resident }) in
    let kept = evict_over_budget b.max_resident b.max_total_chars r.resident in
    if is_empty deferred then (record b { resident = kept }, r) else (
      record held { resident = kept },
      record r {
        notes =
            r.notes
            ++ (codes "deferred "
                ++ show_nat (length deferred)
                ++ codes " load request(s) to the next turn")
              ∷ [];
      },
    )
