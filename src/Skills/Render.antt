-- ===== src/Skills/Render.antt =====
-- supervisor/core/skill_bank.py and llm_supervisor.py: the block of the loaded skills, and the
-- blocks of the prompt. An iterator of an `OrderedDict` raises RuntimeError at its next key when
-- the order has changed since it began, which is `none` here.
use super_opencode.Base.{
  Bool, false, Option, none, some, List, [], ◌∷◌, ◌++◌, if◌then◌else◌, is_empty, join, strip,
  text_eq, Text, codes,
}
use super_opencode.Skills.{Skill, Bank}
use super_opencode.Skills.Catalog.{catalog_block}
use super_opencode.Skills.Queue.{move_to_end}

abbrev part_of : Skill → Text
part_of s = codes "[skill: " ++ s.name ++ codes "] " ++ s.description ++ 10 ∷ s.body

unfoldable pub is_last : Text → List Skill → Bool
is_last name [] = false
is_last name (s ∷ []) = text_eq s.name name
is_last name (s ∷ t ∷ ss) = is_last name (t ∷ ss)

add_part : Text → Option (List Text) → Option (List Text)
add_part p none = none
add_part p (some ps) = some (p ∷ ps)

-- The loop of `resident_block`: the dictionary in its order, and the keys that the iterator has
-- still to give. `move_to_end` leaves the order as it is for the last key.
unfoldable pub render_each : List Skill → List Skill → List Skill × Option (List Text)
unfolding is_last add_part
render_each order [] = (order, some [])
render_each order (s ∷ []) = (move_to_end s.name order, some (part_of s ∷ []))
render_each order (s ∷ t ∷ ss) =
    let (order', parts) = render_each order (t ∷ ss) in
    if is_last s.name order
    then (order', add_part (part_of s) parts)
    else (move_to_end s.name order, none)

unfoldable pub block_of : Option (List Text) → Option Text
block_of none = none
block_of (some parts) = some (
    codes "--- Loaded Supervisor Skills (apply their guidance) ---"
    ++ 10 ∷ join (10 ∷ 10 ∷ []) parts
    ++ 10 ∷ [])

-- `resident_block`
unfoldable pub resident_block : Bank → Bank × Option Text
unfolding block_of
resident_block b =
    let (order, parts) = render_each b.resident b.resident in
    if is_empty b.resident then (b, some []) else (record b { resident = order }, block_of parts)

unfoldable pub with_catalog : Text → Option Text → Option Text
with_catalog catalog none = none
with_catalog catalog (some resident) = some (
    if is_empty catalog
    then resident
    else if is_empty resident
    then catalog
    else catalog ++ 10 ∷ resident)

-- `context_block`
unfoldable pub context_block : Bank → Bank × Option Text
unfolding with_catalog
context_block b =
    let (b', resident) = resident_block b in (b', with_catalog (catalog_block b) resident)

unfoldable pub rendered_blocks : List (Option Text) → List Text
rendered_blocks [] = []
rendered_blocks (none ∷ ps) = rendered_blocks ps
rendered_blocks (some t ∷ ps) =
    let rest = rendered_blocks ps in if is_empty (strip t) then rest else strip t ∷ rest

-- `_build_goal_context` of the supervisor, on what its providers give
unfoldable pub build_goal_context : List (Option Text) → Text
unfolding rendered_blocks
build_goal_context providers =
    let blocks = rendered_blocks providers in
    join (10 ∷ 10 ∷ []) blocks ++ (if is_empty blocks then [] else 10 ∷ [])
