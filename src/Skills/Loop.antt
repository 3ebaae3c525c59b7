-- ===== src/Skills/Loop.antt =====
-- supervisor/core/loop_base.py: the loop's use of the skill bank, with the events that it shows.
use super_opencode.Base.{
  Option, none, some, List, [], ◌∷◌, ◌++◌, contains, if◌then◌else◌, is_empty, join, map, Text,
  codes,
}
use super_opencode.Skills.{Skill, Bank}
use super_opencode.Skills.Queue.{load, drain_pending, queue_pending}

pub record SkillEvent : Type 0 where
  pub level : Text
  pub msg : Text

-- The fields `_skill_bank` and `_skill_events` of the loop
pub record SkillLoop : Type 0 where
  pub bank : Option Bank
  pub events : List SkillEvent

note_event : Text → List SkillEvent
note_event note =
    if contains (codes "not in bank") note
    then record { level = codes "warn"; msg = codes "Skill load rejected: " ++ note } ∷ []
    else if contains (codes "deferred") note
    then record { level = codes "info"; msg = codes "Skill load deferred: " ++ note } ∷ []
    else []

note_events : List Text → List SkillEvent
note_events [] = []
note_events (n ∷ ns) = note_event n ++ note_events ns

loaded_event : List Text → List SkillEvent
loaded_event [] = []
loaded_event (n ∷ ns) =
    record {
      level = codes "info";
      msg = codes "Supervisor loaded skill(s): " ++ join (codes ", ") (n ∷ ns);
    }
    ∷ []

-- `_load_and_record`
unfoldable pub load_and_record : List Text → Bank → SkillLoop → SkillLoop × List Text
unfolding note_event note_events loaded_event
load_and_record requested b l =
    let (b', r) = load requested b in
    let names = map (λ (s : Skill). s.name) r.loaded in
    (
      record { bank = some b'; events = l.events ++ loaded_event names ++ note_events r.notes },
      names,
    )

unfoldable pub fulfill_from : Option Bank → SkillLoop → SkillLoop
fulfill_from none l = l
fulfill_from (some b) l =
    let (b', pending) = drain_pending b in
    let drained : SkillLoop = record l { bank = some b' } in
    if is_empty pending then drained else (load_and_record pending b' drained).0

-- `_fulfill_pending_skills`
unfoldable pub fulfill_pending_skills : SkillLoop → SkillLoop
unfolding fulfill_from
fulfill_pending_skills l = fulfill_from l.bank l

resolve_from : Option Bank → List Text → SkillLoop → SkillLoop × List Text
resolve_from none requests l = (l, [])
resolve_from (some b) requests l =
    if is_empty requests then (l, []) else load_and_record requests b l

-- `_resolve_skill_requests`, on the requests of a verdict
unfoldable pub resolve_skill_requests : List Text → SkillLoop → SkillLoop × List Text
unfolding resolve_from
resolve_skill_requests requests l = resolve_from l.bank requests l

-- `_drain_skill_events`
unfoldable pub drain_skill_events : SkillLoop → SkillLoop × List SkillEvent
drain_skill_events l = (record l { events = [] }, l.events)

unfoldable pub defer_from : Option Bank → List Text → SkillLoop → SkillLoop
defer_from none requests l = l
defer_from (some b) requests l =
    if is_empty requests then l else record l { bank = some (queue_pending requests b) }

-- `_queue_deferred_skill_requests`, on the requests of a verdict that judges the turn again
unfoldable pub queue_deferred_skill_requests : List Text → SkillLoop → SkillLoop
unfolding defer_from
queue_deferred_skill_requests requests l = defer_from l.bank requests l
