-- ===== src/Analyzers/Loop/Tests.antt =====
-- LoopDetector on concrete streams of events.
use super_opencode.Base.{
  ◌≡◌, ◌≤◌, refl, false, none, List, [], ◌∷◌, arith, replicate, codes, text_eq, mem_text, strip,
}
use super_opencode.Analyzers.Loop.{Detector, new, record_tool, detect_cycle, cycle_at, follows}
use super_opencode.Analyzers.Loop.{is_constant, judge_call, note_call, add_key}
use super_opencode.Analyzers.Loop.Once.{Event, prose, tool, run, run_once, step}
use super_opencode.Analyzers.Loop.Repeats.{repeats_fire}
use super_opencode.Analyzers.Loop.Explore.{tool_keys, IsDistinct, distinct_calls_quiet}

-- the defaults of `__init__`
abbrev started : Detector
started = record {
  max_consecutive = 6;
  max_cycle_repeats = 4;
  max_tools_without_text = 25;
  window = 40;
  recent = [];
  last = none;
  consecutive = 0;
  tools_since_text = 0;
  streak_keys = [];
  fired = false;
}

abbrev survey : List Event
survey = tool (codes "read a") ∷ prose ∷ tool (codes "read b") ∷ tool (codes "grep") ∷ []

repeats_fire_example : (run started (replicate 6 (tool (codes "bash: ls")))).1 ≡ 1
repeats_fire_example = repeats_fire started (codes "bash: ls") 5 refl (omega arith)

run_once_example : (run started survey).1 ≤ 1
run_once_example = run_once started survey

survey-IsDistinct : IsDistinct (tool_keys survey)
unfolding tool_keys strip mem_text text_eq
survey-IsDistinct = (refl, (refl, (refl, tt)))

distinct_calls_quiet_example : (run (new 6 4 25 40) survey).1 ≡ 0
distinct_calls_quiet_example =
    distinct_calls_quiet 6 4 25 40 survey (omega arith) (omega arith) survey-IsDistinct

abbrev thrash : List Event
thrash =
    tool (codes "a")
    ∷ tool (codes "b")
    ∷ tool (codes "a")
    ∷ tool (codes "b")
    ∷ tool (codes "a")
    ∷ tool (codes "b")
    ∷ tool (codes "a")
    ∷ tool (codes "b")
    ∷ []

thrash_found : (run started thrash).1 ≡ 1
unfolding run step record_tool judge_call note_call add_key detect_cycle cycle_at follows
    is_constant strip mem_text text_eq
thrash_found = refl
