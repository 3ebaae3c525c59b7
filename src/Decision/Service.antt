-- ===== src/Decision/Service.antt =====
-- supervisor/core/decision_service.py: the requests of the client and what it makes of the answers.
use super_opencode.Base.{
  ℕ, suc, Bool, Option, none, some, List, [], ◌∷◌, ◌++◌, map, leb, if◌then◌else◌, is_empty, take,
  length, Text, codes, join, split_words, show_nat, strip, rstrip,
}
use super_opencode.Decision.Questions.{
  Question, system_prompt, unblock_system_prompt, unblock_questions, close_questions,
  stagnation_questions, violation_questions, done_questions,
}
use super_opencode.Decision.Choice.{Table, ChoiceDecision, choice}
use super_opencode.Decision.Close.{CloseAnswer, CloseDecision, decide_close}

-- The payload of one request.
pub record Request : Type 0 where
  pub system : Text
  pub state : Text
  pub questions : List Question

-- The answers by question: the probabilities of a choice, empty where its block holds none, and the
-- probability of a yes. `none` is a missing or malformed answer. The block of the action of a closing
-- decision is apart: where it is missing its table is empty, and `none` are malformed probabilities.
pub record Answer : Type 0 where
  pub close_action : Option Table
  pub choices : Text → Option Table
  pub nouls : Text → Option ℕ

abbrev pub Transport : Type 0
Transport = Request → Option Answer

-- `_clip`
unfoldable pub clip : Text → ℕ → Text
clip text limit = take limit (join (codes " ") (split_words text))

-- `_bounded`
unfoldable pub bounded : Text → ℕ → Text
bounded text limit =
    let value = strip text in
    if leb (length value) limit
    then value
    else rstrip (take limit value) ++ codes "\n... (truncated)"

-- `ask`: a failure of the transport is `none`
abbrev pub ask : Transport → Text → Text → List Question → Option Answer
ask transport system state questions =
    transport (record { system = system; state = state; questions = questions })

-- `_choice` on the answer to `name`, after a failure too
abbrev pub chosen : Option Answer → Text → Option ChoiceDecision
chosen none name = none
chosen (some a) name = choice (a.choices name)

abbrev pub close_answer : Option Answer → Option CloseAnswer
close_answer none = none
close_answer (some a) = some (record {
  close_now = a.nouls (codes "close_now");
  terminal = a.nouls (codes "terminal");
  action = a.close_action;
})

-- `decide_close`
unfoldable pub ask_close : Transport → ℕ → Text → Option CloseDecision
ask_close transport threshold evidence =
    decide_close threshold (close_answer (ask transport system_prompt evidence close_questions))

unfoldable pub contradiction_questions : ℕ → List (Text × Text) → List Question
unfolding clip
contradiction_questions i [] = []
contradiction_questions i ((criterion, evidence) ∷ pairs) =
    record {
      name = codes "c" ++ show_nat i;
      kind = codes "noul";
      instructions =
          codes "Does this evidence contradict the judge's MET claim? Criterion: "
          ++ (clip criterion 240 ++ (codes ". Evidence: " ++ clip evidence 400));
      criteria = [];
    }
    ∷ contradiction_questions (suc i) pairs

-- The answer to question `i`: `none` where it is malformed.
abbrev pub contradicts : ℕ → Answer → ℕ → Option Bool
contradicts threshold a i = elim (a.nouls (codes "c" ++ show_nat i)) [
  | none ↦ none
  | some p ↦ some (leb threshold p)
]

unfoldable pub contradictions_from : ℕ → Answer → ℕ → List (Text × Text) → List (Option Bool)
contradictions_from threshold a i [] = []
contradictions_from threshold a i (p ∷ pairs) =
    contradicts threshold a i ∷ contradictions_from threshold a (suc i) pairs

-- At most ten pairs are asked about, and none is no request at all.
unfoldable pub decide_contradictions :
    Transport → ℕ → List (Text × Text) → Text → Option (List (Option Bool))
unfolding contradiction_questions contradictions_from
decide_contradictions transport threshold pairs context =
    let asked = take 10 pairs in
    if is_empty asked
    then some []
    else elim (ask transport system_prompt context (contradiction_questions 0 asked)) [
      | none ↦ none
      | some a ↦ some (contradictions_from threshold a 0 asked)
    ]

unfoldable pub decide_stagnation : Transport → ℕ → ℕ → Text → Text → Text → Option ChoiceDecision
unfolding clip
decide_stagnation transport stage stagnant_turns reason output state =
    let context =
      codes "STAGNATION EVIDENCE\n- Detector stage: "
      ++ (show_nat stage
          ++ (codes "; stagnant turns: "
              ++ (show_nat stagnant_turns
                  ++ (codes "; reason: "
                      ++ (clip reason 400
                          ++ (codes "\n- Durable state: "
                              ++ (clip state 300
                                  ++ (codes "\n- Agent last output: " ++ clip output 900)))))))) in
    chosen (ask transport system_prompt context stagnation_questions) (codes "action")

unfoldable pub decide_protocol_violation :
    Transport → List Text → Text → Text → Option ChoiceDecision
unfolding clip
decide_protocol_violation transport violations output restrictions =
    let context =
      codes "PROTOCOL VIOLATION REVIEW\n- Restrictions: "
      ++ (clip restrictions 900
          ++ (codes "\n- Flagged by the deterministic scanner: "
              ++ (clip (join (codes "; ") violations) 500
                  ++ (codes "\n- Agent output: " ++ clip output 900)))) in
    chosen (ask transport system_prompt context violation_questions) (codes "verdict")

-- A criterion of the proposal: its name, whether it is met, and its evidence.
pub record Claim : Type 0 where
  pub name : Text
  pub met : Bool
  pub evidence : Text

claim_line : Claim → Text
unfolding clip
claim_line c =
    codes "  ["
    ++ ((if c.met then codes "MET" else codes "UNMET")
        ++ (codes "] " ++ (clip c.name 180 ++ (codes " — " ++ clip c.evidence 300))))

unfoldable pub decide_done :
    Transport → Text → List Claim → List Text → Text → Option ChoiceDecision
unfolding clip claim_line
decide_done transport mandate criteria changed_files output =
    let lines = map claim_line (take 10 criteria) in
    let context =
      codes "DONE PROPOSAL REVIEW\n- Mandate: "
      ++ (clip mandate 700
          ++ (codes "\n- Criteria:\n"
              ++ ((if is_empty lines then codes "  (none)" else join (codes "\n") lines)
                  ++ (codes "\n- Changed files: "
                      ++ (clip (join (codes ", ") (take 20 changed_files)) 500
                          ++ (codes "\n- Agent last output: " ++ clip output 900)))))) in
    chosen (ask transport system_prompt context done_questions) (codes "verdict")

unfoldable pub decide_unblock_plan : Transport → Text → Text → Option ChoiceDecision
unfolding bounded
decide_unblock_plan transport plan evidence =
    let context =
      codes "BLOCKED RUN UNBLOCK PLAN REVIEW\n"
      ++ (bounded evidence 4500 ++ (codes "\n- Proposed plan:\n" ++ bounded plan 4500)) in
    chosen (ask transport unblock_system_prompt context unblock_questions) (codes "verdict")
