-- ===== src/Decision/Questions.antt =====
-- supervisor/core/decision_service.py: the questions that the client sends, and its two system
-- prompts.
use super_opencode.Base.{List, [], ◌∷◌, Text, codes}

-- One entry of `questions`; `kind` is the key `type`, and a question with two answers has no criteria.
pub record Question : Type 0 where
  pub name : Text
  pub kind : Text
  pub instructions : Text
  pub criteria : List (Text × Text)

unfoldable pub system_prompt : Text
system_prompt =
    codes
      "You are the final arbiter for a bounded supervisor decision: should this automated research run be closed? Decide from the evidence provided and return calibrated probabilities. Do not assume facts that are not stated."

unfoldable pub unblock_system_prompt : Text
unblock_system_prompt =
    codes
      "You are the final arbiter for a bounded supervisor decision: should this recovery plan cancel a BLOCKED exit and keep the run alive? Approve only when the plan audits the executor's record, identifies the real blocker, and proposes a genuinely different, executable path. Return calibrated probabilities. Do not assume facts that are not stated."

-- `_UNBLOCK_QUESTIONS`
unfoldable pub unblock_questions : List Question
unblock_questions =
    record {
      name = codes "verdict";
      kind = codes "choice";
      instructions =
          codes "Should this recovery plan cancel the BLOCKED exit and be sent to the executor?";
      criteria =
          (
            codes "feasible",
            codes
                "The plan explicitly addresses the executor record's factual errors, arbitrary decisions, or premature give-up (or explains why none apply), uses a genuinely different approach, and has concrete steps that can make the unmet target attainable.",
          )
          ∷ (
            codes "not_feasible",
            codes
                "The plan repeats the executor's claims, ignores audit findings, repeats failed approaches, lacks concrete executable steps, or cannot make the unmet target attainable.",
          )
          ∷ [];
    }
    ∷ []

-- `_CLOSE_QUESTIONS`
unfoldable pub close_questions : List Question
close_questions =
    record {
      name = codes "close_now";
      kind = codes "noul";
      instructions = codes "Should the harness close this run now?";
      criteria = [];
    }
    ∷ record {
      name = codes "terminal";
      kind = codes "noul";
      instructions =
          codes
            "Has the study reached a terminal outcome where no further agent turn can change acceptance?";
      criteria = [];
    }
    ∷ record {
      name = codes "action";
      kind = codes "choice";
      instructions = codes "What should the harness do next?";
      criteria =
          (codes "close_run", codes "Close the run now; the target is terminal or unreachable.")
          ∷ (
            codes "finish_closeout_then_close",
            codes "Allow the remaining evidence reconciliation, then close.",
          )
          ∷ (
            codes "continue_design_work",
            codes "Keep the run alive for more indicator design attempts.",
          )
          ∷ (codes "escalate_to_operator", codes "Pause and wait for a human or protocol decision.")
          ∷ [];
    }
    ∷ []

-- the questions of `decide_stagnation`
unfoldable pub stagnation_questions : List Question
stagnation_questions =
    record {
      name = codes "action";
      kind = codes "choice";
      instructions = codes "What should the supervisor do about this stagnant turn?";
      criteria =
          (
            codes "continue",
            codes "The turn was legitimate analysis or verification; no intervention.",
          )
          ∷ (codes "nudge", codes "Remind the agent to make a file change next turn.")
          ∷ (codes "strategy_change", codes "Require a different approach before continuing.")
          ∷ (codes "restart", codes "Restart the agent session; the current approach is stuck.")
          ∷ [];
    }
    ∷ []

-- the questions of `decide_protocol_violation`
unfoldable pub violation_questions : List Question
violation_questions =
    record {
      name = codes "verdict";
      kind = codes "choice";
      instructions = codes "Does the agent's output genuinely violate the protocol restrictions?";
      criteria =
          (codes "violation", codes "A restriction is actually breached.")
          ∷ (codes "no_violation", codes "The flagged text is benign or a false positive.")
          ∷ (codes "uncertain", codes "The evidence is not sufficient to decide.")
          ∷ [];
    }
    ∷ []

-- the questions of `decide_done`
unfoldable pub done_questions : List Question
done_questions =
    record {
      name = codes "verdict";
      kind = codes "choice";
      instructions = codes "Should this DONE completion proposal be accepted?";
      criteria =
          (codes "accept", codes "The evidence supports every target.")
          ∷ (codes "reject", codes "The completion claim is not supported by the evidence.")
          ∷ (codes "need_evidence", codes "More evidence is required before accepting.")
          ∷ [];
    }
    ∷ []
