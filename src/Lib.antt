-- ===== src/Lib.antt =====
-- Models and theorems for super-opencode, a supervisor that runs coding agents on a workspace until a
-- target is met.
--
-- A run goes in turns. The agent works, a judge writes a verdict, and the supervisor decides between
-- going on, steering the agent, and ending the run. The code that takes that decision is
-- modelled here, with the store of the jobs that run it; a module's file has the path of its name.
--   * Analyzers: the detectors of repetition. Analyzers.Loop is LoopDetector, over the tool calls of
--     one turn, and Analyzers.CrossTurn is CrossTurnLoopDetector, over the outputs of turns, both of
--     supervisor/analyzers/loop_detector.py, whose normalisation of outputs is Analyzers.Turn.
--     Analyzers.Stagnation is WorkspaceStagnationDetector (supervisor/analyzers/
--     stagnation_detector.py): turns that leave the workspace unchanged.
--   * Goal: what the run has attained. Goal.Criterion and Goal.Progress are goal_progress.py,
--     Goal.Direction and Goal.Target are target_state.py, and Goal.Evidence, Goal.Guard,
--     Goal.Guard.Turn and Goal.Guard.Rubric are goal_guard.py, which calls the stagnation detector, the
--     target state, the gate facts, the gate rubric and the decision client, all in supervisor/core.
--   * Protocols: Protocols.Gates and Protocols.Feasibility are supervisor/protocols/
--     feasibility_gate.py, the reading of a facts file and its verdict. The other modules are
--     gate_rubric.py beside it: Protocols.Check, Protocols.Metric and Protocols.Rubric evaluate the
--     machine's checks of the gates, Protocols.Rubric.Violations checks a verdict against them, and
--     Protocols.Harvest and Protocols.Refs are apply_harvest and validate_refs: how the outcomes of a
--     run change the gates, and the check of the gates against the target.
--   * Decision: the client of the decision service, supervisor/core/decision_service.py. Questions
--     holds the constant requests, Service the functions that ask, Choice and Close the evaluation
--     of an answer.
--   * Monitoring: Monitoring.Tokens is supervisor/monitoring/token_estimator.py and Monitoring.Session
--     is session_tracker.py beside it.
--   * Jobs: the background jobs of services/jobs. Jobs.States is job_states.py, and Jobs.Outcome,
--     Jobs.Slots, Jobs.Store and Jobs.Worker are job_manager.py: the final state of a log, the slots
--     that limit the workers, the records of the jobs with the operations on them, which are kept by
--     state_store.py, and the steps of a worker. Jobs.Sidecar and Jobs.Logs are the other files of
--     state_store.py, Jobs.Recorder is event_recorder.py, which writes large events to the sidecar,
--     and Jobs.Client is store_client.py. Jobs.Daemon is worker_service.py, where the client, the
--     daemon and the workers are composed to one system with its reachable states.
--   * Skills: supervisor/core/skill_bank.py, the skills that the judge may load. Skills discovers them,
--     Skills.Catalog lists them, Skills.Queue loads them and holds further requests, Skills.Evict
--     drops the least recently used, and Skills.Render builds the blocks of the prompt, up to the
--     assembly of the blocks in supervisor/core/llm_supervisor.py. Skills.Loop is the loop's use of the
--     bank in supervisor/core/loop_base.py.
--   * Utils.Excerpt is head_tail_excerpt of supervisor/utils/text_utils.py. Base has the lists, the
--     texts and the Boolean tests that all share.
--
-- An object is a record of its fields and a method a function from the old record to the new one with
-- the result. A text is the list of its code points. What the code reads from outside is a parameter:
-- the tokeniser, the clock, the transport of the decision client, and, in the record `World`, what the
-- rubric, the facts file, the test runner and the arbiter answer during one call of the guard. What
-- commands and files of the workspace answer to the rubric is the record `Workspace`.
--
-- What differs from the source: fractions and probabilities are whole percentages, where the source
-- has floats; letters with case, digits and spaces are those of ASCII, and word characters those of
-- ASCII and the CJK range that the source names; a value of a facts file is a JSON scalar, and an
-- object is the record of the keys that are read; negative settings, which the source cuts off at
-- zero or never passes, are not represented. Loops are recursion on the list they go over; the loop of
-- tail_logs alone takes fuel, the length of the file and one more, of which no run is short.
-- The operations of the job manager are steps, and interleavings are sequences of steps. Where the
-- source holds no lock between a check and the write that follows it, Jobs.Daemon and
-- Jobs.Worker.Cancelled also have that write as a step of its own: a worker's writes of RUNNING and of a
-- final state, and the writes of CANCELLED by the manager and by the client.
--
-- Not modelled: log lines, file access and its failures, the HTTP calls, the child processes of the
-- agents, the web pages, the scanner of sources and the tool servers, which do input and output; the
-- loop that calls all of this, but for its use of the skills, with the prompts of the judge and the
-- reading of its replies.
pub mod Base
pub mod Analyzers
pub mod Monitoring
pub mod Skills
pub mod Utils
pub mod Protocols
pub mod Decision
pub mod Goal
pub mod Jobs
