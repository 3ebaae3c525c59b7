-- ===== src/Protocols/Check.antt =====
-- supervisor/protocols/gate_rubric.py: the results of a gate's check, and the check by a command. What the
-- workspace answers, to a command and to the reading of a file, is a `Workspace`. Numbers are natural ones
-- below 10^16, so that Python shows them as floats with one zero; a quoted text is shown without escapes.
use super_opencode.Base.{
  Bool, true, false, ℕ, Bool, Option, none, some, [], ◌∷◌, ◌++◌, ◌==◌, if◌then◌else◌, is_empty,
  take_last, strip, Text, codes, show_nat, text_eq,
}
use super_opencode.Protocols.Gates.{Scalar, Check, Gate, text_or, as_int}

mutual
  -- A JSON document; the elements of an array are never read.
  pub data Json : Type 0 where
    scalar : Scalar → Json
    array : Json
    object : Fields → Json

  pub data Fields : Type 0 where
    no_fields : Fields
    field : Text → Json → Fields → Fields

-- What reading a file as JSON gives; an error is given by its text.
pub data Reading : Type 0 where
  missing : Reading
  unreadable : Text → Reading
  document : Json → Reading

-- What running a command gives: a ValueError of `shlex.split`, a timeout, an error, or the exit code
-- with the outputs.
pub data Ran : Type 0 where
  unsplit timed_out : Ran
  failed : Text → Ran
  exited : ℕ → Text → Text → Ran

pub record Workspace : Type 0 where
  pub read : Text → Reading
  pub run : Text → Ran
  pub exists : Text → Bool
  pub timeout : ℕ

pub data Measure : Type 0 where
  pass fail error : Measure

unfoldable pub measure_text : Measure → Text
measure_text pass = codes "PASS"
measure_text fail = codes "FAIL"
measure_text error = codes "ERROR"

unfoldable pub is_pass : Measure → Bool
is_pass pass = true
is_pass fail = false
is_pass error = false

-- GateEvaluation, less its timestamp
pub record GateEvaluation : Type 0 where
  pub name : Text
  pub outcome : Measure
  pub fact : Text
  pub source : Text
  pub kind : Text

-- `_error`
abbrev pub no_record : Gate → Text → Text → GateEvaluation
no_record g fact source = record {
  name = g.name;
  outcome = error;
  fact = fact;
  source = source;
  kind = codes "check";
}

-- `repr` of a text
abbrev pub quoted : Text → Text
quoted t = codes "'" ++ t ++ codes "'"

-- `check.get(key)`
unfoldable pub get_check : Text → Check → Option Scalar
get_check key [] = none
get_check key ((k, v) ∷ rest) = if text_eq k key then some v else get_check key rest

-- `str(check.get(key, "")).strip()`
abbrev pub text_at : Text → Check → Text
text_at key check = strip (text_or [] (get_check key check))

-- `int(expect)`, and 0 where that fails
unfoldable pub expected_code : Check → ℕ
expected_code check = elim (get_check (codes "expect_exit") check) [
  | none ↦ 0
  | some v ↦ elim (as_int (some v)) [ none ↦ 0 | some n ↦ n ]
]

unfoldable pub exit_fact : ℕ → ℕ → Text → Text
exit_fact code expect tail =
    codes "exit="
    ++ show_nat code
    ++ codes " (expected "
    ++ show_nat expect
    ++ codes ")"
    ++ (if is_empty tail then [] else codes "; " ++ tail)

abbrev pub or_else : Text → Text → Text
or_else s t = if is_empty s then t else s

-- The end of `_evaluate_command`; `none` is the error that it does not catch.
unfoldable pub command_result : Workspace → Gate → Text → ℕ → Ran → Option GateEvaluation
command_result ws g cmd expect unsplit = none
command_result ws g cmd expect timed_out =
    some (no_record g (codes "command timed out after " ++ show_nat ws.timeout ++ codes "s") cmd)
command_result ws g cmd expect (failed exc) =
    some (no_record g (codes "command could not run: " ++ exc) cmd)
command_result ws g cmd expect (exited code out err) = some (record {
  name = g.name;
  outcome = if code == expect then pass else fail;
  fact = exit_fact code expect (take_last 200 (strip (or_else out err)));
  source = cmd;
  kind = codes "command";
})

unfoldable pub evaluate_command : Workspace → Gate → Check → Option GateEvaluation
evaluate_command ws g check =
    let cmd = text_at (codes "cmd") check in
    if is_empty cmd
    then some (no_record g (codes "command check has no cmd") (codes "rubric"))
    else command_result ws g cmd (expected_code check) (ws.run cmd)
