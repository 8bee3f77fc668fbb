-- ===== src/Evaluation/Runner.antt =====
-- backend/app/evaluation/runner.py: `EvaluationRunner`. What the target does with the inputs of a case
-- is a parameter: an output, no end within the time limit, or an exception.
use nexa_assist.Common.{String, Option, none, some, List, [], ◌∷◌, Result, ok, ◌>>◌, raise_if}
use nexa_assist.Evaluation.{
  EvalCase, EvalSuite, EvaluationFault, definition, CheckResult, errored, CaseResult, EvalReport,
  is_empty,
}
use nexa_assist.Evaluation.Checks.{Check}

pub data TargetOutcome (O : Type 0) : Type 0 where
  produced : O → TargetOutcome O
  timed_out raised : TargetOutcome O

abbrev pub target_failed : String
target_failed = "The target failed to produce an output."

abbrev pub check_errored : String
check_errored = "The check itself raised."

-- The runner, with the text that names its time limit.
pub record EvaluationRunner (I V O : Type 0) : Type 0 where
  pub target : I → TargetOutcome O
  pub checks : List (Check I V O)
  pub late : String

-- A check that raises gives a result of its own.
abbrev pub checked : String → Option CheckResult → CheckResult
checked name (some result) = result
checked name none = record { check = name; outcome = errored; detail = some check_errored }

-- `_errored`
abbrev pub errored_case : {I V : Type 0} → EvalCase I V → String → CaseResult
errored_case case message = record { case_id = case.id; checks = []; error = some message }

module _ {I V O : Type 0} where
  -- `__init__`
  unfoldable pub new_runner :
      (I → TargetOutcome O)
      → List (Check I V O)
      → String
      → Result EvaluationFault (EvaluationRunner I V O)
  new_runner target checks late = do
    raise_if (is_empty checks) definition
    ok (record { target = target; checks = checks; late = late })

  -- `_check`
  abbrev pub apply_check : EvalCase I V → O → Check I V O → CheckResult
  apply_check case output check = checked check.name (check.evaluate case output)

  abbrev pub apply_all : EvalCase I V → O → List (Check I V O) → List CheckResult
  apply_all case output [] = []
  apply_all case output (check ∷ checks) =
      apply_check case output check ∷ apply_all case output checks

  -- What `_run_case` makes of the target's outcome.
  abbrev pub result_of : EvaluationRunner I V O → EvalCase I V → TargetOutcome O → CaseResult
  result_of runner case timed_out = errored_case case runner.late
  result_of runner case raised = errored_case case target_failed
  result_of runner case (produced output) = record {
    case_id = case.id;
    checks = apply_all case output runner.checks;
    error = none;
  }

  -- `_run_case`
  unfoldable pub run_case : EvaluationRunner I V O → EvalCase I V → CaseResult
  run_case runner case = result_of runner case (runner.target case.inputs)

  abbrev pub run_cases : EvaluationRunner I V O → List (EvalCase I V) → List CaseResult
  run_cases runner [] = []
  run_cases runner (case ∷ cases) = run_case runner case ∷ run_cases runner cases

  unfoldable pub run : EvaluationRunner I V O → EvalSuite I V → EvalReport
  run runner suite = record { suite = suite.name; results = run_cases runner suite.cases }
