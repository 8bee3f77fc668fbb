-- ===== src/Workflows/Runner.antt =====
-- backend/app/workflows/execution.py: `WorkflowRunner`. The tool executor is a parameter: a function
-- of the calls made before, the tool and its parameters. `None`, which a reference to a step
-- without output resolves to, is a parameter of the value type. Identifiers of runs, durations and
-- log lines are left out.
use nexa_assist.Common.{
  ℕ, String, Bool, true, false, Option, none, some, List, [], ◌∷◌, ◌++◌, length, string_key,
  if◌then◌else◌,
}
use nexa_assist.Dict.{Dict, lookup, insert}
use nexa_assist.Tools.{ToolOutcome, ToolResult, is_ok}
use nexa_assist.Workflows.References.{Value, referenced_step}
use nexa_assist.Workflows.Definition.{WorkflowStep, Workflow}

-- `skipped` is never set.
pub record StepRecord : Type 0 where
  pub id : String
  pub tool : String
  pub outcome : ToolOutcome
  pub error : Option String

pub record WorkflowRun : Type 0 where
  pub workflow : String
  pub completed : Bool
  pub steps : List StepRecord
  pub failed_step : Option String

-- The variables of the loop of `run`.
pub record Progress (J : Type 0) : Type 0 where
  pub records : List StepRecord
  pub outputs : Dict String (Value J)
  pub failed_step : Option String

abbrev pub none_failed : Option String → Bool
none_failed none = true
none_failed (some id) = false

module _ {J : Type 0} where
  -- outputs.get(source)
  abbrev pub output_of : Value J → Dict String (Value J) → String → Value J
  output_of null outputs source = elim (lookup source outputs) [ none ↦ null | some v ↦ v ]

  unfoldable pub resolve_params :
      Value J → Dict String (Value J) → Dict String (Value J) → Dict String (Value J)
  resolve_params null [] outputs = []
  resolve_params null ((key, v) ∷ params) outputs =
      let rest = resolve_params null params outputs in
      elim (referenced_step v) [
        | none ↦ (key, v) ∷ rest
        | some source ↦ (key, output_of null outputs source) ∷ rest
      ]

  abbrev pub record_of : WorkflowStep J → ToolResult (Value J) → StepRecord
  record_of step r = record { id = step.id; tool = step.tool; outcome = r.outcome; error = r.error }

  -- result.output, which a result of `success` has
  abbrev pub output_or : Value J → ToolResult (Value J) → Value J
  output_or null r = elim r.output [ none ↦ null | some v ↦ v ]

  -- `_finish`
  abbrev pub summary : Workflow J → Progress J → WorkflowRun
  summary w p = record {
    workflow = w.name;
    completed = none_failed p.failed_step;
    steps = p.records;
    failed_step = p.failed_step;
  }

module _ {J : Type 0} (null : Value J)
    (execute : ℕ → String → Dict String (Value J) → ToolResult (Value J)) where
  -- The `for` loop of `run`; the number of records tells the calls of a run apart.
  unfoldable pub run_steps :
      List StepRecord → Dict String (Value J) → List (WorkflowStep J) → Progress J
  unfolding resolve_params
  run_steps records outputs [] = record { records = records; outputs = outputs; failed_step = none }
  run_steps records outputs (step ∷ steps) =
      let r = execute (length records) step.tool (resolve_params null step.params outputs) in
      let records' = records ++ record_of step r ∷ [] in
      let stopped : Progress J = record {
        records = records';
        outputs = outputs;
        failed_step = some step.id;
      } in
      let kept = run_steps records' (insert step.id (output_or null r) outputs) steps in
      let passed = run_steps records' outputs steps in
      if is_ok r then kept else if step.optional then passed else stopped

  unfoldable pub run : Workflow J → Dict String (Value J) → WorkflowRun × Dict String (Value J)
  unfolding run_steps
  run w inputs = let p = run_steps [] inputs w.steps in (summary w p, p.outputs)
