-- ===== src/Workflows/Tests.antt =====
-- Tests of workflows, and their theorems at a concrete one.
use nexa_assist.Common.{
  ℕ, ◌≡◌, refl, String, true, false, none, [], ◌∷◌, Result, contains, string_key, if◌then◌else◌,
  nat_eq,
}
use nexa_assist.Dict.{Dict, lookup}
use nexa_assist.Names.{allowed}
use nexa_assist.Text.{drop_spaces}
use nexa_assist.Tools.{ToolOutcome, ToolResult, success, failure}
use nexa_assist.Workflows.References.{
  Value, text, other, strip_prefix, span_name, is_name, reference, referenced_step,
}
use nexa_assist.Workflows.Definition.{
  WorkflowStep, Workflow, references, check_steps, validate_workflow,
}
use nexa_assist.Workflows.Runner.{resolve_params, run_steps, run, none_failed}
use nexa_assist.Workflows.Runs.{Runs, run-Runs}

abbrev find_order : WorkflowStep ℕ
find_order = record {
  id = "order";
  tool = "find_order";
  params = ("email", text "{{ steps.email.output }}") ∷ [];
  optional = false;
}

abbrev track : WorkflowStep ℕ
track = record {
  id = "track";
  tool = "track";
  params = ("order", text "{{steps.order.output}}") ∷ ("depth", other 2) ∷ [];
  optional = true;
}

abbrev shipping : Workflow ℕ
shipping = record {
  name = "shipping";
  description = "Where an order is.";
  inputs = "email" ∷ [];
  steps = find_order ∷ track ∷ [];
}

abbrev inputs : Dict String (Value ℕ)
inputs = ("email", text "a@b.c") ∷ []

-- The first call succeeds, later ones fail.
abbrev execute : ℕ → String → Dict String (Value ℕ) → ToolResult (Value ℕ)
execute n tool params =
    if nat_eq n 0 then success tool (other 7) else failure tool ToolOutcome.timeout "Too slow." true

accepted : validate_workflow shipping ≡ Result.ok shipping
unfolding validate_workflow check_steps is_name span_name referenced_step reference strip_prefix
    drop_spaces allowed
accepted = refl

resolved :
    resolve_params (other 0) track.params (("order", other 7) ∷ [])
    ≡ ("order", other 7) ∷ ("depth", other 2) ∷ []
unfolding resolve_params lookup referenced_step reference strip_prefix drop_spaces span_name allowed
resolved = refl

passed_over : (run (other 0) execute shipping inputs).0.failed_step ≡ none
unfolding run run_steps
passed_over = refl

-- `$` stops before a newline at the end.
trailing_newline : is_name "order\n" ≡ true
unfolding is_name span_name allowed
trailing_newline = refl

refers : contains "order" (references track) ≡ true
unfolding referenced_step reference strip_prefix drop_spaces span_name allowed
refers = refl

run-Runs_example :
    let (summary, outputs) = run (other 0) execute shipping inputs in
    Runs (other 0) execute outputs 0 inputs shipping.steps summary.steps summary.failed_step
    × (summary.completed ≡ none_failed summary.failed_step)
run-Runs_example = run-Runs (other 0) execute shipping inputs
