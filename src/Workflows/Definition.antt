-- ===== src/Workflows/Definition.antt =====
-- backend/app/workflows/definition.py: workflows and what their validators refuse.
use nexa_assist.Common.{
  ℕ, String, Bool, true, false, not, none, some, List, [], ◌∷◌, ◌++◌, map, Result, ◌>>◌, raise_if,
  length, leb, ltb, contains, string_key, if◌then◌else◌,
}
use nexa_assist.Dict.{Dict}
use nexa_assist.Names.{codes, is_empty}
use nexa_assist.Workflows.References.{Value, referenced_step, is_name}

abbrev pub max_steps : ℕ
max_steps = 20

pub record WorkflowStep (J : Type 0) : Type 0 where
  pub id : String
  pub tool : String
  pub params : Dict String (Value J)
  pub optional : Bool

pub record Workflow (J : Type 0) : Type 0 where
  pub name : String
  pub description : String
  pub inputs : List String
  pub steps : List (WorkflowStep J)

pub data WorkflowFault : Type 0 where
  bad_step_id bad_tool bad_name bad_input bad_description bad_length duplicate unknown :
      WorkflowFault

-- `set(xs) - set(ys)` is empty.
abbrev pub is_subset : List String → List String → Bool
is_subset [] ys = true
is_subset (x ∷ xs) ys = if contains x ys then is_subset xs ys else false

-- The entries of `xs` that are not in `ys`.
abbrev pub difference : List String → List String → List String
difference [] ys = []
difference (x ∷ xs) ys = let rest = difference xs ys in if contains x ys then rest else x ∷ rest

abbrev pub all_names : List String → Bool
all_names [] = true
all_names (name ∷ names) = if is_name name then all_names names else false

module _ {J : Type 0} where
  abbrev pub references_of : Dict String (Value J) → List String
  references_of [] = []
  references_of ((key, v) ∷ params) = elim (referenced_step v) [
    | none ↦ references_of params
    | some id ↦ id ∷ references_of params
  ]

  -- The set as a list, which may name a step twice.
  abbrev pub references : WorkflowStep J → List String
  references step = references_of step.params

  unfoldable pub validate_names : WorkflowStep J → Result WorkflowFault (WorkflowStep J)
  validate_names step = do
    raise_if (not (is_name step.id)) bad_step_id
    raise_if (not (is_name step.tool)) bad_tool
    Result.ok step

  -- The loop over the steps, with `seen`.
  unfoldable pub check_steps : List String → List (WorkflowStep J) → Result WorkflowFault (Unit {0})
  check_steps seen [] = Result.ok tt
  check_steps seen (step ∷ steps) = do
    raise_if (contains step.id seen) duplicate
    raise_if (not (is_subset (references step) seen)) unknown
    check_steps (step.id ∷ seen) steps

  -- `Workflow._validate`, after the bounds of the fields
  unfoldable pub validate_workflow : Workflow J → Result WorkflowFault (Workflow J)
  unfolding check_steps
  validate_workflow w = do
    raise_if (is_empty (codes w.description)) bad_description
    raise_if (not (leb 1 (length w.steps))) bad_length
    raise_if (ltb max_steps (length w.steps)) bad_length
    raise_if (not (is_name w.name)) bad_name
    raise_if (not (all_names w.inputs)) bad_input
    check_steps w.inputs w.steps
    Result.ok w

  abbrev pub step_ids : Workflow J → List String
  step_ids w = map (λ (step : WorkflowStep J). step.id) w.steps

  -- The loop of `unresolved_references` (execution.py), with `produced`.
  unfoldable pub missing_from : List String → List (WorkflowStep J) → List String
  missing_from produced [] = []
  missing_from produced (step ∷ steps) =
      difference (references step) produced ++ missing_from (step.id ∷ produced) steps

  unfoldable pub unresolved_references : Workflow J → List String → List String
  unfolding missing_from
  unresolved_references w available = missing_from available w.steps
