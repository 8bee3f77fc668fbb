-- ===== src/Workflows/Checks.antt =====
-- What the validators of a workflow ensure of the order of its steps.
use nexa_assist.Common.{
  String, ◌≡◌, refl, true, false, ◌||◌, List, [], ◌∷◌, ◌++◌, Result, arith, contains, string_key,
  ==_iff,
}
use nexa_assist.Workflows.Definition.{
  WorkflowStep, Workflow, is_subset, difference, references, check_steps, validate_workflow,
  missing_from, unresolved_references,
}

is_subset-contains :
    (xs ys : List String) (r : String)
    → is_subset xs ys ≡ true
    → contains r xs ≡ true
    → contains r ys ≡ true
is_subset-contains [] ys r h m = absurd (ground arith)
is_subset-contains (x ∷ xs) ys r h m = ground (arith, ==_iff x r, is_subset-contains xs ys r)

is_subset-difference : (xs ys : List String) → is_subset xs ys ≡ true → difference xs ys ≡ []
is_subset-difference [] ys h = refl
is_subset-difference (x ∷ xs) ys h = ground (arith, is_subset-difference xs ys)

module _ {J : Type 0} where
  -- The identifiers of some steps.
  abbrev pub ids : List (WorkflowStep J) → List String
  ids [] = []
  ids (step ∷ steps) = step.id ∷ ids steps

  check_step-ok :
      (seen : List String) (step : WorkflowStep J) (steps : List (WorkflowStep J))
      → check_steps seen (step ∷ steps) ≡ Result.ok tt
      → (contains step.id seen ≡ false)
        × (is_subset (references step) seen ≡ true)
        × (check_steps (step.id ∷ seen) steps ≡ Result.ok tt)
  unfolding check_steps
  check_step-ok seen step steps h = ground arith

  check_steps-fresh :
      (seen : List String) (before : List (WorkflowStep J)) (step : WorkflowStep J)
      (after : List (WorkflowStep J))
      → check_steps seen (before ++ step ∷ after) ≡ Result.ok tt
      → (contains step.id seen ≡ false) × (contains step.id (ids before) ≡ false)
  check_steps-fresh seen [] step after h = ((check_step-ok seen step after h).0, refl)
  check_steps-fresh seen (s ∷ before) step after h =
      let (new, known, rest) = check_step-ok seen s (before ++ step ∷ after) h in
      ground (arith, check_steps-fresh (s.id ∷ seen) before step after rest)

  check_steps-backward :
      (seen : List String) (before : List (WorkflowStep J)) (step : WorkflowStep J)
      (after : List (WorkflowStep J)) (r : String)
      → check_steps seen (before ++ step ∷ after) ≡ Result.ok tt
      → contains r (references step) ≡ true
      → (contains r seen || contains r (ids before)) ≡ true
  check_steps-backward seen [] step after r h m =
      let (new, known, rest) = check_step-ok seen step after h in
      ground (arith, is_subset-contains (references step) seen r known m)
  check_steps-backward seen (s ∷ before) step after r h m =
      let (new, known, rest) = check_step-ok seen s (before ++ step ∷ after) h in
      ground (arith, check_steps-backward (s.id ∷ seen) before step after r rest m)

  check_steps-missing :
      (seen : List String) (steps : List (WorkflowStep J))
      → check_steps seen steps ≡ Result.ok tt
      → missing_from seen steps ≡ []
  unfolding missing_from
  check_steps-missing seen [] h = refl
  check_steps-missing seen (step ∷ steps) h =
      let (new, known, rest) = check_step-ok seen step steps h in
      rw (is_subset-difference (references step) seen known)
        (check_steps-missing (step.id ∷ seen) steps rest)

  validate_workflow-checked :
      (w w' : Workflow J)
      → validate_workflow w ≡ Result.ok w'
      → check_steps w.inputs w.steps ≡ Result.ok tt
  unfolding validate_workflow
  validate_workflow-checked w w' h = ground arith

  -- In a workflow that is accepted, a step's identifier is neither an input nor that of a step
  -- before it.
  pub validate_workflow-fresh :
      (w w' : Workflow J) (before : List (WorkflowStep J)) (step : WorkflowStep J)
      (after : List (WorkflowStep J))
      → validate_workflow w ≡ Result.ok w'
      → w.steps ≡ before ++ step ∷ after
      → (contains step.id w.inputs ≡ false) × (contains step.id (ids before) ≡ false)
  validate_workflow-fresh w w' before step after h e =
      check_steps-fresh w.inputs before step after (rw (← e) (validate_workflow-checked w w' h))

  -- In a workflow that is accepted, what a step refers to is an input or a step before it.
  pub validate_workflow-backward :
      (w w' : Workflow J) (before : List (WorkflowStep J)) (step : WorkflowStep J)
      (after : List (WorkflowStep J)) (r : String)
      → validate_workflow w ≡ Result.ok w'
      → w.steps ≡ before ++ step ∷ after
      → contains r (references step) ≡ true
      → (contains r w.inputs || contains r (ids before)) ≡ true
  validate_workflow-backward w w' before step after r h e m =
      check_steps-backward w.inputs before step after r
        (rw (← e) (validate_workflow-checked w w' h)) m

  -- A workflow that is accepted misses no reference once its declared inputs are available.
  pub unresolved_references_none :
      (w w' : Workflow J)
      → validate_workflow w ≡ Result.ok w'
      → unresolved_references w w.inputs ≡ []
  unfolding unresolved_references
  unresolved_references_none w w' h =
      check_steps-missing w.inputs w.steps (validate_workflow-checked w w' h)
