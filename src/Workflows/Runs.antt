-- ===== src/Workflows/Runs.antt =====
-- What a run of a workflow does, for any executor.
use nexa_assist.Common.{
  ℕ, suc, String, ◌≡◌, refl, sym, ◌∙◌, inl, inr, true, false, Option, none, some, List, [], ◌∷◌,
  ◌++◌, arith, length, length-append, string_key, Bool-cases, Option-cases, append_assoc,
  append-nil,
}
use nexa_assist.Dict.{Dict, lookup, insert}
use nexa_assist.Tools.{ToolResult, is_ok}
use nexa_assist.Workflows.References.{Value, referenced_step}
use nexa_assist.Workflows.Definition.{WorkflowStep, Workflow}
use nexa_assist.Workflows.Runner.{
  StepRecord, Progress, resolve_params, output_of, record_of, output_or, run_steps, run,
  none_failed,
}

module _ {J : Type 0} (null : Value J) where
  -- What is passed for a parameter: the value itself, or for a reference the output that the step or
  -- input of this name has by now, or null where it has none.
  pub data Passed (outputs : Dict String (Value J)) (v passed : Value J) : Type 0 where
    as_given : referenced_step v ≡ none → passed ≡ v → Passed outputs v passed
    from_output :
        (source : String)
        → referenced_step v ≡ some source
        → lookup source outputs ≡ some passed
        → Passed outputs v passed
    without_output :
        (source : String)
        → referenced_step v ≡ some source
        → lookup source outputs ≡ none
        → passed ≡ null
        → Passed outputs v passed

  -- The same for all parameters of a step, under their names and in order.
  abbrev pub AllPassed :
      Dict String (Value J) → Dict String (Value J) → Dict String (Value J) → Type 0
  AllPassed outputs [] [] = Unit
  AllPassed outputs [] (_ ∷ _) = ⊥
  AllPassed outputs (_ ∷ _) [] = ⊥
  AllPassed outputs ((key, v) ∷ params) ((name, passed) ∷ given) =
      (name ≡ key) × Passed outputs v passed × AllPassed outputs params given

  source_Passed :
      (outputs : Dict String (Value J)) (v : Value J) (source : String)
      → referenced_step v ≡ some source
      → Passed outputs v (output_of null outputs source)
  source_Passed outputs v source e = elim (Option-cases (lookup source outputs)) [
    | inl missing ↦ rw (missing, output_of) (without_output source e missing refl)
    | inr (o, there) ↦ rw (there, output_of) (from_output source e there)
  ]

  resolve_params-AllPassed :
      (params outputs : Dict String (Value J))
      → AllPassed outputs params (resolve_params null params outputs)
  unfolding resolve_params
  resolve_params-AllPassed [] outputs = tt
  resolve_params-AllPassed ((key, v) ∷ params) outputs =
      let rest = resolve_params-AllPassed params outputs in
      elim (Option-cases (referenced_step v)) [
        | inl plain ↦ rw (plain, AllPassed) (refl, as_given plain refl, rest)
        | inr (source, e) ↦ rw (e, AllPassed) (refl, source_Passed outputs v source e, rest)
      ]

  -- The record of a step tells the step, its tool, and the outcome and error of the tool's result.
  abbrev pub Records : WorkflowStep J → ToolResult (Value J) → StepRecord → Type 0
  Records step result r =
      (r.id ≡ step.id)
      × (r.tool ≡ step.tool)
      × (r.outcome ≡ result.outcome)
      × (r.error ≡ result.error)

  -- The output of a result, or null without one.
  pub data Output (result : ToolResult (Value J)) (o : Value J) : Type 0 where
    given : result.output ≡ some o → Output result o
    absent : result.output ≡ none → o ≡ null → Output result o

  output_or-Output : (result : ToolResult (Value J)) → Output result (output_or null result)
  output_or-Output result = elim (Option-cases result.output) [
    | inl nothing ↦ absent nothing (ground arith)
    | inr (o, e) ↦ given (ground arith)
  ]

  module _ (execute : ℕ → String → Dict String (Value J) → ToolResult (Value J)) where
    -- From some point of a run on, after n calls of the executor and with these outputs: the steps are
    -- called in order; the output of a step that succeeds is kept under its name; a failed step is passed
    -- over if it is optional and otherwise ends the run, which names it.
    pub data Runs (last : Dict String (Value J))
        : ℕ
          → Dict String (Value J)
          → List (WorkflowStep J)
          → List StepRecord
          → Option String
          → Type 0 where
      finished :
          {n : ℕ} {outputs : Dict String (Value J)}
          → last ≡ outputs
          → Runs last n outputs [] [] none
      kept :
          {n : ℕ} {outputs : Dict String (Value J)} {step : WorkflowStep J}
          {steps : List (WorkflowStep J)} {r : StepRecord} {rs : List StepRecord}
          {f : Option String} (params : Dict String (Value J)) (o : Value J)
          → AllPassed outputs step.params params
          → Records step (execute n step.tool params) r
          → is_ok (execute n step.tool params) ≡ true
          → Output (execute n step.tool params) o
          → Runs last (suc n) (insert step.id o outputs) steps rs f
          → Runs last n outputs (step ∷ steps) (r ∷ rs) f
      passed_over :
          {n : ℕ} {outputs : Dict String (Value J)} {step : WorkflowStep J}
          {steps : List (WorkflowStep J)} {r : StepRecord} {rs : List StepRecord}
          {f : Option String} (params : Dict String (Value J))
          → AllPassed outputs step.params params
          → Records step (execute n step.tool params) r
          → is_ok (execute n step.tool params) ≡ false
          → step.optional ≡ true
          → Runs last (suc n) outputs steps rs f
          → Runs last n outputs (step ∷ steps) (r ∷ rs) f
      stopped :
          {n : ℕ} {outputs : Dict String (Value J)} {step : WorkflowStep J}
          {steps : List (WorkflowStep J)} {r : StepRecord} (params : Dict String (Value J))
          → AllPassed outputs step.params params
          → Records step (execute n step.tool params) r
          → is_ok (execute n step.tool params) ≡ false
          → step.optional ≡ false
          → last ≡ outputs
          → Runs last n outputs (step ∷ steps) (r ∷ []) (some step.id)

    -- What the loop adds to the records, from some point of a run on.
    record Continues (records : List StepRecord) (n : ℕ) (outputs : Dict String (Value J))
        (steps : List (WorkflowStep J)) (p : Progress J) : Type 0 where
      pub added : List StepRecord
      pub extended : p.records ≡ records ++ added
      pub runs : Runs p.outputs n outputs steps added p.failed_step

    run_steps-Continues :
        (records : List StepRecord) (n : ℕ) (outputs : Dict String (Value J))
        (steps : List (WorkflowStep J))
        → length records ≡ n
        → Continues records n outputs steps (run_steps null execute records outputs steps)
    unfolding run_steps
    run_steps-Continues records n outputs [] e = record {
      added = [];
      extended = sym (append-nil records);
      runs = finished refl;
    }
    run_steps-Continues records n outputs (step ∷ steps) e =
        let params = resolve_params null step.params outputs in
        let r = execute n step.tool params in
        let x = record_of step r in
        let one_more : length (records ++ x ∷ []) ≡ suc n =
          omega (arith, length-append records (x ∷ []), e) in
        let passed = resolve_params-AllPassed step.params outputs in
        rw (e) (elim (Bool-cases (is_ok r)) [
          | inl good ↦
              let o = output_or null r in
              let rest =
                run_steps-Continues (records ++ x ∷ []) (suc n) (insert step.id o outputs) steps
                  one_more in
              rw (good) (record {
                added = x ∷ rest.added;
                extended = rest.extended ∙ append_assoc records (x ∷ []) rest.added;
                runs =
                    kept params o passed (refl, refl, refl, refl) good (output_or-Output r)
                      rest.runs;
              })
          | inr bad ↦ elim (Bool-cases step.optional) [
            | inl spare ↦
                let rest = run_steps-Continues (records ++ x ∷ []) (suc n) outputs steps one_more in
                simp (bad) (
                  simp (spare) (record {
                    added = x ∷ rest.added;
                    extended = rest.extended ∙ append_assoc records (x ∷ []) rest.added;
                    runs = passed_over params passed (refl, refl, refl, refl) bad spare rest.runs;
                  }))
            | inr needed ↦ simp (bad) (
                simp (needed) (record {
                  added = x ∷ [];
                  extended = refl;
                  runs = stopped params passed (refl, refl, refl, refl) bad needed refl;
                }))
          ]
        ])

    -- A run calls the steps in order, each with its parameters, in which a reference stands for the
    -- output that the step or input of its name has by then, or null; it reports for each call one record
    -- with the outcome and the error of the tool's result, and keeps the output of a step that succeeded
    -- under its name, over the inputs. It carries on past a failed step that is optional, and stops at
    -- the first other one, which it names; it is completed exactly when there is none.
    pub run-Runs :
        (w : Workflow J) (inputs : Dict String (Value J))
        → let (summary, outputs) = run null execute w inputs in
          Runs outputs 0 inputs w.steps summary.steps summary.failed_step
          × (summary.completed ≡ none_failed summary.failed_step)
    unfolding run
    run-Runs w inputs =
        let whole = run_steps-Continues [] 0 inputs w.steps refl in
        (rw (whole.extended) whole.runs, refl)
