-- ===== src/Evaluation/Reports.antt =====
-- A report has a verdict on every case, and tells the ways to fail apart.
use nexa_assist.Common.{
  ◌+◌, String, ◌≡◌, ◌≢◌, refl, true, false, Bool, ◌&&◌, Option-cases, inl, inr, none, some, List,
  [], ◌∷◌, ok, arith, length, string_key,
}
use nexa_assist.Evaluation.{
  EvalCase, CheckResult, passed, errored, EvalSuite, CaseResult, all_ok, case_passed, EvalReport,
  total, report_passed, report_failed, count_passed, failing_among, failing,
}
use nexa_assist.Evaluation.Checks.{Check}
use nexa_assist.Evaluation.Runner.{
  target_failed, TargetOutcome, produced, timed_out, raised, EvaluationRunner, new_runner,
  check_errored, apply_check, apply_all, run_case, result_of, run_cases, run,
}

count_passed-failing :
    (results : List CaseResult)
    → count_passed results + length (failing_among results) ≡ length results
unfolding failing_among
count_passed-failing [] = omega arith
count_passed-failing (r ∷ results) = ground (arith, count_passed-failing results)

-- The cases of a report that passed and those that are listed as failing are all of its cases.
pub report_failed-failing :
    (report : EvalReport)
    → (report_failed report ≡ length (failing report))
      × (report_passed report + report_failed report ≡ total report)
unfolding report_failed report_passed total failing
report_failed-failing report =
    let split = count_passed-failing report.results in (omega (arith, split), omega (arith, split))

module _ {I V O : Type 0} (runner : EvaluationRunner I V O) where
  -- What stands in a report for a check of an output: what the check says, or that it errored.
  pub data Verdict (case : EvalCase I V) (o : O) (c : Check I V O) (r : CheckResult) : Type 0 where
    as_said : c.evaluate case o ≡ some r → Verdict case o c r
    check_raised :
        (message : String)
        → c.evaluate case o ≡ none
        → r.check ≡ c.name
        → r.outcome ≡ errored
        → r.detail ≡ some message
        → Verdict case o c r

  -- One for each check, in order.
  abbrev pub Verdicts : EvalCase I V → O → List (Check I V O) → List CheckResult → Type 0
  Verdicts case o [] [] = Unit
  Verdicts case o [] (_ ∷ _) = ⊥
  Verdicts case o (_ ∷ _) [] = ⊥
  Verdicts case o (c ∷ checks) (r ∷ results) = Verdict case o c r × Verdicts case o checks results

  -- Every check has passed.
  abbrev pub all_passed : List CheckResult → Bool
  all_passed [] = true
  all_passed (r ∷ results) = elim r.outcome [ passed ↦ true | _ ↦ false ] && all_passed results

  -- What a result says of its case.
  pub data Judged (case : EvalCase I V) (r : CaseResult) : Type 0 where
    -- no output: an error, and no check
    no_output :
        (message : String)
        → ((o : O) → runner.target case.inputs ≡ produced o → ⊥)
        → r.error ≡ some message
        → r.checks ≡ []
        → case_passed r ≡ false
        → Judged case r
    -- an output, and what every check says of it
    judged :
        (o : O)
        → runner.target case.inputs ≡ produced o
        → r.error ≡ none
        → Verdicts case o runner.checks r.checks
        → case_passed r ≡ all_passed r.checks
        → Judged case r

  apply_check-Verdict :
      (case : EvalCase I V) (o : O) (c : Check I V O) → Verdict case o c (apply_check case o c)
  apply_check-Verdict case o c = elim (Option-cases (c.evaluate case o)) [
    | inl broke ↦ rw (broke) (check_raised check_errored broke refl refl refl)
    | inr (r, said) ↦ rw (said) (as_said said)
  ]

  apply_all-Verdicts :
      (case : EvalCase I V) (o : O) (checks : List (Check I V O))
      → Verdicts case o checks (apply_all case o checks)
  apply_all-Verdicts case o [] = tt
  apply_all-Verdicts case o (c ∷ checks) =
      (apply_check-Verdict case o c, apply_all-Verdicts case o checks)

  all_ok-passed : (results : List CheckResult) → all_ok results ≡ all_passed results
  all_ok-passed [] = refl
  all_ok-passed (r ∷ results) = ground (arith, all_ok-passed results)

  case_passed-checks :
      (case : EvalCase I V) (o : O) (checks : List (Check I V O)) (id : String)
      → checks ≢ []
      → case_passed (record { case_id = id; checks = apply_all case o checks; error = none })
        ≡ all_passed (apply_all case o checks)
  unfolding case_passed
  case_passed-checks case o [] id h = absurd (h refl)
  case_passed-checks case o (c ∷ checks) id h = all_ok-passed (apply_all case o (c ∷ checks))

  result_of-Judged :
      (case : EvalCase I V) (t : TargetOutcome O)
      → runner.checks ≢ []
      → runner.target case.inputs ≡ t
      → Judged case (result_of runner case t)
  unfolding case_passed
  result_of-Judged case timed_out h e =
      no_output runner.late (λ o given. absurd (ground arith)) refl refl refl
  result_of-Judged case raised h e =
      no_output target_failed (λ o given. absurd (ground arith)) refl refl refl
  result_of-Judged case (produced o) h e =
      judged o e refl (apply_all-Verdicts case o runner.checks)
        (case_passed-checks case o runner.checks case.id h)

  result_of-id :
      (case : EvalCase I V) (t : TargetOutcome O) → (result_of runner case t).case_id ≡ case.id
  result_of-id case timed_out = refl
  result_of-id case raised = refl
  result_of-id case (produced o) = refl

  -- The results are those of the cases, one for each, in their order.
  abbrev pub Results : List (EvalCase I V) → List CaseResult → Type 0
  Results [] [] = Unit
  Results [] (_ ∷ _) = ⊥
  Results (_ ∷ _) [] = ⊥
  Results (case ∷ cases) (r ∷ results) =
      (r.case_id ≡ case.id) × Judged case r × Results cases results

  run_cases-Results :
      (cases : List (EvalCase I V)) → runner.checks ≢ [] → Results cases (run_cases runner cases)
  unfolding run_case
  run_cases-Results [] h = tt
  run_cases-Results (case ∷ cases) h = (
    result_of-id case (runner.target case.inputs),
    result_of-Judged case (runner.target case.inputs) h refl,
    run_cases-Results cases h,
  )

-- A runner that is built with some check gives a report with one result for each case of the suite, in
-- order and whatever happens to the others: without an output the case has an error and no check, and
-- does not pass; with one it has, for every check in order, what the check says, or an errored result of
-- its name where the check raises, and it passes exactly when all of them passed.
pub run-Results :
    {I V O : Type 0} (target : I → TargetOutcome O) (checks : List (Check I V O)) (late : String)
    (runner : EvaluationRunner I V O) (suite : EvalSuite I V)
    → new_runner target checks late ≡ ok runner
    → (runner.target ≡ target)
      × (runner.checks ≡ checks)
      × ((run runner suite).suite ≡ suite.name)
      × Results runner suite.cases (run runner suite).results
unfolding run new_runner
run-Results {I} {V} {O} target [] late runner suite h = absurd (ground arith)
run-Results {I} {V} {O} target (c ∷ checks) late runner suite h =
    let new : EvaluationRunner I V O = record {
      target = target;
      checks = c ∷ checks;
      late = late;
    } in
    let same : new ≡ runner = ground arith in
    rw (← same) (refl, refl, refl, run_cases-Results new suite.cases (λ e. absurd (ground arith)))
