-- ===== src/Evaluation/Tests.antt =====
-- A run with an output, a late target and a check that raises, and the theorems at concrete runs.
use nexa_assist.Common.{
  ℕ, String, ◌≡◌, ◌↔◌, refl, true, none, some, [], ◌∷◌, string_key, nat_eq, ltb, if◌then◌else◌, ◌*◌,
}
use nexa_assist.Evaluation.{
  EvalCase, EvalSuite, EvalReport, passed, failed, failing, describe_failures, check_failure,
  case_error, failing_among, case_passed, failures,
}
use nexa_assist.Evaluation.Checks.{Check}
use nexa_assist.Evaluation.Runner.{
  TargetOutcome, produced, timed_out, EvaluationRunner, new_runner, run, run_case, check_errored,
}
use nexa_assist.Evaluation.Regression.{
  RegressionSummary, summarise, compare_reports, clean, passing_ids, case_ids, difference,
}
use nexa_assist.Evaluation.Reports.{Results, run-Results}
use nexa_assist.Evaluation.Comparisons.{Within, compare_reports-clean}

abbrev case_of : String → ℕ → EvalCase ℕ ℕ
case_of id n = record { id = id; inputs = n; expectations = []; tags = [] }

-- The target doubles, and is late for 7.
abbrev doubles : ℕ → TargetOutcome ℕ
doubles n = if nat_eq n 7 then timed_out else produced (2 * n)

abbrev small : Check ℕ ℕ ℕ
small = record {
  name = "small";
  evaluate = λ case output.
      if nat_eq output 8
      then none
      else some (record {
        check = "small";
        outcome = if ltb output 10 then passed else failed;
        detail = none;
      });
}

abbrev suite : EvalSuite ℕ ℕ
suite = record {
  name = "doubling";
  cases = case_of "two" 2 ∷ case_of "four" 4 ∷ case_of "six" 6 ∷ case_of "seven" 7 ∷ [];
}

abbrev runner : EvaluationRunner ℕ ℕ ℕ
runner = record {
  target = doubles;
  checks = small ∷ [];
  late = "The target did not finish within 30s.";
}

failures_described :
    describe_failures (run runner suite)
    ≡ check_failure "four" "small" (some check_errored)
      ∷ check_failure "six" "small" none
      ∷ case_error "seven" "The target did not finish within 30s."
      ∷ []
unfolding describe_failures run run_case failing failing_among case_passed failures
failures_described = refl

run-Results_example :
    (runner.target ≡ doubles)
    × (runner.checks ≡ small ∷ [])
    × ((run runner suite).suite ≡ "doubling")
    × Results runner suite.cases (run runner suite).results
run-Results_example =
    run-Results doubles (small ∷ []) "The target did not finish within 30s." runner suite
      (unfold new_runner in refl)

abbrev before : EvalReport
before = run runner (record suite { cases = case_of "two" 2 ∷ case_of "six" 6 ∷ [] })

abbrev after : EvalReport
after = run runner suite

abbrev comparison : RegressionSummary
comparison = summarise (λ xs. xs) before after

compare_reports-clean_example :
    (before.suite ≡ after.suite)
    × ((clean comparison ≡ true) ↔ (
        Within (passing_ids before.results) (passing_ids after.results)
        × Within (case_ids before.results) (case_ids after.results)))
compare_reports-clean_example =
    compare_reports-clean (λ xs. xs) (λ xs k. refl) before after comparison
      (unfold compare_reports run in refl)

only_added :
    (comparison.added ≡ "four" ∷ "seven" ∷ [])
    × (comparison.regressed ≡ [])
    × (clean comparison ≡ true)
unfolding clean summarise difference passing_ids case_ids run run_case case_passed
only_added = (refl, refl, refl)
