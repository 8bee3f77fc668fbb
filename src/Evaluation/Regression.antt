-- ===== src/Evaluation/Regression.antt =====
-- backend/app/evaluation/runner.py: `RegressionSummary` and `compare_reports`. A set of identifiers is a
-- list of which only membership counts; `sorted` is Python's and a parameter.
use nexa_assist.Common.{
  String, Bool, not, ◌&&◌, List, [], ◌∷◌, Result, ok, ◌>>◌, raise_if, contains, string_key, ◌==◌,
  if◌then◌else◌,
}
use nexa_assist.Evaluation.{
  EvaluationFault, definition, CaseResult, case_passed, EvalReport, is_empty,
}

-- {r.case_id for r in results if r.passed} and {r.case_id for r in results}
unfoldable pub passing_ids : List CaseResult → List String
passing_ids [] = []
passing_ids (r ∷ results) =
    let rest = passing_ids results in if case_passed r then r.case_id ∷ rest else rest

unfoldable pub case_ids : List CaseResult → List String
case_ids [] = []
case_ids (r ∷ results) = r.case_id ∷ case_ids results

-- xs - ys
unfoldable pub difference : List String → List String → List String
difference [] ys = []
difference (x ∷ xs) ys = let rest = difference xs ys in if contains x ys then rest else x ∷ rest

pub record RegressionSummary : Type 0 where
  pub baseline : EvalReport
  pub current : EvalReport
  pub regressed : List String
  pub fixed : List String
  pub added : List String
  pub removed : List String

module _ (sorted : List String → List String) where
  unfoldable pub summarise : EvalReport → EvalReport → RegressionSummary
  unfolding difference passing_ids case_ids
  summarise baseline current =
      let base_pass = passing_ids baseline.results in
      let now_pass = passing_ids current.results in
      let base_ids = case_ids baseline.results in
      let now_ids = case_ids current.results in
      record {
        baseline = baseline;
        current = current;
        regressed = sorted (difference base_pass now_pass);
        fixed = sorted (difference now_pass base_pass);
        added = sorted (difference now_ids base_ids);
        removed = sorted (difference base_ids now_ids);
      }

  unfoldable pub compare_reports :
      EvalReport → EvalReport → Result EvaluationFault RegressionSummary
  unfolding summarise
  compare_reports baseline current = do
    raise_if (not (baseline.suite == current.suite)) definition
    ok (summarise baseline current)

-- `RegressionSummary.clean`
unfoldable pub clean : RegressionSummary → Bool
clean s = is_empty s.regressed && is_empty s.removed
