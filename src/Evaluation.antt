-- ===== src/Evaluation.antt =====
-- backend/app/evaluation: cases and suites (cases.py), verdicts (results.py), the checks (checks.py,
-- module Checks) and the runner (runner.py, modules Runner and Regression). Durations and log lines
-- are left out. Inputs, outputs and values are of any type.
pub mod Checks
pub mod Runner
pub mod Regression
pub mod Reports
pub mod Comparisons
mod Tests
use nexa_assist.Common.{
  ℕ, suc, ◌+◌, ◌-◌, String, Bool, true, false, not, ◌&&◌, ◌||◌, Option, none, some, List, [], ◌∷◌,
  ◌++◌, map, Result, ok, err, ◌>>=◌, ◌>>◌, raise_if, length, contains, string_key, is_some,
  if◌then◌else◌,
}
use nexa_assist.Dict.{Dict}

pub record EvalCase (I V : Type 0) : Type 0 where
  pub id : String
  pub inputs : I
  pub expectations : Dict String V
  pub tags : List String

pub record EvalSuite (I V : Type 0) : Type 0 where
  pub name : String
  pub cases : List (EvalCase I V)

pub data EvaluationFault : Type 0 where
  definition : EvaluationFault

-- len(cases) != len({c.id for c in cases})
abbrev pub repeats : List String → Bool
repeats [] = false
repeats (id ∷ ids) = contains id ids || repeats ids

abbrev pub is_empty {ℓ} : {A : Type ℓ} → List A → Bool
is_empty [] = true
is_empty (_ ∷ _) = false

module _ {I V : Type 0} where
  abbrev pub ids_of : List (EvalCase I V) → List String
  ids_of [] = []
  ids_of (c ∷ cases) = c.id ∷ ids_of cases

  -- `EvalSuite` with `model_post_init`
  unfoldable pub new_suite : String → List (EvalCase I V) → Result EvaluationFault (EvalSuite I V)
  new_suite name cases = do
    raise_if (repeats (ids_of cases)) definition
    raise_if (is_empty cases) definition
    ok (record { name = name; cases = cases })

  abbrev tagged_among : String → List (EvalCase I V) → List (EvalCase I V)
  tagged_among tag [] = []
  tagged_among tag (c ∷ cases) =
      let rest = tagged_among tag cases in if contains tag c.tags then c ∷ rest else rest

  -- `EvalSuite.tagged`
  unfoldable pub tagged : EvalSuite I V → String → List (EvalCase I V)
  tagged suite tag = tagged_among tag suite.cases

pub data CheckOutcome : Type 0 where
  passed failed errored : CheckOutcome

pub record CheckResult : Type 0 where
  pub check : String
  pub outcome : CheckOutcome
  pub detail : Option String

-- `CheckResult.ok`
abbrev pub check_ok : CheckResult → Bool
check_ok r = elim r.outcome [ passed ↦ true | failed ↦ false | errored ↦ false ]

pub record CaseResult : Type 0 where
  pub case_id : String
  pub checks : List CheckResult
  pub error : Option String

-- all(c.ok for c in checks)
abbrev pub all_ok : List CheckResult → Bool
all_ok [] = true
all_ok (c ∷ checks) = check_ok c && all_ok checks

-- `CaseResult.passed`
unfoldable pub case_passed : CaseResult → Bool
case_passed r = not (is_some r.error) && not (is_empty r.checks) && all_ok r.checks

-- `CaseResult.failures`, over the checks
unfoldable pub failures : List CheckResult → List CheckResult
failures [] = []
failures (c ∷ checks) = let rest = failures checks in if check_ok c then rest else c ∷ rest

pub record EvalReport : Type 0 where
  pub suite : String
  pub results : List CaseResult

unfoldable pub total : EvalReport → ℕ
total report = length report.results

abbrev pub count_passed : List CaseResult → ℕ
count_passed [] = 0
count_passed (r ∷ results) = (if case_passed r then 1 else 0) + count_passed results

-- `EvalReport.passed` and `EvalReport.failed`
unfoldable pub report_passed : EvalReport → ℕ
report_passed report = count_passed report.results

unfoldable pub report_failed : EvalReport → ℕ
unfolding total report_passed
report_failed report = total report - report_passed report

unfoldable pub failing_among : List CaseResult → List CaseResult
failing_among [] = []
failing_among (r ∷ results) =
    let rest = failing_among results in if case_passed r then rest else r ∷ rest

-- `EvalReport.failing`
unfoldable pub failing : EvalReport → List CaseResult
unfolding failing_among
failing report = failing_among report.results

-- A line of `describe_failures`: the case, and the error or the check and its detail.
pub data FailureLine : Type 0 where
  case_error : String → String → FailureLine
  check_failure : String → String → Option String → FailureLine

abbrev pub check_line : String → CheckResult → FailureLine
check_line id c = check_failure id c.check c.detail

abbrev pub lines_of : CaseResult → List FailureLine
lines_of r = elim r.error [
  | some message ↦ case_error r.case_id message ∷ []
  | none ↦ map (check_line r.case_id) (failures r.checks)
]

abbrev pub all_lines : List CaseResult → List FailureLine
all_lines [] = []
all_lines (r ∷ results) = lines_of r ++ all_lines results

unfoldable pub describe_failures : EvalReport → List FailureLine
unfolding failing
describe_failures report = all_lines (failing report)
