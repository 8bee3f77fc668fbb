-- ===== src/Evaluation/Comparisons.antt =====
-- What a comparison of two runs says.
use nexa_assist.Common.{
  String, ◌≡◌, ◌↔◌, refl, inl, inr, true, false, not, ◌&&◌, List, [], ◌∷◌, ok, arith, contains,
  string_key, ◌==◌, ==_iff, Bool-cases,
}
use nexa_assist.Evaluation.{EvalReport, is_empty}
use nexa_assist.Evaluation.Regression.{
  passing_ids, case_ids, difference, RegressionSummary, summarise, compare_reports, clean,
}

contains-difference :
    (k : String) (xs ys : List String)
    → contains k (difference xs ys) ≡ (contains k xs && not (contains k ys))
unfolding difference
contains-difference k [] ys = refl
contains-difference k (x ∷ xs) ys = ground (arith, contains-difference k xs ys, ==_iff x k)

is_empty_iff : (xs : List String) → (is_empty xs ≡ true) ↔ ((k : String) → contains k xs ≡ false)
is_empty_iff [] = (λ e k. refl, λ h. refl)
is_empty_iff (x ∷ xs) = (λ e. absurd (ground arith), λ h. absurd (ground (arith, h x, ==_iff x x)))

-- Every identifier of the first list is in the second.
abbrev pub Within : List String → List String → Type 0
Within xs ys = (k : String) → contains k xs ≡ true → contains k ys ≡ true

module _ (sorted : List String → List String)
    (sorted_law : (xs : List String) (k : String) → contains k (sorted xs) ≡ contains k xs) where
  empty-Within :
      (xs ys : List String) → (is_empty (sorted (difference xs ys)) ≡ true) ↔ Within xs ys
  empty-Within xs ys = (
    λ e k h. ground (
      arith,
      (is_empty_iff (sorted (difference xs ys))).0 e k,
      sorted_law (difference xs ys) k,
      contains-difference k xs ys,
    ),
    λ w.
        (is_empty_iff (sorted (difference xs ys))).1
          (λ k. ground (arith, sorted_law (difference xs ys) k, contains-difference k xs ys, w k)),
  )

  -- Reports of different suites are not compared. A comparison is clean exactly when every case that
  -- passed before passes now and every case of the baseline was run again; what is new or fixed does
  -- not count.
  pub compare_reports-clean :
      (baseline current : EvalReport) (s : RegressionSummary)
      → compare_reports sorted baseline current ≡ ok s
      → (baseline.suite ≡ current.suite)
        × ((clean s ≡ true) ↔ (
            Within (passing_ids baseline.results) (passing_ids current.results)
            × Within (case_ids baseline.results) (case_ids current.results)))
  unfolding compare_reports summarise clean
  compare_reports-clean baseline current s h = elim (Bool-cases (baseline.suite == current.suite)) [
    | inr other ↦ absurd (ground arith)
    | inl suite ↦
        let same : summarise sorted baseline current ≡ s = ground arith in
        let passing = empty-Within (passing_ids baseline.results) (passing_ids current.results) in
        let there = empty-Within (case_ids baseline.results) (case_ids current.results) in
        (
          (==_iff baseline.suite current.suite).0 suite,
          rw (← same) (
            λ e. (passing.0 (ground arith), there.0 (ground arith)),
            λ w. ground (arith, passing.1 w.0, there.1 w.1),
          ),
        )
  ]
