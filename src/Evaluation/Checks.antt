-- ===== src/Evaluation/Checks.antt =====
-- backend/app/evaluation/checks.py. Python's values are parameters: reading a field of an output
-- (`_read`), whether a value is missing or empty, the lowercased text of one, the terms that an
-- expectation lists, and the texts of failure details. A check is `none` where it raises.
use nexa_assist.Common.{
  String, Bool, true, false, not, Option, none, some, List, [], ◌∷◌, Result, ok, ◌>>◌, raise_if,
  ◌==◌, string_key, if◌then◌else◌,
}
use nexa_assist.Names.{◌+++◌}
use nexa_assist.Dict.{lookup}
use nexa_assist.Evaluation.{
  EvalCase, EvaluationFault, definition, CheckResult, passed, failed, is_empty,
}

pub record Check (I V O : Type 0) : Type 0 where
  pub name : String
  pub evaluate : EvalCase I V → O → Option CheckResult

-- `_passed` and `_failed`
abbrev pub passing : String → CheckResult
passing name = record { check = name; outcome = passed; detail = none }

abbrev pub failure : String → String → CheckResult
failure name detail = record { check = name; outcome = failed; detail = some detail }

-- What Python's values offer.
pub record Values (V O : Type 0) : Type 0 where
  pub read : O → String → V
  pub same : V → V → Bool
  pub empty : V → Bool
  pub lowered : V → String
  pub terms : V → List String
  pub lower : String → String
  pub occurs : String → String → Bool
  pub expected_got : V → V → String
  pub no_expectation : String → String
  pub not_in : V → List V → String
  pub listed : List String → String

-- expectation or field
abbrev pub expectation_key : String → Option String → String
expectation_key field none = field
expectation_key field (some e) = if e == "" then field else e

abbrev pub verdict : String → Bool → String → Option CheckResult
verdict name fine detail = some (if fine then passing name else failure name detail)

module _ {V O : Type 0} (values : Values V O) where
  -- [term for term in terms if (term.lower() in text) is found]
  unfoldable pub terms_where : Bool → String → List String → List String
  terms_where found text [] = []
  terms_where found text (term ∷ terms) =
      let rest = terms_where found text terms in
      let here = values.occurs (values.lower term) text in
      if (if found then here else not here) then term ∷ rest else rest

  -- actual in allowed
  abbrev pub among : V → List V → Bool
  among v [] = false
  among v (w ∷ allowed) = if values.same v w then true else among v allowed

  -- case.expectations.get(key, ())
  abbrev pub terms_at : Option V → List String
  terms_at none = []
  terms_at (some v) = values.terms v

  -- The verdict of `FieldEquals` on a value, by the case's expectation.
  abbrev pub equals_expected : String → String → Option V → V → Option CheckResult
  equals_expected name key none actual = some (failure name (values.no_expectation key))
  equals_expected name key (some expected) actual =
      verdict name (values.same actual expected) (values.expected_got expected actual)

module _ {I V O : Type 0} (values : Values V O) where
  unfoldable pub field_equals : String → Option String → Result EvaluationFault (Check I V O)
  field_equals field expectation = do
    raise_if (field == "") definition
    let key : String = expectation_key field expectation
    let name = "field_equals:" +++ field
    ok (record {
      name = name;
      evaluate = λ case output.
          equals_expected values name key (lookup key case.expectations) (values.read output field);
    })

  unfoldable pub field_in : String → List V → Result EvaluationFault (Check I V O)
  field_in field allowed = do
    raise_if (is_empty allowed) definition
    let name = "field_in:" +++ field
    ok (record {
      name = name;
      evaluate = λ case output.
          verdict name (among values (values.read output field) allowed)
            (values.not_in (values.read output field) allowed);
    })

  unfoldable pub text_contains_all : String → Check I V O
  unfolding terms_where
  text_contains_all field =
      let name = "contains_all:" +++ field in
      record {
        name = name;
        evaluate = λ case output.
            let missing =
              terms_where values false (values.lowered (values.read output field))
                (terms_at values (lookup "contains" case.expectations)) in
            verdict name (is_empty missing) (values.listed missing);
      }

  unfoldable pub text_contains_none : String → Check I V O
  unfolding terms_where
  text_contains_none field =
      let name = "contains_none:" +++ field in
      record {
        name = name;
        evaluate = λ case output.
            let present =
              terms_where values true (values.lowered (values.read output field))
                (terms_at values (lookup "forbidden" case.expectations)) in
            verdict name (is_empty present) (values.listed present);
      }

  unfoldable pub field_is_not_empty : String → Check I V O
  field_is_not_empty field =
      let name = "not_empty:" +++ field in
      record {
        name = name;
        evaluate = λ case output.
            verdict name (not (values.empty (values.read output field))) "field was empty";
      }
