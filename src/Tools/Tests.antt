-- ===== src/Tools/Tests.antt =====
-- Tests of the tool executor, and its theorems at a concrete table.
use nexa_assist.Common.{
  ℕ, String, ◌≡◌, refl, false, some, [], ◌∷◌, Result, string_key, leb, if◌then◌else◌,
}
use nexa_assist.Dict.{Dict, lookup}
use nexa_assist.Tools.{
  ToolOutcome, Tool, returned, raised, Texts, failure, get, run, execute, unexpected_error,
}
use nexa_assist.Tools.Calls.{Call, execute_lem}

abbrev texts : Texts
texts = record {
  unavailable = λ name. "No such tool is available.";
  too_slow = "The tool did not finish within 15s.";
  invalid = λ report. report;
}

-- Doubles small numbers and breaks on large ones, with the number in the exception.
abbrev double : Tool ℕ ℕ ℕ
double = record {
  name = "double";
  description = "Doubles a number.";
  model_validate = λ v. Result.ok v;
  run = λ v. if leb v 9 then returned v else raised v;
}

abbrev tools : Dict String (Tool ℕ ℕ ℕ)
tools = ("double", double) ∷ []

hidden :
    execute texts 0 tools "double" (some 12)
    ≡ failure "double" ToolOutcome.failed unexpected_error false
unfolding execute get run lookup
hidden = refl

execute_lem_example :
    Call texts 0 tools "double" (some 12) (execute texts 0 tools "double" (some 12))
execute_lem_example = execute_lem texts 0 tools "double" (some 12)
