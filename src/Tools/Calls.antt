-- ===== src/Tools/Calls.antt =====
-- What a call of a tool reports.
use nexa_assist.Common.{
  String, ◌≡◌, refl, Bool, true, false, Option, none, some, Result, string_key, arith, [], ◌∷◌, inl,
  inr, Option-cases, Result-cases,
}
use mathlib.Core.Option
use nexa_assist.Dict.{Dict, lookup}
use nexa_assist.Tools.{
  ToolOutcome, ToolResult, ToolRan, returned, timed_out, tool_error, raised, Tool, Texts, get, run,
  execute,
}

module _ {V P E : Type 0} (texts : Texts) (empty : V) (tools : Dict String (Tool V P E)) where
  abbrev pub given : Option V → V
  given none = empty
  given (some params) = params

  -- A result without an output.
  abbrev pub Failed : ToolResult V → String → ToolOutcome → String → Bool → Type 0
  Failed r name outcome message again =
      (r.tool ≡ name)
      × (r.outcome ≡ outcome)
      × (r.output ≡ none)
      × (r.error ≡ some message)
      × (r.retryable ≡ again)

  -- What is reported of a tool that ran, by how it ended.
  abbrev pub Reported : String → ToolResult V → ToolRan V E → Type 0
  Reported name r (returned output) =
      (r.tool ≡ name)
      × (r.outcome ≡ ToolOutcome.ok)
      × (r.output ≡ some output)
      × (r.error ≡ none)
      × (r.retryable ≡ false)
  Reported name r timed_out = Failed r name ToolOutcome.timeout texts.too_slow true
  Reported name r (tool_error message again) = Failed r name ToolOutcome.failed message again
  Reported name r (raised e) =
      Failed r name ToolOutcome.failed "The tool failed unexpectedly." false

  run-Reported :
      (tool : Tool V P E) (how : ToolRan V E) → Reported tool.name (run texts tool how) how
  unfolding run
  run-Reported tool (returned output) = (refl, refl, refl, refl, refl)
  run-Reported tool timed_out = (refl, refl, refl, refl, refl)
  run-Reported tool (tool_error message again) = (refl, refl, refl, refl, refl)
  run-Reported tool (raised e) = (refl, refl, refl, refl, refl)

  -- How a call can go, with what it reports: the five outcomes.
  pub data Call (name : String) (params : Option V) (r : ToolResult V) : Type 0 where
    unknown :
        lookup name tools ≡ none
        → Failed r name ToolOutcome.not_found (texts.unavailable name) false
        → Call name params r
    rejected :
        (tool : Tool V P E) (report : String)
        → lookup name tools ≡ some tool
        → tool.model_validate (given params) ≡ Result.err report
        → Failed r name ToolOutcome.invalid_params (texts.invalid report) false
        → Call name params r
    ran :
        (tool : Tool V P E) (checked : P)
        → lookup name tools ≡ some tool
        → tool.model_validate (given params) ≡ Result.ok checked
        → Reported tool.name r (tool.run checked)
        → Call name params r

  -- Every call of a tool is one of these: the name is unknown or the parameters are rejected, which the
  -- outcome tells and which is not to be retried; or the tool ran, and the result has its output, or a
  -- time-out to be retried, or the tool's own error with its own word on retrying, or for any other
  -- exception a failure with a fixed text that is not to be retried.
  pub execute_lem :
      (name : String) (params : Option V) → Call name params (execute texts empty tools name params)
  unfolding execute get
  execute_lem name params = elim (Option-cases (lookup name tools)) [
    | inl gone ↦ unknown gone (rw (gone, execute) (refl, refl, refl, refl, refl))
    | inr (tool, there) ↦ elim (Result-cases (tool.model_validate (given params))) [
      | inl (report, bad) ↦
          rejected tool report there bad
            (rw (there, execute) (rw (bad, execute) (refl, refl, refl, refl, refl)))
      | inr (checked, fits) ↦
          ran tool checked there fits
            (rw (there, execute) (rw (fits, execute) (run-Reported tool (tool.run checked))))
    ]
  ]

abbrev pub rethrow : {V E F : Type 0} → (E → F) → ToolRan V E → ToolRan V F
rethrow f (returned output) = returned output
rethrow f timed_out = timed_out
rethrow f (tool_error message retryable) = tool_error message retryable
rethrow f (raised e) = raised (f e)

-- The same table with every unexpected exception replaced by another.
module _ {V P E F : Type 0} (f : E → F) where
  abbrev pub rethrow_tool : Tool V P E → Tool V P F
  rethrow_tool tool = record {
    name = tool.name;
    description = tool.description;
    model_validate = tool.model_validate;
    run = λ params. rethrow f (tool.run params);
  }

  unfoldable pub rethrow_all : Dict String (Tool V P E) → Dict String (Tool V P F)
  rethrow_all [] = []
  rethrow_all ((name, tool) ∷ tools) = (name, rethrow_tool tool) ∷ rethrow_all tools

  lookup-rethrow_all :
      (name : String) (tools : Dict String (Tool V P E))
      → lookup name (rethrow_all tools) ≡ Option.map rethrow_tool (lookup name tools)
  unfolding lookup rethrow_all
  lookup-rethrow_all name [] = refl
  lookup-rethrow_all name ((j, tool) ∷ tools) = ground (arith, lookup-rethrow_all name tools)

  run-rethrow :
      (texts : Texts) (tool : Tool V P E) (how : ToolRan V E)
      → run texts (rethrow_tool tool) (rethrow f how) ≡ run texts tool how
  unfolding run
  run-rethrow texts tool (returned output) = refl
  run-rethrow texts tool timed_out = refl
  run-rethrow texts tool (tool_error message retryable) = refl
  run-rethrow texts tool (raised e) = refl

  -- Nothing of an unexpected exception reaches a result: tables that differ only in the exceptions
  -- that their tools raise give equal results for every call.
  pub execute-rethrow_all :
      (texts : Texts) (empty : V) (tools : Dict String (Tool V P E)) (name : String)
      (params : Option V)
      → execute texts empty (rethrow_all tools) name params ≡ execute texts empty tools name params
  unfolding execute get
  execute-rethrow_all texts empty tools name params = elim (Option-cases (lookup name tools)) [
    | inl gone ↦ rw (lookup-rethrow_all name tools, execute) (rw (gone, execute))
    | inr (tool, there) ↦
        rw (lookup-rethrow_all name tools, execute)
          (rw (there, execute)
            (elim (Result-cases (tool.model_validate (elim params [ none ↦ empty | some p ↦ p ]))) [
              | inl (report, bad) ↦ rw (bad, execute)
              | inr (checked, fits) ↦ rw (fits, execute) (run-rethrow texts tool (tool.run checked))
            ]))
  ]
