-- ===== src/Agent/Tests.antt =====
-- Tests of the agent's ledger, and the theorems on its runs with a concrete model and tools.
use nexa_assist.Common.{
  ℕ, String, ◌≡◌, refl, Bool, false, Option, none, some, [], ◌∷◌, if◌then◌else◌, ltb, string_key,
}
use nexa_assist.Tools.{ToolResult, success}
use nexa_assist.Agent.{
  StepKind, tool_call, AgentBudget, AgentState, AgentDecision, AgentOutcome, StopReason, step_limit,
  tool_call_limit, answered, step_count, start, exhausted, record_tool_call, tools_from, tools_used,
  no_usage, finish, budget_answer, loop, run,
}
use nexa_assist.Agent.Outcomes.{IsOutcome}
use nexa_assist.Agent.Runs.{run-IsOutcome, run_no_calls}

abbrev question : String
question = "Where is my order?"

abbrev roomy : AgentBudget
roomy = record { max_steps = 3; max_tool_calls = 2 }

abbrev no_tools : AgentBudget
no_tools = record { max_steps = 1; max_tool_calls = 0 }

-- Looks one thing up, then answers.
abbrev curious : AgentState ℕ → Option (AgentDecision ℕ)
curious s =
    if ltb (step_count s) 1
    then some (record { tool = some "lookup"; tool_params = 7; final_answer = none })
    else some (record { tool = none; tool_params = 0; final_answer = some "It is on its way." })

abbrev echo : AgentState ℕ → String → ℕ → ToolResult ℕ
echo s tool params = success tool params

looked_up :
    run curious echo question roomy
    ≡ some (record {
      question = question;
      answer = "It is on its way.";
      completed = Bool.true;
      steps =
          record {
            index = 0;
            kind = tool_call;
            tool = some "lookup";
            outcome = some nexa_assist.Tools.ok;
          }
          ∷ record { index = 1; kind = StepKind.answer; tool = none; outcome = none }
          ∷ [];
      tool_calls = 1;
      stop_reason = answered;
    })
unfolding run loop start exhausted record_tool_call nexa_assist.Agent.record_answer
looked_up = refl

run-IsOutcome_example :
    (o : AgentOutcome) × (run curious echo question roomy ≡ some o) × IsOutcome roomy question o
run-IsOutcome_example = run-IsOutcome curious echo question roomy

run_no_calls_example :
    (o : AgentOutcome) × (run curious echo question no_tools ≡ some o)
    × (o.answer ≡ budget_answer)
    × (o.completed ≡ false)
    × (o.steps ≡ [])
run_no_calls_example = run_no_calls curious echo question no_tools refl
