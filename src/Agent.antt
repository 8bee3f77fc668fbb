-- ===== src/Agent.antt =====
-- backend/app/agent/state.py and loop.py: the ledger of a run, its budget, and the loop. The model
-- provider is a function of the state (`none` is an `LLMError`), the tool executor one of the state
-- and the call, so that two equal calls of a run may end differently; both are parameters. Times,
-- the run's identifier, the prompt's text and log lines are left out.
pub mod Outcomes
pub mod Runs
mod Tests
use nexa_assist.Common.{
  ℕ, zero, suc, ◌+◌, ◌-◌, String, Bool, true, false, Option, none, some, List, [], ◌∷◌, ◌++◌,
  nat_eq, leb, length, map, if◌then◌else◌, string_key, ◌==◌, contains, is_some,
}
use nexa_assist.Tools.{ToolResult, ToolOutcome, is_ok}

pub data StepKind : Type 0 where
  tool_call answer : StepKind

pub record LlmUsage : Type 0 where
  pub input_tokens : ℕ
  pub output_tokens : ℕ

pub record AgentStep (V : Type 0) : Type 0 where
  pub index : ℕ
  pub kind : StepKind
  pub tool : Option String
  pub result : Option (ToolResult V)
  pub usage : LlmUsage

pub record AgentBudget : Type 0 where
  pub max_steps : ℕ
  pub max_tool_calls : ℕ

-- The bounds of the two fields.
abbrev pub is_budget : AgentBudget → Bool
is_budget b =
    if leb 1 b.max_steps
    then (if leb b.max_steps 50 then leb b.max_tool_calls 100 else false)
    else false

pub data StopReason : Type 0 where
  step_limit tool_call_limit provider_unavailable answered : StopReason

pub record AgentState (V : Type 0) : Type 0 where
  pub question : String
  pub budget : AgentBudget
  pub steps : List (AgentStep V)
  pub usage : LlmUsage

abbrev pub no_usage : LlmUsage
no_usage = record { input_tokens = 0; output_tokens = 0 }

abbrev pub add_usage : LlmUsage → LlmUsage → LlmUsage
add_usage u v = record {
  input_tokens = u.input_tokens + v.input_tokens;
  output_tokens = u.output_tokens + v.output_tokens;
}

abbrev pub counts_call : StepKind → ℕ
counts_call tool_call = 1
counts_call answer = 0

-- `tools_used`: distinct names in the order of their first call
abbrev pub note_tool : List String → Option String → List String
note_tool seen none = seen
note_tool seen (some tool) = if contains tool seen then seen else seen ++ tool ∷ []

module _ {V : Type 0} where
  unfoldable pub start : String → AgentBudget → AgentState V
  start question budget = record {
    question = question;
    budget = budget;
    steps = [];
    usage = no_usage;
  }

  abbrev pub step_count : AgentState V → ℕ
  step_count s = length s.steps

  abbrev pub calls_among : List (AgentStep V) → ℕ
  calls_among [] = 0
  calls_among (step ∷ steps) = counts_call step.kind + calls_among steps

  abbrev pub tool_calls : AgentState V → ℕ
  tool_calls s = calls_among s.steps

  abbrev pub remaining_steps : AgentState V → ℕ
  remaining_steps s = s.budget.max_steps - step_count s

  abbrev pub remaining_tool_calls : AgentState V → ℕ
  remaining_tool_calls s = s.budget.max_tool_calls - tool_calls s

  unfoldable pub exhausted : AgentState V → Option StopReason
  exhausted s =
      if nat_eq (remaining_steps s) 0
      then some step_limit
      else if nat_eq (remaining_tool_calls s) 0
      then some tool_call_limit
      else none

  -- `_append`
  abbrev pub append_step : AgentState V → AgentStep V → AgentState V
  append_step s step = record s {
    steps = s.steps ++ step ∷ [];
    usage = add_usage s.usage step.usage;
  }

  unfoldable pub record_tool_call : AgentState V → String → ToolResult V → LlmUsage → AgentState V
  record_tool_call s tool result usage = append_step s (record {
    index = step_count s;
    kind = tool_call;
    tool = some tool;
    result = some result;
    usage = usage;
  })

  unfoldable pub record_answer : AgentState V → LlmUsage → AgentState V
  record_answer s usage =
      append_step s
        (record { index = step_count s; kind = answer; tool = none; result = none; usage = usage })

  unfoldable pub tools_from : List String → List (AgentStep V) → List String
  tools_from seen [] = seen
  tools_from seen (step ∷ steps) = tools_from (note_tool seen step.tool) steps

  unfoldable pub tools_used : AgentState V → List String
  unfolding tools_from
  tools_used s = tools_from [] s.steps

pub record AgentDecision (V : Type 0) : Type 0 where
  pub tool : Option String
  pub tool_params : V
  pub final_answer : Option String

-- One line of `transcript`.
pub record TranscriptLine : Type 0 where
  pub index : ℕ
  pub kind : StepKind
  pub tool : Option String
  pub outcome : Option ToolOutcome

pub record AgentOutcome : Type 0 where
  pub question : String
  pub answer : String
  pub completed : Bool
  pub steps : List TranscriptLine
  pub tool_calls : ℕ
  pub stop_reason : StopReason

abbrev pub budget_answer : String
budget_answer = "I could not finish looking into that within the allowed number of steps."

abbrev pub provider_answer : String
provider_answer = "I could not complete that request because a service was unavailable."

module _ {V : Type 0} where
  abbrev pub outcome_of : Option (ToolResult V) → Option ToolOutcome
  outcome_of none = none
  outcome_of (some r) = some r.outcome

  abbrev pub transcript_line : AgentStep V → TranscriptLine
  transcript_line step = record {
    index = step.index;
    kind = step.kind;
    tool = step.tool;
    outcome = outcome_of step.result;
  }

  -- `_finish`
  abbrev pub finish : AgentState V → String → Bool → StopReason → AgentOutcome
  finish s text done reason = record {
    question = s.question;
    answer = text;
    completed = done;
    steps = map transcript_line s.steps;
    tool_calls = tool_calls s;
    stop_reason = reason;
  }

-- decision.final_answer or BUDGET_ANSWER
abbrev pub answer_of : Option String → String
answer_of none = budget_answer
answer_of (some text) = if text == "" then budget_answer else text

module _ {V : Type 0} (decide : AgentState V → Option (AgentDecision V))
    (execute : AgentState V → String → V → ToolResult V) where
  -- The `while True` of `run` on fuel; `none` is fuel that ran out.
  unfoldable pub loop : ℕ → AgentState V → Option AgentOutcome
  loop zero s = none
  loop (suc fuel) s = elim (exhausted s) [
    | some reason ↦ some (finish s budget_answer false reason)
    | none ↦ elim (decide s) [
      | none ↦ some (finish s provider_answer false provider_unavailable)
      | some decision ↦ elim decision.tool [
        | none ↦
            some (finish (record_answer s no_usage) (answer_of decision.final_answer) true answered)
        | some tool ↦
            loop fuel (record_tool_call s tool (execute s tool decision.tool_params) no_usage)
      ]
    ]
  ]

  -- The budget of tool calls bounds the rounds.
  unfoldable pub run : String → AgentBudget → Option AgentOutcome
  run question budget = loop (suc budget.max_tool_calls) (start question budget)
