-- ===== src/Agent/Runs.antt =====
-- Every run ends, within its budget, with a numbered record of what it did.
use nexa_assist.Common.{
  ℕ, zero, suc, ◌-◌, ◌<◌, String, ◌≡◌, refl, ap, sym, true, false, Option, none, some, [], ◌∷◌,
  arith, length, nat_eq, Option-cases, Bool-cases, inl, inr, length-append,
}
use nexa_assist.Tools.{ToolResult}
use nexa_assist.Agent.{
  tool_call, answer, AgentStep, AgentBudget, StopReason, step_limit, tool_call_limit,
  provider_unavailable, answered, AgentState, AgentDecision, AgentOutcome, calls_among, start,
  exhausted, remaining_steps, record_tool_call, record_answer, finish, budget_answer,
  provider_answer, answer_of, no_usage, loop, run,
}
use nexa_assist.Agent.Outcomes.{
  is_answered, IsOutcome, InProgress, Numbered-append, call_lines-append, calls_among-append,
  lines-append,
}

module _ {V : Type 0} where
  not_exhausted :
      (s : AgentState V)
      → exhausted s ≡ none
      → (length s.steps < s.budget.max_steps) × (calls_among s.steps < s.budget.max_tool_calls)
  unfolding exhausted
  not_exhausted s h = ground arith

  unanswered :
      (s : AgentState V) (reason : StopReason)
      → exhausted s ≡ some reason
      → is_answered reason ≡ false
  unfolding exhausted
  unanswered s reason h = ground arith

  start-InProgress :
      (question : String) (budget : AgentBudget)
      → InProgress {V = V} budget question (start question budget)
  unfolding start
  start-InProgress question budget = record {
    question_kept = refl;
    budget_kept = refl;
    numbered = tt;
    counted = refl;
    only_calls = refl;
    lines = refl;
    within_steps = omega arith;
    within_calls = omega arith;
  }

  no_calls-exhausted :
      (s : AgentState V)
      → s.budget.max_tool_calls ≡ 0
      → (reason : StopReason) × (exhausted s ≡ some reason)
  unfolding exhausted
  no_calls-exhausted s h = elim (Bool-cases (nat_eq (remaining_steps s) 0)) [
    | inl none_left ↦ (step_limit, ground arith)
    | inr some_left ↦ (tool_call_limit, ground arith)
  ]

  record_tool_call-InProgress :
      {budget : AgentBudget} {question : String} (s : AgentState V) (tool : String)
      (r : ToolResult V)
      → InProgress budget question s
      → exhausted s ≡ none
      → InProgress budget question (record_tool_call s tool r no_usage)
  unfolding record_tool_call
  record_tool_call-InProgress s tool r p h =
      let step : AgentStep V = record {
        index = length s.steps;
        kind = tool_call;
        tool = some tool;
        result = some r;
        usage = no_usage;
      } in
      let room = not_exhausted s h in
      record {
        question_kept = p.question_kept;
        budget_kept = p.budget_kept;
        numbered = Numbered-append 0 s.steps step p.numbered (omega arith);
        counted =
            omega
              (arith, p.counted, call_lines-append s.steps step, calls_among-append s.steps step);
        only_calls = omega (
          arith,
          p.only_calls,
          calls_among-append s.steps step,
          length-append s.steps (step ∷ []),
        );
        lines =
            omega (arith, p.lines, lines-append s.steps step, length-append s.steps (step ∷ []));
        within_steps = ground (
          arith,
          length-append s.steps (step ∷ []),
          ap (λ (b : AgentBudget). b.max_steps) p.budget_kept,
        );
        within_calls = ground (
          arith,
          calls_among-append s.steps step,
          ap (λ (b : AgentBudget). b.max_tool_calls) p.budget_kept,
        );
      }

  record_tool_call-nearer :
      {budget : AgentBudget} {question : String} (s : AgentState V) (tool : String)
      (r : ToolResult V) (fuel : ℕ)
      → InProgress budget question s
      → exhausted s ≡ none
      → budget.max_tool_calls - calls_among s.steps < suc fuel
      → budget.max_tool_calls - calls_among (record_tool_call s tool r no_usage).steps < fuel
  unfolding record_tool_call
  record_tool_call-nearer s tool r fuel p h f =
      let room = not_exhausted s h in
      omega (
        arith,
        ap (λ (b : AgentBudget). b.max_tool_calls) p.budget_kept,
        calls_among-append s.steps (record {
          index = length s.steps;
          kind = tool_call;
          tool = some tool;
          result = some r;
          usage = no_usage;
        }),
      )

  -- A run that stops short reports the state as it is.
  finish-IsOutcome :
      {budget : AgentBudget} {question : String} (s : AgentState V) (text : String)
      (reason : StopReason)
      → InProgress budget question s
      → is_answered reason ≡ false
      → IsOutcome budget question (finish s text false reason)
  finish-IsOutcome s text reason p h = record {
    asked = p.question_kept;
    within_steps = omega (arith, p.lines, p.within_steps);
    within_calls = p.within_calls;
    numbered = p.numbered;
    counted = p.counted;
    reason = sym h;
    spare = omega (arith, p.within_calls);
    shape = omega (arith, p.lines, p.only_calls);
  }

  answer-IsOutcome :
      {budget : AgentBudget} {question : String} (s : AgentState V) (text : String)
      → InProgress budget question s
      → exhausted s ≡ none
      → IsOutcome budget question (finish (record_answer s no_usage) text true answered)
  unfolding record_answer
  answer-IsOutcome s text p h =
      let step : AgentStep V = record {
        index = length s.steps;
        kind = answer;
        tool = none;
        result = none;
        usage = no_usage;
      } in
      let room = not_exhausted s h in
      let max_steps = ap (λ (b : AgentBudget). b.max_steps) p.budget_kept in
      let max_calls = ap (λ (b : AgentBudget). b.max_tool_calls) p.budget_kept in
      let more = lines-append s.steps step in
      let calls = calls_among-append s.steps step in
      record {
        asked = p.question_kept;
        within_steps = omega (arith, max_steps, more, p.lines);
        within_calls = omega (arith, max_calls, calls);
        numbered = Numbered-append 0 s.steps step p.numbered (omega arith);
        counted = omega (arith, p.counted, call_lines-append s.steps step, calls);
        reason = refl;
        spare = omega (arith, max_calls, calls);
        shape = omega (arith, more, calls, p.lines, p.only_calls);
      }

module _ {V : Type 0} (decide : AgentState V → Option (AgentDecision V))
    (execute : AgentState V → String → V → ToolResult V) where
  loop-IsOutcome :
      {budget : AgentBudget} {question : String} (fuel : ℕ) (s : AgentState V)
      → InProgress budget question s
      → budget.max_tool_calls - calls_among s.steps < fuel
      → (o : AgentOutcome) × (loop decide execute fuel s ≡ some o) × IsOutcome budget question o
  unfolding loop
  loop-IsOutcome zero s p h = absurd (omega arith)
  loop-IsOutcome (suc fuel) s p h = elim (Option-cases (exhausted s)) [
    | inr (reason, spent) ↦ (
      finish s budget_answer false reason,
      rw (spent, loop),
      finish-IsOutcome s budget_answer reason p (unanswered s reason spent),
    )
    | inl room ↦ elim (Option-cases (decide s)) [
      | inl down ↦ (
        finish s provider_answer false provider_unavailable,
        rw (room, loop) (rw (down, loop)),
        finish-IsOutcome s provider_answer provider_unavailable p refl,
      )
      | inr (d, said) ↦ elim (Option-cases d.tool) [
        | inl no_tool ↦ (
          finish (record_answer s no_usage) (answer_of d.final_answer) true answered,
          rw (room, loop) (rw (said, loop) (rw (no_tool, loop))),
          answer-IsOutcome s (answer_of d.final_answer) p room,
        )
        | inr (tool, named) ↦
            let r = execute s tool d.tool_params in
            let s' = record_tool_call s tool r no_usage in
            let p' = record_tool_call-InProgress s tool r p room in
            let (o, e, holds) =
              loop-IsOutcome fuel s' p' (record_tool_call-nearer s tool r fuel p room h) in
            (o, rw (room, loop) (rw (said, loop) (rw (named, loop) e)), holds)
      ]
    ]
  ]

  -- Whatever the model decides and the tools return, every run ends with an outcome: within both
  -- limits, its steps numbered from 0, the tool calls counted right, completed exactly when it
  -- stopped for an answer; and then a tool call is to spare, so a run that uses the last one allowed
  -- never answers.
  pub run-IsOutcome :
      (question : String) (budget : AgentBudget)
      → (o : AgentOutcome) × (run decide execute question budget ≡ some o)
        × IsOutcome budget question o
  unfolding run
  run-IsOutcome question budget =
      loop-IsOutcome (suc budget.max_tool_calls) (start question budget)
        (start-InProgress question budget) (unfold start in omega arith)

  -- A budget of no tool calls, which the model of a budget admits for answer-only runs, lets no run
  -- answer: the model is never asked.
  pub run_no_calls :
      (question : String) (budget : AgentBudget)
      → budget.max_tool_calls ≡ 0
      → (o : AgentOutcome) × (run decide execute question budget ≡ some o)
        × (o.answer ≡ budget_answer)
        × (o.completed ≡ false)
        × (o.steps ≡ [])
  unfolding run loop
  run_no_calls question budget h =
      let s : AgentState V = start question budget in
      let (reason, spent) = no_calls-exhausted s (unfold start in h) in
      (finish s budget_answer false reason, rw (spent, loop), refl, refl, unfold start in refl)
