-- ===== src/Agent/Outcomes.antt =====
-- What an outcome of a run says of itself, and a state in the middle of a run.
use nexa_assist.Common.{
  ℕ, suc, ◌+◌, ◌≤◌, String, ◌≡◌, refl, Bool, true, false, List, [], ◌∷◌, ◌++◌, arith, length, map,
  if◌then◌else◌,
}
use nexa_assist.Agent.{
  AgentStep, AgentBudget, StopReason, answered, AgentState, AgentOutcome, TranscriptLine,
  counts_call, calls_among, transcript_line,
}

-- The lines are numbered from `n` on.
abbrev pub Numbered : ℕ → List TranscriptLine → Type 0
Numbered n [] = Unit
Numbered n (line ∷ lines) = (line.index ≡ n) × Numbered (suc n) lines

abbrev pub call_lines : List TranscriptLine → ℕ
call_lines [] = 0
call_lines (line ∷ lines) = counts_call line.kind + call_lines lines

abbrev pub is_answered : StopReason → Bool
is_answered answered = true
is_answered _ = false

-- What holds of the outcome of a run with this budget.
pub record IsOutcome (budget : AgentBudget) (question : String) (o : AgentOutcome) : Type 0 where
  pub asked : o.question ≡ question
  pub within_steps : length o.steps ≤ budget.max_steps
  pub within_calls : o.tool_calls ≤ budget.max_tool_calls
  pub numbered : Numbered 0 o.steps
  pub counted : call_lines o.steps ≡ o.tool_calls
  pub reason : o.completed ≡ is_answered o.stop_reason
  pub spare : o.tool_calls + (if o.completed then 1 else 0) ≤ budget.max_tool_calls
  pub shape : length o.steps ≡ o.tool_calls + (if o.completed then 1 else 0)

module _ {V : Type 0} where
  -- A state in the middle of a run: only tool calls so far, numbered, within the budget.
  pub record InProgress (budget : AgentBudget) (question : String) (s : AgentState V) : Type 0 where
    pub question_kept : s.question ≡ question
    pub budget_kept : s.budget ≡ budget
    pub numbered : Numbered 0 (map transcript_line s.steps)
    pub counted : call_lines (map transcript_line s.steps) ≡ calls_among s.steps
    pub only_calls : calls_among s.steps ≡ length s.steps
    pub lines : length (map transcript_line s.steps) ≡ length s.steps
    pub within_steps : length s.steps ≤ budget.max_steps
    pub within_calls : calls_among s.steps ≤ budget.max_tool_calls

  -- How one more step changes what is counted.
  pub Numbered-append :
      (n : ℕ) (steps : List (AgentStep V)) (step : AgentStep V)
      → Numbered n (map transcript_line steps)
      → step.index ≡ n + length steps
      → Numbered n (map transcript_line (steps ++ step ∷ []))
  Numbered-append n [] step h e = (omega arith, tt)
  Numbered-append n (s ∷ steps) step h e =
      (h.0, Numbered-append (suc n) steps step h.1 (omega arith))

  pub call_lines-append :
      (steps : List (AgentStep V)) (step : AgentStep V)
      → call_lines (map transcript_line (steps ++ step ∷ []))
        ≡ call_lines (map transcript_line steps) + counts_call step.kind
  call_lines-append [] step = omega arith
  call_lines-append (s ∷ steps) step = omega (arith, call_lines-append steps step)

  pub calls_among-append :
      (steps : List (AgentStep V)) (step : AgentStep V)
      → calls_among (steps ++ step ∷ []) ≡ calls_among steps + counts_call step.kind
  calls_among-append [] step = omega arith
  calls_among-append (s ∷ steps) step = omega (arith, calls_among-append steps step)

  pub lines-append :
      (steps : List (AgentStep V)) (step : AgentStep V)
      → length (map transcript_line (steps ++ step ∷ [])) ≡ suc (length (map transcript_line steps))
  lines-append [] step = refl
  lines-append (s ∷ steps) step = omega (arith, lines-append steps step)
