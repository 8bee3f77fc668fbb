-- ===== src/Knowledge/Handlers.antt =====
-- backend/app/routing/intent_handlers.py: the handlers that the router chooses from. What a handler does
-- is `none` where it raises; the router's own `IntentHandler` has a handler that does not.
use nexa_assist.Common.{
  String, true, false, Option, none, some, [], if◌then◌else◌, ℕ, ◌≡◌, ◌⊎◌, inl, inr, arith,
  Option-cases, Bool-cases,
}
use nexa_assist.Names.{◌+++◌}
use nexa_assist.Intent.{IntentAnalysis}
use nexa_assist.Agent.{AgentOutcome}
use nexa_assist.Routing.{HandlerResponse}
use nexa_assist.Knowledge.Answering.{Citation, GroundedAnswer}

abbrev pub unresolved : String
unresolved =
    "I could not find an answer to that in our documentation. A support agent can pick this up from here."

abbrev pub Handling : Type 0
Handling = String → IntentAnalysis → Option (HandlerResponse Citation)

pub record Handler : Type 0 where
  pub name : String
  pub handle : Handling

-- What `KnowledgeBaseHandler` makes of an answer.
abbrev pub documented_response : Option GroundedAnswer → Option (HandlerResponse Citation)
documented_response none = none
documented_response (some a) = some (record {
  reply = a.answer;
  handled = a.answered;
  handler = "knowledge_base";
  citations = a.citations;
})

-- `KnowledgeBaseHandler`, over `AnswerService.answer`
unfoldable pub knowledge_base : (String → ℕ → Option GroundedAnswer) → ℕ → Handler
knowledge_base answers top_k = record {
  name = "knowledge_base";
  handle = λ message analysis. documented_response (answers message top_k);
}

-- `AgentHandler`, over `AgentLoop.run`
unfoldable pub agent : (String → AgentOutcome) → Handler
agent run = record {
  name = "agent";
  handle = λ message analysis. some (record {
    reply = (run message).answer;
    handled = (run message).completed;
    handler = "agent";
    citations = [];
  });
}

-- What the first handler answered, or else what the second one does.
abbrev pub first_handled :
    Option (HandlerResponse Citation)
    → Option (HandlerResponse Citation)
    → Option (HandlerResponse Citation)
first_handled none otherwise = none
first_handled (some r) otherwise = if r.handled then some r else otherwise

-- `DocumentedFirstHandler`
unfoldable pub documented_first : Handler → Handler → Handler
unfolding ◌+++◌
documented_first documented otherwise = record {
  name = documented.name +++ ("+" +++ otherwise.name);
  handle = λ message analysis.
      first_handled (documented.handle message analysis) (otherwise.handle message analysis);
}

-- `FallbackHandler`
unfoldable pub fallback : Handler
fallback = record {
  name = "fallback";
  handle = λ message analysis.
      some (record { reply = unresolved; handled = false; handler = "fallback"; citations = [] });
}

-- A documented question is answered from the documentation alone, with what that answer cites; any
-- other goes to the agent, whose reply is marked as its own and cites nothing.
pub documented_first_lem :
    (answers : String → ℕ → Option GroundedAnswer) (top_k : ℕ) (run : String → AgentOutcome)
    (message : String) (analysis : IntentAnalysis) (r : HandlerResponse Citation)
    → (documented_first (knowledge_base answers top_k) (agent run)).handle message analysis ≡ some r
    → (a : GroundedAnswer) × (answers message top_k ≡ some a)
      × ((a.answered ≡ true)
            × (r ≡ record {
              reply = a.answer;
              handled = true;
              handler = "knowledge_base";
              citations = a.citations;
            })
          ⊎ (a.answered ≡ false)
            × (r ≡ record {
              reply = (run message).answer;
              handled = (run message).completed;
              handler = "agent";
              citations = [];
            }))
unfolding documented_first knowledge_base agent
documented_first_lem answers top_k run message analysis r h =
    elim (Option-cases (answers message top_k)) [
      | inl failed ↦ absurd (ground arith)
      | inr (a, given) ↦ elim (Bool-cases a.answered) [
        | inl yes_there ↦ (a, given, inl (yes_there, ground arith))
        | inr not_there ↦ (a, given, inr (not_there, ground arith))
      ]
    ]
