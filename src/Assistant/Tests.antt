-- ===== src/Assistant/Tests.antt =====
-- The theorems on exchanges at a concrete service, over the small database of the conversations.
use nexa_assist.Common.{
  ℕ, ◌≡◌, refl, Bool, true, string_key, false, none, some, [], ◌∷◌, ok, err, ◌⊎◌,
}
use nexa_assist.Dict.{lookup}
use nexa_assist.Auth.{permits}
use nexa_assist.Context.{customer, assistant, estimate_tokens}
use nexa_assist.Conversations.{MessageRow, append, highest, taken, llm_error, message_at}
use nexa_assist.Conversations.Positions.{InOrder}
use nexa_assist.Conversations.Tests.{Held, database, held, support}
use nexa_assist.Intent.{category_key}
use nexa_assist.Policy
use nexa_assist.Policy.{evaluate_from}
use nexa_assist.Policy.Tests.{rules}
use nexa_assist.Policy.Shipped.{default_rules}
use nexa_assist.Names.{codes}
use nexa_assist.Policy.Patterns.{commits}
use nexa_assist.Routing.{IntentRouter}
use nexa_assist.Assistant.Promises.{respond_promise}
use nexa_assist.Escalation.{consider, evaluate, reasons_of}
use nexa_assist.Routing.{chosen, route}
use nexa_assist.Routing.Tests.{router, analysis}
use nexa_assist.Assistant.{
  AssistantReply, AssistantService, respond, record_turn, reply_of, routed_for, handoff_for,
}
use nexa_assist.Assistant.Exchanges.{
  with_messages, question_row, Unanswered, respond_answered, respond_raised, respond_blocked,
  HandedOver,
}

abbrev pub service : AssistantService ℕ Held ℕ ℕ
service = record {
  session = database;
  analyze = λ message. some analysis;
  router = router;
  raises = λ handler message analysis. none;
  enqueue = λ s item. (s, some 41);
  enqueue_law = λ s item. refl;
  min_confidence = 50;
}

-- The model is down.
abbrev mute : AssistantService ℕ Held ℕ ℕ
mute = record service { analyze = λ message. none }

abbrev pub reply : AssistantReply ℕ ℕ
reply =
    reply_of (some "c1") (routed_for service "refund" analysis)
      (handoff_for service held "refund" analysis)

abbrev question : MessageRow ℕ
question = message_at database "c1" 0 customer "refund" []

abbrev pub exchange : Held
exchange =
    with_messages held
      (question ∷ message_at database "c1" 1 assistant reply.reply reply.citations ∷ [])

pub responds : respond service held "refund" (some "c1") (some support) ≡ (exchange, ok reply)
unfolding respond append lookup permits highest taken consider evaluate reasons_of route
    Policy.enforce Policy.apply Policy.evaluate evaluate_from
responds = refl

stays_mute :
    respond mute held "refund" (some "c1") (some support)
    ≡ (with_messages held (question ∷ []), err llm_error)
unfolding respond append lookup permits highest taken
stays_mute = refl

respond_answered_example :
    InOrder exchange
    × (reply.conversation_id ≡ some "c1")
    × (exchange
        ≡ with_messages held (
            question_row service "c1" 0 "refund"
            ∷ record {
              conversation_id = "c1";
              position = 1;
              role = assistant;
              content = reply.reply;
              token_estimate = estimate_tokens (codes reply.reply);
              citations = reply.citations;
            }
            ∷ []))
respond_answered_example =
    respond_answered service held exchange "refund" "c1" (some support) reply responds (λ id. refl)

respond_raised_example :
    ((with_messages held (question ∷ []) ≡ held)
      × (record_turn mute held (some "c1") customer "refund" [] (some support) ≡ err llm_error))
    ⊎ ((s1 : Held) × (record_turn mute held (some "c1") customer "refund" [] (some support) ≡ ok s1)
        × (with_messages held (question ∷ [])
            ≡ with_messages held (question_row mute "c1" 0 "refund" ∷ []))
        × Unanswered mute s1
            (with_messages held (question ∷ []))
            "refund"
            "c1"
            (some support)
            llm_error)
respond_raised_example =
    respond_raised mute held (with_messages held (question ∷ [])) "refund" "c1" (some support)
      llm_error stays_mute (λ id. refl)

respond_blocked_example : HandedOver service reply
unfolding chosen evaluate_from Policy.evaluate lookup
respond_blocked_example =
    respond_blocked service held exchange "refund" (some "c1") (some support) analysis rules reply
      refl refl refl responds

-- The shipped rules, an agent that promises, and a text of ASCII characters.
abbrev none_alnum : ℕ → Bool
none_alnum c = false

abbrev generous : IntentRouter ℕ
generous = record {
  registry = [];
  fallback = record {
    name = "agent";
    handle = λ message analysis. record {
      reply = "We will refund you.";
      handled = true;
      handler = "agent";
      citations = [];
    };
  };
  min_confidence = 50;
  enforcer = some (default_rules none_alnum);
}

abbrev shipped : AssistantService ℕ Held ℕ ℕ
shipped = record service { router = generous }

abbrev promise : AssistantReply ℕ ℕ
promise =
    reply_of (some "c1") (routed_for shipped "Hello?" analysis)
      (handoff_for shipped held "Hello?" analysis)

shipped_responds : respond shipped held "Hello?" (some "c1") (some support) ≡ (
  with_messages held (
      message_at database "c1" 0 customer "Hello?" []
      ∷ message_at database "c1" 1 assistant promise.reply promise.citations
      ∷ []),
  ok promise,
)
unfolding respond append lookup permits highest taken consider evaluate reasons_of route
    Policy.enforce Policy.apply Policy.evaluate evaluate_from default_rules commits chosen
shipped_responds = refl

respond_promise_example :
    (promise.reply
      ≡ "I have passed this to a support agent, who will confirm the details with you.")
    × (commits none_alnum promise.reply ≡ false)
    × (promise.citations ≡ [])
    × (promise.policy_modified ≡ true)
    × (promise.escalated ≡ true)
unfolding chosen lookup commits
respond_promise_example =
    respond_promise shipped none_alnum held _ "Hello?" (some "c1") (some support) analysis promise
      refl refl refl shipped_responds
