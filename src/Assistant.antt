-- ===== src/Assistant.antt =====
-- backend/app/services/assistant.py: `AssistantService`, the pipeline that answers one message. It
-- composes the conversations, the router and the handoff of the modules Conversations, Routing and
-- Escalation. The classifier is a parameter: `none` stands for an error of the model. So are the
-- exception that a handler may raise and the review queue, whose tables are not those of the
-- conversations. The conversation service is present. Log lines are left out.
pub mod Exchanges
pub mod Promises
pub mod Tests
use nexa_assist.Common.{
  ℕ, String, Bool, Option, none, some, List, [], ◌∷◌, Result, ok, err, ◌>>=◌, ◌>>◌, ◌≡◌,
  if◌then◌else◌,
}
use nexa_assist.Auth.{OwnerScope}
use nexa_assist.Context.{MessageRole, customer, assistant}
use nexa_assist.Conversations.{MessageRow, Session, Fault, llm_error, append}
use nexa_assist.Escalation.{EscalationReason, ReviewItem, HandoffResult, item_for, consider}
use nexa_assist.Intent.{IntentCategory, IntentAnalysis}
use nexa_assist.Routing.{IntentRouter, IntentHandler, RouteReason, RoutedReply, chosen, route}

pub record AssistantReply (C I : Type 0) : Type 0 where
  pub reply : String
  pub intent : IntentCategory
  pub confidence : ℕ
  pub handler : String
  pub route_reason : RouteReason
  pub fallback : Bool
  pub handled : Bool
  pub policy_rule : Option String
  pub policy_modified : Bool
  pub escalated : Bool
  pub escalation_reasons : List EscalationReason
  pub review_id : Option I
  pub conversation_id : Option String
  pub citations : List C

-- The reply that `respond` returns.
abbrev pub reply_of :
    {C I : Type 0} → Option String → RoutedReply C → HandoffResult I → AssistantReply C I
reply_of conversation_id routed handoff = record {
  reply = handoff.reply;
  intent = routed.decision.intent;
  confidence = routed.decision.confidence;
  handler = routed.decision.handler;
  route_reason = routed.decision.reason;
  fallback = routed.decision.fallback;
  handled = routed.handled;
  policy_rule = routed.policy_rule;
  policy_modified = routed.policy_modified;
  escalated = handoff.escalated;
  escalation_reasons = handoff.reasons;
  review_id = handoff.review_id;
  conversation_id = conversation_id;
  citations = routed.citations;
}

-- The pieces that the service composes.
pub record AssistantService (C S T I : Type 0) : Type 0 where
  pub session : Session C S
  pub analyze : String → Option IntentAnalysis
  pub router : IntentRouter C
  -- the exception that leaves a handler, if one does
  pub raises : IntentHandler C → String → IntentAnalysis → Option Fault
  -- `ReviewQueue.enqueue`: the state of the database comes with its answer, also where it fails
  pub enqueue : S → ReviewItem T → S × Option I
  -- a review item is in a table of its own
  pub enqueue_law :
      (s : S) (item : ReviewItem T) → session.tables (enqueue s item).0 ≡ session.tables s
  pub min_confidence : ℕ

module _ {C S T I : Type 0} (service : AssistantService C S T I) where
  -- `_record`, under `conversation_id is not None`
  unfoldable pub record_turn :
      S → Option String → MessageRole → String → List C → Option OwnerScope → Result Fault S
  record_turn s none role content citations scope = ok s
  record_turn s (some id) role content citations scope = do
    (m, s') ← append service.session s id role content citations scope
    ok s'

  -- What is sent for a message with this classification.
  abbrev pub routed_for : String → IntentAnalysis → RoutedReply C
  routed_for message analysis = route service.router message analysis

  abbrev pub handoff_for : S → String → IntentAnalysis → HandoffResult I
  handoff_for s message analysis =
      consider (λ item. (service.enqueue s item).1) service.min_confidence message
        (routed_for message analysis) none

  -- The state after the handoff, which files a review item if it escalates.
  unfoldable pub filed : S → String → IntentAnalysis → S
  filed s message analysis =
      if (handoff_for s message analysis).escalated
      then (service.enqueue s
          (item_for service.min_confidence message (routed_for message analysis) none)).0
      else s

  -- The state after the call comes with its result, an error included.
  unfoldable pub respond :
      S → String → Option String → Option OwnerScope → S × Result Fault (AssistantReply C I)
  unfolding record_turn filed
  respond s message id scope = elim (record_turn s id customer message [] scope) [
    | err e ↦ (s, err e)
    | ok s1 ↦ elim (service.analyze message) [
      | none ↦ (s1, err llm_error)
      | some analysis ↦ elim (service.raises (chosen service.router analysis) message analysis) [
        | some e ↦ (s1, err e)
        | none ↦
            let routed = routed_for message analysis in
            let handoff = handoff_for s1 message analysis in
            let s2 = filed s1 message analysis in
            elim (record_turn s2 id assistant handoff.reply routed.citations scope) [
              | err e ↦ (s2, err e)
              | ok s3 ↦ (s3, ok (reply_of id routed handoff))
            ]
      ]
    ]
  ]
