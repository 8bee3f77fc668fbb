-- ===== src/Escalation.antt =====
-- backend/app/escalation/criteria.py and handoff.py: when a request needs a person, and handing it
-- over. The review queue's database is a parameter: recording an item gives its identifier, or
-- `none` where the driver raised. Log lines are left out.
pub mod Verdicts
mod Tests
use nexa_assist.Common.{
  ℕ, String, Bool, true, false, not, Option, none, some, List, [], ◌∷◌, ◌++◌, ltb, ◌==◌,
  if◌then◌else◌, is_some,
}
use nexa_assist.Names.{codes, ◌+++◌}
use nexa_assist.Text.{rstrip, lowered, occurs}
use nexa_assist.Intent.{IntentCategory, IntentAnalysis, category_key}
use nexa_assist.Routing.{RoutedReply}

pub data EscalationReason : Type 0 where
  unresolved low_confidence uncategorised policy complaint : EscalationReason

pub record EscalationContext : Type 0 where
  pub message : String
  pub analysis : IntentAnalysis
  pub handled : Bool
  pub policy_modified : Bool
  pub policy_rule : Option String

pub record EscalationVerdict : Type 0 where
  pub escalate : Bool
  pub reasons : List EscalationReason

-- `EscalationVerdict.primary`
unfoldable pub primary : EscalationVerdict → Option EscalationReason
primary v = elim v.reasons [ [] ↦ none | reason ∷ _ ↦ some reason ]

-- reasons.append(reason), under a condition
abbrev pub when : Bool → EscalationReason → List EscalationReason
when b reason = if b then reason ∷ [] else []

abbrev pub any_reason : List EscalationReason → Bool
any_reason [] = false
any_reason (_ ∷ _) = true

unfoldable pub reasons_of : ℕ → EscalationContext → List EscalationReason
reasons_of min_confidence c =
    when (not c.handled) unresolved
    ++ (when (c.analysis.intent == IntentCategory.complaint) complaint
        ++ ((if c.analysis.intent == IntentCategory.other
              then uncategorised ∷ []
              else when (ltb c.analysis.confidence min_confidence) low_confidence)
            ++ when c.policy_modified policy))

unfoldable pub evaluate : ℕ → EscalationContext → EscalationVerdict
evaluate min_confidence c =
    let reasons = reasons_of min_confidence c in
    record { escalate = any_reason reasons; reasons = reasons }

pub record HandoffResult (Item : Type 0) : Type 0 where
  pub reply : String
  pub escalated : Bool
  pub reasons : List EscalationReason
  pub review_id : Option Item
  pub queued : Bool

-- What `_record` stores.
pub record ReviewItem (Ticket : Type 0) : Type 0 where
  pub message : String
  pub intent : IntentCategory
  pub reason : EscalationReason
  pub proposed_reply : String
  pub ticket_id : Option Ticket

-- reason or EscalationReason.UNRESOLVED
abbrev pub or_unresolved : Option EscalationReason → EscalationReason
or_unresolved none = unresolved
or_unresolved (some reason) = reason

abbrev pub handoff_notice : String
handoff_notice = " A support agent will follow up with you."

-- `_with_notice`. No character beyond ASCII has a lower case among the letters of the phrase, so that
-- lowering the ASCII letters gives the same answer.
unfoldable pub with_notice : String → String
unfolding rstrip
with_notice reply =
    if occurs (codes "support agent") (lowered (codes reply))
    then reply
    else rstrip reply +++ handoff_notice

module _ {C : Type 0} where
  -- `_analysis_of`
  abbrev pub analysis_of : RoutedReply C → IntentAnalysis
  analysis_of routed = record {
    intent = routed.decision.intent;
    confidence = routed.decision.confidence;
    reason = "routed";
  }

  abbrev pub context_of : String → RoutedReply C → EscalationContext
  context_of message routed = record {
    message = message;
    analysis = analysis_of routed;
    handled = routed.handled;
    policy_modified = routed.policy_modified;
    policy_rule = routed.policy_rule;
  }

  -- The arguments of `enqueue` in `_record`.
  abbrev pub item_of :
      {T : Type 0} → String → RoutedReply C → Option EscalationReason → Option T → ReviewItem T
  item_of message routed reason ticket_id = record {
    message = message;
    intent = routed.decision.intent;
    reason = or_unresolved reason;
    proposed_reply = routed.reply;
    ticket_id = ticket_id;
  }

  -- The item that `consider` asks for, if it escalates.
  abbrev pub item_for : {T : Type 0} → ℕ → String → RoutedReply C → Option T → ReviewItem T
  item_for min_confidence message routed ticket_id =
      item_of message routed (primary (evaluate min_confidence (context_of message routed)))
        ticket_id

module _ {C T I : Type 0} (enqueue : ReviewItem T → Option I) where
  -- `_record`: the identifier of the stored item, if it could be stored
  abbrev pub record_item : String → RoutedReply C → Option EscalationReason → Option T → Option I
  record_item message routed reason ticket_id = enqueue (item_of message routed reason ticket_id)

  unfoldable pub consider : ℕ → String → RoutedReply C → Option T → HandoffResult I
  unfolding primary
  consider min_confidence message routed ticket_id =
      let verdict = evaluate min_confidence (context_of message routed) in
      let stored = record_item message routed (primary verdict) ticket_id in
      if verdict.escalate
      then record {
        reply = with_notice routed.reply;
        escalated = true;
        reasons = verdict.reasons;
        review_id = stored;
        queued = is_some stored;
      }
      else record {
        reply = routed.reply;
        escalated = false;
        reasons = [];
        review_id = none;
        queued = false;
      }
