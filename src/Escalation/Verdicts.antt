-- ===== src/Escalation/Verdicts.antt =====
-- When a person is called, and that a reply reaches the customer in any case.
use nexa_assist.Common.{
  ℕ, ◌+◌, String, ◌≡◌, Bool, true, not, Option, some, List, [], ◌∷◌, ltb, leb, ◌==◌, ◌&&◌,
  if◌then◌else◌, is_some, arith, nat_eq,
}
use nexa_assist.Intent.{IntentCategory, IntentAnalysis, category_key}
use nexa_assist.Policy.{PolicyRule, block}
use nexa_assist.Policy.Enforcement.{decision}
use nexa_assist.Routing.{IntentRouter, RoutedReply, route}
use nexa_assist.Routing.Replies.{response, route_blocked}
use nexa_assist.Escalation.{
  EscalationReason, unresolved, low_confidence, uncategorised, policy, complaint, EscalationContext,
  reasons_of, evaluate, ReviewItem, consider, record_item, with_notice,
}

-- How often a reason is given.
abbrev pub index : EscalationReason → ℕ
index unresolved = 0
index low_confidence = 1
index uncategorised = 2
index policy = 3
index complaint = 4

abbrev pub gives : EscalationReason → List EscalationReason → ℕ
gives reason [] = 0
gives reason (r ∷ reasons) =
    (if nat_eq (index r) (index reason) then 1 else 0) + gives reason reasons

-- What calls for each reason.
abbrev pub cause : ℕ → EscalationContext → EscalationReason → Bool
cause min_confidence c unresolved = not c.handled
cause min_confidence c complaint = c.analysis.intent == IntentCategory.complaint
cause min_confidence c uncategorised = c.analysis.intent == IntentCategory.other
cause min_confidence c low_confidence =
    not (c.analysis.intent == IntentCategory.other) && ltb c.analysis.confidence min_confidence
cause min_confidence c policy = c.policy_modified

-- Each reason is given once if its cause holds and not at all otherwise, so several can be given
-- together; `low_confidence` and `uncategorised` never are.
pub evaluate_gives :
    (min_confidence : ℕ) (c : EscalationContext) (reason : EscalationReason)
    → gives reason (evaluate min_confidence c).reasons
      ≡ (if cause min_confidence c reason then 1 else 0)
unfolding evaluate reasons_of
evaluate_gives min_confidence c unresolved = ground arith
evaluate_gives min_confidence c low_confidence = ground arith
evaluate_gives min_confidence c uncategorised = ground arith
evaluate_gives min_confidence c policy = ground arith
evaluate_gives min_confidence c complaint = ground arith

-- A request stays with the system exactly when it was handled, is of a category other than
-- `complaint` and `other`, was classified with enough confidence and kept its reply.
pub evaluate_escalates :
    (min_confidence : ℕ) (c : EscalationContext)
    → (evaluate min_confidence c).escalate
      ≡ not (
          c.handled
          && not (c.analysis.intent == IntentCategory.complaint)
          && not (c.analysis.intent == IntentCategory.other)
          && leb min_confidence c.analysis.confidence
          && not c.policy_modified)
unfolding evaluate reasons_of
evaluate_escalates min_confidence c = ground arith

module _ {C T I : Type 0} (enqueue : ReviewItem T → Option I) (min_confidence : ℕ)
    (message : String) (ticket_id : Option T) where
  -- Losing the queue entry never loses the reply: whether or not the item can be stored, the reply, the
  -- escalation and its reasons are the same, and only `queued` and the identifier tell.
  pub consider_unqueued :
      (other_queue : ReviewItem T → Option I) (routed : RoutedReply C)
      → let r = consider enqueue min_confidence message routed ticket_id in
        let s = consider other_queue min_confidence message routed ticket_id in
        (r.reply ≡ s.reply)
        × (r.escalated ≡ s.escalated)
        × (r.reasons ≡ s.reasons)
        × (r.queued ≡ is_some r.review_id)
  unfolding consider
  consider_unqueued other_queue routed = ground arith

  -- A reply that policy blocked is always escalated, as unresolved and for policy, and a review item is
  -- asked for.
  pub consider_blocked :
      (router : IntentRouter C) (analysis : IntentAnalysis) (rules : List PolicyRule)
      → router.enforcer ≡ some rules
      → (let r = response router message analysis in
          decision rules message analysis r.reply r.handled).action
        ≡ block
      → let routed = route router message analysis in
        let r = consider enqueue min_confidence message routed ticket_id in
        (r.escalated ≡ true)
        × (gives unresolved r.reasons ≡ 1)
        × (gives policy r.reasons ≡ 1)
        × (r.review_id ≡ record_item enqueue message routed (some unresolved) ticket_id)
  unfolding consider evaluate reasons_of
  consider_blocked router analysis rules h b =
      ground (arith, route_blocked router message analysis rules h b)

  -- A reply that policy changed is always escalated, and carries the notice.
  pub consider_modified :
      (routed : RoutedReply C)
      → routed.policy_modified ≡ true
      → let r = consider enqueue min_confidence message routed ticket_id in
        (r.escalated ≡ true) × (r.reply ≡ with_notice routed.reply)
  unfolding consider evaluate reasons_of
  consider_modified routed h = ground arith
