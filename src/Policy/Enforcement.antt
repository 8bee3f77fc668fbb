-- ===== src/Policy/Enforcement.antt =====
-- What the enforcer sends: the handler cannot overrule a decision of the engine.
use nexa_assist.Common.{
  String, ◌≡◌, refl, Bool, true, false, Option, List, arith, ==_iff, string_key, ◌==◌, not,
}
use nexa_assist.Intent.{IntentAnalysis}
use nexa_assist.Policy.{
  PolicyAction, allow, block, replace, PolicyContext, PolicyOutcome, PolicyRule, PolicyEvaluation,
  evaluate, blocked_reply, EnforcedReply, replacement_of, apply, enforce,
}

abbrev pub context_of : String → IntentAnalysis → String → Bool → PolicyContext
context_of message analysis proposed handled = record {
  message = message;
  analysis = analysis;
  proposed_reply = proposed;
  handled = handled;
}

-- What is sent, whether it counts as modified and as handled, by the engine's decision.
abbrev pub Sends : PolicyAction → Option String → String → Bool → EnforcedReply → Type 0
Sends allow replacement proposed handled r =
    (r.reply ≡ proposed) × (r.modified ≡ false) × (r.handled ≡ handled)
Sends block replacement proposed handled r =
    (r.reply ≡ blocked_reply) × (r.modified ≡ true) × (r.handled ≡ false)
Sends replace replacement proposed handled r =
    (r.reply ≡ replacement_of replacement)
    × (r.modified ≡ not (r.reply == proposed))
    × (r.handled ≡ handled)

apply-Sends :
    (action : PolicyAction) (e : PolicyEvaluation) (proposed : String) (handled : Bool)
    → e.outcome.action ≡ action
    → Sends action e.outcome.replacement proposed handled (apply e proposed handled)
unfolding apply
apply-Sends allow e proposed handled h = (ground arith, ground arith, ground arith)
apply-Sends block e proposed handled h = (ground arith, ground arith, ground arith)
apply-Sends replace e proposed handled h = (ground arith, ground arith, ground arith)

module _ (rules : List PolicyRule) (message : String) (analysis : IntentAnalysis)
    (proposed : String) (handled : Bool) where
  abbrev pub decision : PolicyOutcome
  decision = (evaluate rules (context_of message analysis proposed handled)).outcome

  -- An allowed reply is sent as proposed; a blocked one is replaced by the fixed reply and is not
  -- handled, whatever the handler said; a replaced one is the rule's, and counts as modified if it
  -- differs. The action, the rule and the original reply are on record.
  pub enforce-Sends :
      let r = enforce rules message analysis proposed handled in
      Sends decision.action decision.replacement proposed handled r
      × (r.action ≡ decision.action)
      × (r.rule ≡ decision.rule)
      × (r.original_reply ≡ proposed)
  unfolding enforce apply
  enforce-Sends = (apply-Sends decision.action _ proposed handled refl, refl, refl, refl)

  -- A reply that is not marked as modified is the one that was proposed.
  pub enforce_unmodified :
      (enforce rules message analysis proposed handled).modified ≡ false
      → (enforce rules message analysis proposed handled).reply ≡ proposed
  unfolding enforce apply
  enforce_unmodified h =
      ground (
        arith,
        ==_iff (replacement_of decision.replacement) proposed,
        ==_iff blocked_reply proposed,
      )

  pub enforce_blocked :
      decision.action ≡ block
      → let r = enforce rules message analysis proposed handled in
        (r.reply ≡ blocked_reply) × (r.modified ≡ true) × (r.handled ≡ false)
  unfolding enforce
  enforce_blocked b = apply-Sends block _ proposed handled b
