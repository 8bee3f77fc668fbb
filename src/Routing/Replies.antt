-- ===== src/Routing/Replies.antt =====
-- What reaches the customer: policy has the last word, and sources go only with their own text.
use nexa_assist.Common.{String, ◌≡◌, true, false, none, some, List, [], arith}
use nexa_assist.Intent.{IntentAnalysis}
use nexa_assist.Policy.{PolicyRule, block, blocked_reply, enforce}
use nexa_assist.Policy.Enforcement.{decision, enforce_blocked, enforce_unmodified}
use nexa_assist.Routing.{HandlerResponse, IntentRouter, chosen, route}

module _ {C : Type 0} (router : IntentRouter C) (message : String) (analysis : IntentAnalysis) where
  abbrev pub response : HandlerResponse C
  response = (chosen router analysis).handle message analysis

  -- Without an enforcer the handler's own reply is sent, with its sources.
  pub route_unenforced :
      router.enforcer ≡ none
      → let r = route router message analysis in
        (r.reply ≡ response.reply)
        × (r.handled ≡ response.handled)
        × (r.citations ≡ response.citations)
        × (r.policy_modified ≡ false)
        × (r.decision.handler ≡ response.handler)
  unfolding route
  route_unenforced h = ground arith

  -- With an enforcer: a reply that a rule blocks is not sent, the fixed reply is sent in its place,
  -- the message counts as not handled and no source is cited.
  pub route_blocked :
      (rules : List PolicyRule)
      → router.enforcer ≡ some rules
      → (decision rules message analysis response.reply response.handled).action ≡ block
      → let r = route router message analysis in
        (r.reply ≡ blocked_reply)
        × (r.handled ≡ false)
        × (r.policy_modified ≡ true)
        × (r.citations ≡ [])
  unfolding route
  route_blocked rules h b =
      ground (arith, enforce_blocked rules message analysis response.reply response.handled b)

  -- With an enforcer: sources are cited only beside the very reply that the handler gave.
  pub route_cited :
      (rules : List PolicyRule)
      → router.enforcer ≡ some rules
      → (route router message analysis).policy_modified ≡ false
      → ((route router message analysis).reply ≡ response.reply)
        × ((route router message analysis).citations ≡ response.citations)
  unfolding route
  route_cited rules h m = (
    ground (arith, enforce_unmodified rules message analysis response.reply response.handled),
    ground arith,
  )

  -- With an enforcer: what is sent is what it made of the handler's reply, and sources are cited only if it
  -- left the reply alone.
  pub route_enforced :
      (rules : List PolicyRule)
      → router.enforcer ≡ some rules
      → let r = route router message analysis in
        let e = enforce rules message analysis response.reply response.handled in
        (r.reply ≡ e.reply)
        × (r.handled ≡ e.handled)
        × (r.policy_modified ≡ e.modified)
        × (e.modified ≡ true → r.citations ≡ [])
  unfolding route
  route_enforced rules h = (ground arith, ground arith, ground arith, λ m. ground arith)
