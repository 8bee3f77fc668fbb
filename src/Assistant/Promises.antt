-- ===== src/Assistant/Promises.antt =====
-- What becomes of a reply that promises money, under the shipped rules.
use nexa_assist.Common.{
  ℕ, String, ◌≡◌, refl, ap, ◌∙◌, Bool, true, false, Option, none, some, [], ok, arith,
}
use nexa_assist.Auth.{OwnerScope}
use nexa_assist.Intent.{IntentAnalysis}
use nexa_assist.Policy.Patterns.{commits}
use nexa_assist.Policy.Shipped.{review_reply, default_rules, enforce-commits, commits-review_reply}
use nexa_assist.Routing.Replies.{response, route_enforced}
use nexa_assist.Escalation.{with_notice}
use nexa_assist.Escalation.Verdicts.{consider_modified}
use nexa_assist.Assistant.{
  AssistantReply, AssistantService, respond, reply_of, routed_for, handoff_for,
}
use nexa_assist.Assistant.Exchanges.{respond-Answered}

module _ {C S T I : Type 0} (service : AssistantService C S T I) (is_alnum : ℕ → Bool) where
  abbrev HandedOn : AssistantReply C I → Type 0
  HandedOn r =
      (r.reply ≡ "I have passed this to a support agent, who will confirm the details with you.")
      × (commits is_alnum r.reply ≡ false)
      × (r.citations ≡ [])
      × (r.policy_modified ≡ true)
      × (r.escalated ≡ true)

  with_notice-review_reply : with_notice review_reply ≡ review_reply
  unfolding with_notice
  with_notice-review_reply = refl

  reply_of_promise :
      (s : S) (message : String) (id : Option String) (analysis : IntentAnalysis)
      → service.router.enforcer ≡ some (default_rules is_alnum)
      → commits is_alnum (response service.router message analysis).reply ≡ true
      → HandedOn (
          reply_of id
            (routed_for service message analysis)
            (handoff_for service s message analysis))
  reply_of_promise s message id analysis shipped promise =
      let given = response service.router message analysis in
      let routed =
        route_enforced service.router message analysis (default_rules is_alnum) shipped in
      let sent = (enforce-commits is_alnum message analysis given.reply given.handled).1 promise in
      let modified : (routed_for service message analysis).policy_modified ≡ true =
        routed.2 ∙ sent.1 in
      let called =
        consider_modified (λ item. (service.enqueue s item).1) service.min_confidence message none
          (routed_for service message analysis) modified in
      let reply : (handoff_for service s message analysis).reply ≡ review_reply =
        called.1 ∙ (ap with_notice (routed.0 ∙ sent.0) ∙ with_notice-review_reply) in
      (
        reply,
        ap (commits is_alnum) reply ∙ commits-review_reply is_alnum,
        routed.3 sent.1,
        modified,
        called.0,
      )

  -- Under the shipped rules a reply of the handler in which one of the commitment patterns is found never
  -- reaches the customer: an answer is then the review reply, in which none is found, to which no second
  -- notice is added; it cites nothing, is marked as modified and is escalated.
  pub respond_promise :
      (s s' : S) (message : String) (id : Option String) (scope : Option OwnerScope)
      (analysis : IntentAnalysis) (r : AssistantReply C I)
      → service.analyze message ≡ some analysis
      → service.router.enforcer ≡ some (default_rules is_alnum)
      → commits is_alnum (response service.router message analysis).reply ≡ true
      → respond service s message id scope ≡ (s', ok r)
      → (r.reply ≡ "I have passed this to a support agent, who will confirm the details with you.")
        × (commits is_alnum r.reply ≡ false)
        × (r.citations ≡ [])
        × (r.policy_modified ≡ true)
        × (r.escalated ≡ true)
  respond_promise s s' message id scope analysis r known shipped promise h =
      let a = respond-Answered service s s' message id scope r h in
      let same : a.analysis ≡ analysis = ground (arith, a.known) in
      rw (a.reply) (rw (same) (reply_of_promise a.between message id analysis shipped promise))
