-- ===== src/Policy/Shipped.antt =====
-- backend/app/policy/library.py: the rules that are shipped. The patterns are those of Policy.Patterns.
use nexa_assist.Common.{
  ℕ, String, ◌≡◌, ◌∙◌, ap, refl, inl, inr, Bool, true, false, not, ◌&&◌, Option, none, some, List,
  [], ◌∷◌, arith, string_key, ◌==◌, ==_iff, if◌then◌else◌, Bool-cases,
}
use nexa_assist.Intent.{IntentCategory, IntentAnalysis, category_key}
use nexa_assist.Policy.Patterns.{commits}
use nexa_assist.Policy.{PolicyOutcome, PolicyRule, replace, evaluate, evaluate_from, apply, enforce}

abbrev pub review_reply : String
review_reply = "I have passed this to a support agent, who will confirm the details with you."

-- PolicyOutcome(action=REPLACE, rule=self.name, reason=…, replacement=REVIEW_REPLY)
abbrev pub handed_on : String → String → PolicyOutcome
handed_on name reason = record {
  action = replace;
  rule = name;
  reason = reason;
  replacement = some review_reply;
}

abbrev pub outcome_if : Bool → PolicyOutcome → Option PolicyOutcome
outcome_if b outcome = if b then some outcome else none

-- `ComplaintsGoToAHuman`
unfoldable pub complaints_go_to_a_human : PolicyRule
complaints_go_to_a_human = record {
  name = "complaints_go_to_a_human";
  evaluate = λ context.
      outcome_if (context.analysis.intent == IntentCategory.complaint)
        (handed_on "complaints_go_to_a_human" "Complaints are answered by a person.");
}

-- `UnresolvedRequestsAreNotClaimedAsAnswered`
unfoldable pub unresolved_requests_reach_a_human : PolicyRule
unresolved_requests_reach_a_human = record {
  name = "unresolved_requests_reach_a_human";
  evaluate = λ context.
      outcome_if (not context.handled) (
        handed_on "unresolved_requests_reach_a_human" "The handler could not resolve the request.");
}

module _ (is_alnum : ℕ → Bool) where
  -- The review reply commits to nothing.
  pub commits-review_reply : commits is_alnum review_reply ≡ false
  unfolding commits
  commits-review_reply = refl

  -- `NoFinancialCommitments`
  unfoldable pub no_financial_commitments : PolicyRule
  no_financial_commitments = record {
    name = "no_financial_commitments";
    evaluate = λ context.
        outcome_if (commits is_alnum context.proposed_reply)
          (handed_on "no_financial_commitments" "The reply committed to a financial outcome.");
  }

  -- `DEFAULT_RULES`
  unfoldable pub default_rules : List PolicyRule
  unfolding no_financial_commitments complaints_go_to_a_human unresolved_requests_reach_a_human
  default_rules =
      no_financial_commitments ∷ complaints_go_to_a_human ∷ unresolved_requests_reach_a_human ∷ []

  -- What the shipped rules leave to the system.
  abbrev pub may_answer : IntentAnalysis → String → Bool → Bool
  may_answer analysis proposed handled =
      not (commits is_alnum proposed)
      && not (analysis.intent == IntentCategory.complaint)
      && handled

  -- Under the shipped rules a reply is sent as it is if it commits to nothing, the message is no complaint
  -- and the handler resolved it; in every other case the review reply is sent.
  pub enforce-default_rules :
      (message : String) (analysis : IntentAnalysis) (proposed : String) (handled : Bool)
      → let r = enforce default_rules message analysis proposed handled in
        (r.reply ≡ (if may_answer analysis proposed handled then proposed else review_reply))
        × (r.handled ≡ handled)
        × (r.modified ≡ not (r.reply == proposed))
  unfolding enforce apply evaluate evaluate_from default_rules
  enforce-default_rules message analysis proposed handled = ground (arith, ==_iff proposed proposed)

  -- Under the shipped rules no reply that is sent commits to anything; in place of one that did the
  -- review reply is sent, marked as modified.
  pub enforce-commits :
      (message : String) (analysis : IntentAnalysis) (proposed : String) (handled : Bool)
      → let r = enforce default_rules message analysis proposed handled in
        (commits is_alnum r.reply ≡ false)
        × (commits is_alnum proposed ≡ true → (r.reply ≡ review_reply) × (r.modified ≡ true))
  enforce-commits message analysis proposed handled =
      let safe = commits-review_reply in
      let sends = enforce-default_rules message analysis proposed handled in
      (sent_commits safe sends.0, λ promise. promised safe promise sends.0 sends.2)
    where
      sent_commits :
          commits is_alnum review_reply ≡ false
          → (enforce default_rules message analysis proposed handled).reply
            ≡ (if may_answer analysis proposed handled then proposed else review_reply)
          → commits is_alnum (enforce default_rules message analysis proposed handled).reply ≡ false
      sent_commits safe e = elim (Bool-cases (may_answer analysis proposed handled)) [
        | inl answers ↦ rw (e) (rw (answers) (ground arith))
        | inr hands_on ↦ rw (e) (rw (hands_on) safe)
      ]

      differs :
          commits is_alnum review_reply ≡ false
          → commits is_alnum proposed ≡ true
          → (review_reply == proposed) ≡ false
      differs safe promise = elim (Bool-cases (review_reply == proposed)) [
        | inr other ↦ other
        | inl same ↦
            let e : commits is_alnum review_reply ≡ commits is_alnum proposed =
              ap (commits is_alnum) ((==_iff review_reply proposed).0 same) in
            absurd (ground (arith, e, safe, promise))
      ]

      promised :
          commits is_alnum review_reply ≡ false
          → commits is_alnum proposed ≡ true
          → (enforce default_rules message analysis proposed handled).reply
            ≡ (if may_answer analysis proposed handled then proposed else review_reply)
          → (enforce default_rules message analysis proposed handled).modified
            ≡ not ((enforce default_rules message analysis proposed handled).reply == proposed)
          → ((enforce default_rules message analysis proposed handled).reply ≡ review_reply)
            × ((enforce default_rules message analysis proposed handled).modified ≡ true)
      promised safe promise e m =
          let hands_on : may_answer analysis proposed handled ≡ false = rw (promise) refl in
          let reply : (enforce default_rules message analysis proposed handled).reply
              ≡ review_reply =
            e ∙ rw (hands_on) refl in
          (reply, m ∙ rw (reply) (rw (differs safe promise) refl))
