-- ===== src/Routing.antt =====
-- backend/app/routing/registry.py and router.py: the table of handlers, the choice of one and the
-- reply that is sent. What a handler answers is a function of the message and its classification;
-- confidence is on the scale of the threshold. Log lines are left out.
pub mod Decisions
pub mod Replies
pub mod Tests
use nexa_assist.Common.{
  ℕ, String, Bool, true, false, not, Option, none, some, List, [], ◌∷◌, Result, ok, err, ◌>>=◌,
  ◌>>◌, raise_if, ltb, ◌==◌, if◌then◌else◌, string_key, is_some,
}
use nexa_assist.Dict.{Dict, lookup, insert, has_key}
use nexa_assist.Intent.{IntentCategory, other, IntentAnalysis, categories, category_key}
use nexa_assist.Policy.{PolicyRule, EnforcedReply, enforce}

-- A citation is what the documents' schema says; the router only passes it on.
pub record HandlerResponse (C : Type 0) : Type 0 where
  pub reply : String
  pub handled : Bool
  pub handler : String
  pub citations : List C

pub record IntentHandler (C : Type 0) : Type 0 where
  pub name : String
  pub handle : String → IntentAnalysis → HandlerResponse C

pub data RouteReason : Type 0 where
  matched no_category low_confidence no_handler : RouteReason

pub record RoutingDecision : Type 0 where
  pub intent : IntentCategory
  pub confidence : ℕ
  pub handler : String
  pub reason : RouteReason
  pub fallback : Bool

pub record RoutedReply (C : Type 0) : Type 0 where
  pub decision : RoutingDecision
  pub reply : String
  pub handled : Bool
  pub policy_rule : Option String
  pub policy_modified : Bool
  pub citations : List C

pub data RoutingFault : Type 0 where
  registration : RoutingFault

module _ {C : Type 0} where
  unfoldable pub register :
      Dict IntentCategory (IntentHandler C)
      → IntentCategory
      → IntentHandler C
      → Result RoutingFault (Dict IntentCategory (IntentHandler C))
  register handlers intent handler = do
    raise_if (handler.name == "") registration
    raise_if (has_key intent handlers) registration
    ok (insert intent handler handlers)

  -- [c for c in IntentCategory if c not in self._handlers]
  unfoldable pub unmapped_among :
      List IntentCategory → Dict IntentCategory (IntentHandler C) → List IntentCategory
  unmapped_among [] handlers = []
  unmapped_among (c ∷ rest) handlers =
      let others = unmapped_among rest handlers in if has_key c handlers then others else c ∷ others

  unfoldable pub unmapped : Dict IntentCategory (IntentHandler C) → List IntentCategory
  unfolding unmapped_among
  unmapped handlers = unmapped_among categories handlers

  unfoldable pub require_complete :
      Dict IntentCategory (IntentHandler C) → Result RoutingFault (Unit {0})
  require_complete handlers = elim (unmapped handlers) [ [] ↦ ok tt | _ ∷ _ ↦ err registration ]

pub record IntentRouter (C : Type 0) : Type 0 where
  pub registry : Dict IntentCategory (IntentHandler C)
  pub fallback : IntentHandler C
  pub min_confidence : ℕ
  pub enforcer : Option (List PolicyRule)

module _ {C : Type 0} where
  -- `_to_fallback`
  abbrev pub to_fallback : IntentRouter C → IntentAnalysis → RouteReason → RoutingDecision
  to_fallback router analysis reason = record {
    intent = analysis.intent;
    confidence = analysis.confidence;
    handler = router.fallback.name;
    reason = reason;
    fallback = true;
  }

  unfoldable pub decide : IntentRouter C → IntentAnalysis → RoutingDecision
  decide router analysis =
      if analysis.intent == other
      then to_fallback router analysis no_category
      else if ltb analysis.confidence router.min_confidence
      then to_fallback router analysis low_confidence
      else elim (lookup analysis.intent router.registry) [
        | none ↦ to_fallback router analysis no_handler
        | some handler ↦ record {
          intent = analysis.intent;
          confidence = analysis.confidence;
          handler = handler.name;
          reason = matched;
          fallback = false;
        }
      ]

  -- self._registry.get(analysis.intent) or self._fallback
  abbrev pub or_fallback : IntentRouter C → Option (IntentHandler C) → IntentHandler C
  or_fallback router none = router.fallback
  or_fallback router (some handler) = handler

  unfoldable pub chosen : IntentRouter C → IntentAnalysis → IntentHandler C
  unfolding decide
  chosen router analysis =
      if (decide router analysis).fallback
      then router.fallback
      else or_fallback router (lookup analysis.intent router.registry)

  -- What `route` makes of the enforcer's reply, or of the handler's when there is no enforcer.
  abbrev pub sent : RoutingDecision → HandlerResponse C → Option EnforcedReply → RoutedReply C
  sent decision response none = record {
    decision = decision;
    reply = response.reply;
    handled = response.handled;
    policy_rule = none;
    policy_modified = false;
    citations = response.citations;
  }
  sent decision response (some enforced) = record {
    decision = decision;
    reply = enforced.reply;
    handled = enforced.handled;
    policy_rule = some enforced.rule;
    policy_modified = enforced.modified;
    citations = if enforced.modified then [] else response.citations;
  }

  abbrev pub enforced_by :
      Option (List PolicyRule) → String → IntentAnalysis → HandlerResponse C → Option EnforcedReply
  enforced_by none message analysis response = none
  enforced_by (some rules) message analysis response =
      some (enforce rules message analysis response.reply response.handled)

  unfoldable pub route : IntentRouter C → String → IntentAnalysis → RoutedReply C
  route router message analysis =
      let response = (chosen router analysis).handle message analysis in
      let decision = record (decide router analysis) { handler = response.handler } in
      sent decision response (enforced_by router.enforcer message analysis response)
