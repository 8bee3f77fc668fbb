-- ===== src/Routing/Decisions.antt =====
-- Why a message goes where it does.
use nexa_assist.Common.{
  ◌≤◌, ◌<◌, ◌≡◌, ◌≢◌, refl, true, false, none, some, List, [], ◌∷◌, ok, arith, ==_iff, ltb, ◌==◌,
  contains, List-cases, Option-cases, Bool-cases, inl, inr,
}
use nexa_assist.Dict.{Dict, lookup, has_key}
use nexa_assist.Intent.{
  IntentCategory, billing, technical_support, account, product_question, complaint, other,
  IntentAnalysis, category_key, categories,
}
use nexa_assist.Routing.{
  IntentHandler, IntentRouter, matched, no_category, low_confidence, no_handler, RoutingDecision,
  RouteReason, decide, chosen, unmapped, unmapped_among, require_complete,
}

not_other : (i : IntentCategory) → (i == other) ≡ false → i ≢ other
not_other i h e = ground (arith, ==_iff i other)

module _ {C : Type 0} (router : IntentRouter C) (analysis : IntentAnalysis) where
  -- The fallback runs, is named and is marked, for this reason.
  abbrev pub ToFallback : RoutingDecision → IntentHandler C → RouteReason → Type 0
  ToFallback d h reason =
      (d.reason ≡ reason)
      × (d.fallback ≡ true)
      × (d.handler ≡ router.fallback.name)
      × (h ≡ router.fallback)

  -- The four reasons, each with its cause, the handler that the decision names and whether that is
  -- the fallback.
  pub data Justified (d : RoutingDecision) (h : IntentHandler C) : Type 0 where
    by_category : analysis.intent ≡ other → ToFallback d h no_category → Justified d h
    by_confidence :
        analysis.intent ≢ other
        → analysis.confidence < router.min_confidence
        → ToFallback d h low_confidence
        → Justified d h
    by_absence :
        analysis.intent ≢ other
        → router.min_confidence ≤ analysis.confidence
        → lookup analysis.intent router.registry ≡ none
        → ToFallback d h no_handler
        → Justified d h
    by_match :
        analysis.intent ≢ other
        → router.min_confidence ≤ analysis.confidence
        → lookup analysis.intent router.registry ≡ some h
        → d.reason ≡ matched
        → d.fallback ≡ false
        → d.handler ≡ h.name
        → Justified d h

  -- A message goes to the fallback exactly when its intent is `other`, its confidence is below the
  -- threshold or no handler is registered, tested in this order, and the
  -- decision names the fallback with that reason; otherwise to the registered handler, which it names.
  pub decide-Justified : Justified (decide router analysis) (chosen router analysis)
  unfolding chosen
  decide-Justified = elim (Bool-cases (analysis.intent == other)) [
    | inl same ↦ by_category ((==_iff analysis.intent other).0 same) (ground arith)
    | inr differs ↦
        let ne = not_other analysis.intent differs in
        elim (Bool-cases (ltb analysis.confidence router.min_confidence)) [
          | inl low ↦ by_confidence ne (ground arith) (ground arith)
          | inr enough ↦ elim (Option-cases (lookup analysis.intent router.registry)) [
            | inl absent ↦ by_absence ne (ground arith) absent (ground arith)
            | inr (handler, there) ↦
                by_match ne (ground arith) (ground arith) (ground arith) (ground arith)
                  (ground arith)
          ]
        ]
  ]

listed : (c : IntentCategory) → contains c categories ≡ true
listed billing = refl
listed technical_support = refl
listed account = refl
listed product_question = refl
listed complaint = refl
listed other = refl

module _ {C : Type 0} where
  mapped_among :
      (cs : List IntentCategory) (handlers : Dict IntentCategory (IntentHandler C))
      (c : IntentCategory)
      → unmapped_among cs handlers ≡ []
      → contains c cs ≡ true
      → has_key c handlers ≡ true
  unfolding unmapped_among
  mapped_among [] handlers c h m = cc
  mapped_among (d ∷ cs) handlers c h m = ground (arith, mapped_among cs handlers c, ==_iff d c)

  -- A table that passes the check at wiring time has a handler for every category.
  pub require_complete-mapped :
      (handlers : Dict IntentCategory (IntentHandler C)) (c : IntentCategory)
      → require_complete handlers ≡ ok tt
      → has_key c handlers ≡ true
  unfolding require_complete unmapped
  require_complete-mapped handlers c h = elim (List-cases (unmapped_among categories handlers)) [
    | inl done ↦ mapped_among categories handlers c done (listed c)
    | inr (missing, more, e) ↦ absurd (ground arith)
  ]
