-- ===== src/Routing/Tests.antt =====
-- Tests of the router, and its theorems at a concrete table.
use nexa_assist.Common.{ℕ, ◌≡◌, refl, true, some, [], ◌∷◌}
use nexa_assist.Dict.{Dict, lookup}
use nexa_assist.Intent.{
  IntentCategory, IntentAnalysis, category_key, billing, technical_support, account,
  product_question, complaint, other,
}
use nexa_assist.Policy.Tests.{rules}
use nexa_assist.Routing.{IntentHandler, IntentRouter, unmapped, decide, chosen}
use nexa_assist.Routing.Decisions.{Justified, decide-Justified}

abbrev pub agent : IntentHandler ℕ
agent = record {
  name = "agent";
  handle = λ message analysis. record {
    reply = "Done!";
    handled = true;
    handler = "agent";
    citations = 7 ∷ [];
  };
}

abbrev table : Dict IntentCategory (IntentHandler ℕ)
table =
    (billing, agent)
    ∷ (technical_support, agent)
    ∷ (account, agent)
    ∷ (product_question, agent)
    ∷ (complaint, agent)
    ∷ (other, agent)
    ∷ []

abbrev pub partial : Dict IntentCategory (IntentHandler ℕ)
partial = (billing, agent) ∷ []

abbrev pub analysis : IntentAnalysis
analysis = record { intent = billing; confidence = 90; reason = "Asks for money." }

abbrev pub router : IntentRouter ℕ
router = record { registry = partial; fallback = agent; min_confidence = 50; enforcer = some rules }

five_missing :
    unmapped partial ≡ technical_support ∷ account ∷ product_question ∷ complaint ∷ other ∷ []
unfolding unmapped lookup
five_missing = refl

decide-Justified_example :
    Justified router analysis (decide router analysis) (chosen router analysis)
decide-Justified_example = decide-Justified router analysis
