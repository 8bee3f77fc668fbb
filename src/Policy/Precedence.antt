-- ===== src/Policy/Precedence.antt =====
-- The order of the rules is their precedence: the first that does not allow decides.
use nexa_assist.Common.{
  String, ◌≡◌, refl, ap, ◌∙◌, Bool, true, false, Option, none, some, List, [], ◌∷◌, ◌++◌, map,
  arith, append_assoc, append-nil, Option-cases, Bool-cases, inl, inr, All,
}
use nexa_assist.Policy.{
  PolicyContext, PolicyOutcome, PolicyRule, PolicyEvaluation, allows, default_outcome,
  evaluate_from, evaluate,
}

-- A rule that abstains or allows.
abbrev pub passes : Option PolicyOutcome → Bool
passes none = true
passes (some o) = allows o.action

abbrev pub Passes : PolicyContext → PolicyRule → Type 0
Passes context rule = passes (rule.evaluate context) ≡ true

-- How a decision comes about: all rules pass and the default allows; or the rules before the
-- deciding one pass, and its outcome is the decision. The names consulted are exactly those.
pub data Decides (rules : List PolicyRule) (context : PolicyContext) (e : PolicyEvaluation)
    : Type 0 where
  by_default :
      All (Passes context) rules
      → e.outcome ≡ default_outcome
      → e.evaluated ≡ map (λ r. r.name) rules
      → Decides rules context e
  by_rule :
      (before : List PolicyRule) (rule : PolicyRule) (after : List PolicyRule)
      → rules ≡ before ++ rule ∷ after
      → All (Passes context) before
      → rule.evaluate context ≡ some e.outcome
      → allows e.outcome.action ≡ false
      → e.evaluated ≡ map (λ r. r.name) (before ++ rule ∷ [])
      → Decides rules context e

abbrev after_rule : List String → PolicyRule → List String
after_rule consulted rule = consulted ++ rule.name ∷ []

-- The same from the middle of the loop.
data DecidesFrom (consulted : List String) (rules : List PolicyRule) (context : PolicyContext)
    (e : PolicyEvaluation) : Type 0 where
  passed :
      All (Passes context) rules
      → e.outcome ≡ default_outcome
      → e.evaluated ≡ consulted ++ map (λ r. r.name) rules
      → DecidesFrom consulted rules context e
  decided :
      (before : List PolicyRule) (rule : PolicyRule) (after : List PolicyRule)
      → rules ≡ before ++ rule ∷ after
      → All (Passes context) before
      → rule.evaluate context ≡ some e.outcome
      → allows e.outcome.action ≡ false
      → e.evaluated ≡ consulted ++ map (λ r. r.name) (before ++ rule ∷ [])
      → DecidesFrom consulted rules context e

one_more :
    (consulted : List String) (rule : PolicyRule) (rules : List PolicyRule)
    (context : PolicyContext) (e : PolicyEvaluation)
    → Passes context rule
    → DecidesFrom (consulted ++ rule.name ∷ []) rules context e
    → DecidesFrom consulted (rule ∷ rules) context e
one_more consulted rule rules context e p (passed all o names) =
    passed (p, all) o (names ∙ append_assoc consulted (rule.name ∷ []) _)
one_more consulted rule rules context e p (decided before r after split all o d names) =
    decided (rule ∷ before) r after (ap (λ l. rule ∷ l) split) (p, all) o d
      (names ∙ append_assoc consulted (rule.name ∷ []) _)

evaluate_from-Decides :
    (consulted : List String) (rules : List PolicyRule) (context : PolicyContext)
    → DecidesFrom consulted rules context (evaluate_from consulted rules context)
unfolding evaluate_from
evaluate_from-Decides consulted [] context = passed tt refl (rw append-nil)
evaluate_from-Decides consulted (rule ∷ rules) context =
    let rest = evaluate_from-Decides (consulted ++ rule.name ∷ []) rules context in
    elim (Option-cases (rule.evaluate context)) [
      | inl abstains ↦
          rw (abstains, evaluate_from) (one_more consulted rule rules context _ (ground arith) rest)
      | inr (o, says) ↦
          rw (says, evaluate_from)
            (elim (Bool-cases (allows o.action)) [
              | inl goes ↦ rw goes (one_more consulted rule rules context _ (ground arith) rest)
              | inr stops ↦ rw stops (decided [] rule rules refl tt says stops refl)
            ])
    ]

-- The engine's decision is that of the first rule that neither abstains nor allows, with the names of
-- the rules up to it as those consulted; without such a rule it is the default allow, and all rules
-- were consulted.
pub evaluate-Decides :
    (rules : List PolicyRule) (context : PolicyContext)
    → Decides rules context (evaluate rules context)
unfolding evaluate
evaluate-Decides rules context = elim (evaluate_from-Decides [] rules context) [
  | passed all o names ↦ by_default all o names
  | decided before rule after split all o d names ↦ by_rule before rule after split all o d names
]

evaluate_from-append :
    (consulted : List String) (rules more : List PolicyRule) (context : PolicyContext)
    → allows (evaluate_from consulted rules context).outcome.action ≡ false
    → evaluate_from consulted (rules ++ more) context ≡ evaluate_from consulted rules context
unfolding evaluate_from
evaluate_from-append consulted [] more context h = cc
evaluate_from-append consulted (rule ∷ rules) more context h =
    ground (arith, evaluate_from-append (consulted ++ rule.name ∷ []) rules more context)

-- A decision that is not to allow cannot be undone by rules that are added later.
pub evaluate-append :
    (rules more : List PolicyRule) (context : PolicyContext)
    → allows (evaluate rules context).outcome.action ≡ false
    → evaluate (rules ++ more) context ≡ evaluate rules context
unfolding evaluate
evaluate-append rules more context h = evaluate_from-append [] rules more context h
