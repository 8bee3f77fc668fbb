-- ===== src/Policy/Tests.antt =====
-- Tests of the policy engine, and its theorems at concrete rules.
use nexa_assist.Common.{
  ℕ, Bool, ◌≡◌, refl, true, false, none, some, List, [], ◌∷◌, ok, err, string_key, ◌==◌,
  if◌then◌else◌,
}
use nexa_assist.Intent.{IntentAnalysis, billing}
use nexa_assist.Policy.{
  PolicyOutcome, PolicyRule, block, replace, value_error, new_outcome, named, add, engine_from,
  evaluate_from, evaluate, apply, enforce,
}
use nexa_assist.Policy.Patterns.{commits}
use nexa_assist.Policy.Precedence.{Decides, evaluate-Decides}
use nexa_assist.Policy.Enforcement.{context_of}

abbrev pub refusal : PolicyOutcome
refusal = record { action = block; rule = "no_refunds"; reason = "Money."; replacement = none }

abbrev pub abstainer : PolicyRule
abstainer = record { name = "abstain"; evaluate = λ context. none }

abbrev pub no_refunds : PolicyRule
no_refunds = record {
  name = "no_refunds";
  evaluate = λ context. if context.message == "refund" then some refusal else none;
}

abbrev pub rules : List PolicyRule
rules = abstainer ∷ no_refunds ∷ []

abbrev analysis : IntentAnalysis
analysis = record { intent = billing; confidence = 90; reason = "Asks for money." }

rules_registered : engine_from [] rules ≡ ok rules
unfolding engine_from add named
rules_registered = refl

no_replacement : new_outcome replace "tone" "Too rude." (some "") ≡ err value_error
unfolding new_outcome
no_replacement = refl

blocked : (enforce rules "refund" analysis "Done!" true).handled ≡ false
unfolding enforce apply evaluate evaluate_from
blocked = refl

evaluate-Decides_example :
    Decides rules
      (context_of "refund" analysis "Done!" true)
      (evaluate rules (context_of "refund" analysis "Done!" true))
evaluate-Decides_example = evaluate-Decides rules (context_of "refund" analysis "Done!" true)

-- Some promises, and texts that are close to one.
abbrev none_alnum : ℕ → Bool
none_alnum c = false

spaced_found : commits none_alnum "Sure: I'll  Refund you." ≡ true
unfolding commits
spaced_found = refl

curly_found : commits none_alnum "Sure, we’ll cancel it" ≡ true
unfolding commits
curly_found = refl

past_found : commits none_alnum "We have credited it." ≡ true
unfolding commits
past_found = refl

guarantee_found : commits none_alnum "GUARANTEED!" ≡ true
unfolding commits
guarantee_found = refl

close_pass : commits none_alnum "We will refunds, or guarantees, fully refund" ≡ false
unfolding commits
close_pass = refl
