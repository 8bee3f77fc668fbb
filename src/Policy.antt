-- ===== src/Policy.antt =====
-- backend/app/policy/rules.py and enforcement.py: the engine that evaluates ordered rules, and the
-- enforcer that applies its verdict to a reply. A rule is its name and its function. The rules that
-- are shipped are in Shipped, with their patterns in Patterns. Log lines are left out.
pub mod Patterns
pub mod Precedence
pub mod Enforcement
pub mod Shipped
pub mod Tests
use nexa_assist.Common.{
  String, Bool, true, false, not, ◌||◌, Option, none, some, List, [], ◌∷◌, ◌++◌, map, Result, ok,
  err, ◌>>=◌, ◌>>◌, raise_if, string_key, ◌==◌, if◌then◌else◌,
}
use nexa_assist.Intent.{IntentAnalysis}

pub data PolicyAction : Type 0 where
  allow block replace : PolicyAction

pub record PolicyContext : Type 0 where
  pub message : String
  pub analysis : IntentAnalysis
  pub proposed_reply : String
  pub handled : Bool

pub record PolicyOutcome : Type 0 where
  pub action : PolicyAction
  pub rule : String
  pub reason : String
  pub replacement : Option String

pub data PolicyFault : Type 0 where
  value_error : PolicyFault

-- `not self.replacement`
abbrev pub is_blank : Option String → Bool
is_blank none = true
is_blank (some text) = text == ""

-- `PolicyOutcome(...)`, with the check of `model_post_init`
unfoldable pub new_outcome :
    PolicyAction → String → String → Option String → Result PolicyFault PolicyOutcome
new_outcome action rule reason replacement = do
  raise_if (elim action [ replace ↦ is_blank replacement | _ ↦ false ]) value_error
  ok (record { action = action; rule = rule; reason = reason; replacement = replacement })

pub record PolicyRule : Type 0 where
  pub name : String
  pub evaluate : PolicyContext → Option PolicyOutcome

pub record PolicyEvaluation : Type 0 where
  pub outcome : PolicyOutcome
  pub evaluated : List String

-- `PolicyEvaluation.allowed`
abbrev pub allows : PolicyAction → Bool
allows allow = true
allows _ = false

abbrev pub default_outcome : PolicyOutcome
default_outcome = record {
  action = allow;
  rule = "default_allow";
  reason = "no rule applied";
  replacement = none;
}

-- any(existing.name == rule.name for existing in self._rules)
unfoldable pub named : String → List PolicyRule → Bool
named name [] = false
named name (rule ∷ rules) = rule.name == name || named name rules

unfoldable pub add : List PolicyRule → PolicyRule → Result PolicyFault (List PolicyRule)
add rules rule = do
  raise_if (rule.name == "") value_error
  raise_if (named rule.name rules) value_error
  ok (rules ++ rule ∷ [])

-- `PolicyEngine.__init__`: the given rules are added one by one
unfoldable pub engine_from :
    List PolicyRule → List PolicyRule → Result PolicyFault (List PolicyRule)
engine_from rules [] = ok rules
engine_from rules (rule ∷ more) = elim (add rules rule) [
  | err e ↦ err e
  | ok rules' ↦ engine_from rules' more
]

-- the loop of `evaluate`, with the names that were consulted before
unfoldable pub evaluate_from : List String → List PolicyRule → PolicyContext → PolicyEvaluation
evaluate_from consulted [] context = record { outcome = default_outcome; evaluated = consulted }
evaluate_from consulted (rule ∷ rules) context =
    let rest = evaluate_from (consulted ++ rule.name ∷ []) rules context in
    elim (rule.evaluate context) [
      | none ↦ rest
      | some outcome ↦
          if allows outcome.action
          then rest
          else record { outcome = outcome; evaluated = consulted ++ rule.name ∷ [] }
    ]

unfoldable pub evaluate : List PolicyRule → PolicyContext → PolicyEvaluation
evaluate rules context = evaluate_from [] rules context

abbrev pub blocked_reply : String
blocked_reply = "I am not able to help with that here. A support agent will follow up."

pub record EnforcedReply : Type 0 where
  pub reply : String
  pub original_reply : String
  pub action : PolicyAction
  pub rule : String
  pub reason : String
  pub modified : Bool
  pub handled : Bool
  pub evaluated : List String

-- outcome.replacement or BLOCKED_REPLY
abbrev pub replacement_of : Option String → String
replacement_of none = blocked_reply
replacement_of (some text) = if text == "" then blocked_reply else text

-- the reply, whether it was modified, and whether it is handled, by the action
abbrev pub verdict : PolicyAction → Option String → String → Bool → String × Bool × Bool
verdict block replacement proposed handled = (blocked_reply, true, false)
verdict replace replacement proposed handled =
    (replacement_of replacement, not (replacement_of replacement == proposed), handled)
verdict allow replacement proposed handled = (proposed, false, handled)

unfoldable pub apply : PolicyEvaluation → String → Bool → EnforcedReply
apply e proposed handled =
    let (reply, modified, handled') =
      verdict e.outcome.action e.outcome.replacement proposed handled in
    record {
      reply = reply;
      original_reply = proposed;
      action = e.outcome.action;
      rule = e.outcome.rule;
      reason = e.outcome.reason;
      modified = modified;
      handled = handled';
      evaluated = e.evaluated;
    }

unfoldable pub enforce : List PolicyRule → String → IntentAnalysis → String → Bool → EnforcedReply
enforce rules message analysis proposed_reply handled =
    apply
      (evaluate rules (record {
        message = message;
        analysis = analysis;
        proposed_reply = proposed_reply;
        handled = handled;
      }))
      proposed_reply handled
