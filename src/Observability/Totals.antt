-- ===== src/Observability/Totals.antt =====
-- What the costs of calls add up to.
use nexa_assist.Common.{
  ℕ, ◌+◌, ◌*◌, ◌/◌, ◌≤◌, ◌<◌, String, ◌≡◌, refl, ◌⊎◌, inl, inr, true, Option, none, some, List, [],
  ◌∷◌, arith, string_key, ◌==◌, ==_iff, if◌then◌else◌, is_some,
}
use nexa_assist.Dict.{Dict, lookup, insert, lookup-insert}
use nexa_assist.Observability.Metrics.{value_or}
use nexa_assist.Observability.Cost.{
  CostEstimate, ModelPricing, cost, total_cost, input_of, output_of, estimate_at, estimate_cost,
  ledger_cost, by_model_from, by_model,
}

-- The entries' money.
abbrev pub money : Dict String ℕ → ℕ
money [] = 0
money ((model, paid) ∷ totals) = paid + money totals

-- What the calls of one model cost.
abbrev pub cost_of : String → List CostEstimate → ℕ
cost_of model [] = 0
cost_of model (c ∷ entries) = (if c.model == model then total_cost c else 0) + cost_of model entries

money-insert :
    (model : String) (paid : ℕ) (totals : Dict String ℕ)
    → money (insert model (value_or 0 (lookup model totals) + paid) totals) ≡ money totals + paid
unfolding insert lookup
money-insert model paid [] = omega arith
money-insert model paid ((m, old) ∷ totals) = ground (arith, money-insert model paid totals)

by_model_from-money :
    (totals : Dict String ℕ) (entries : List CostEstimate)
    → money (by_model_from totals entries) ≡ money totals + ledger_cost entries
unfolding by_model_from
by_model_from-money totals [] = omega arith
by_model_from-money totals (c ∷ entries) = omega (
  arith,
  by_model_from-money (insert c.model (value_or 0 (lookup c.model totals) + total_cost c) totals)
      entries,
  money-insert c.model (total_cost c) totals,
)

by_model_from-each :
    (totals : Dict String ℕ) (entries : List CostEstimate) (model : String)
    → value_or 0 (lookup model (by_model_from totals entries))
      ≡ value_or 0 (lookup model totals) + cost_of model entries
unfolding by_model_from
by_model_from-each totals [] model = omega arith
by_model_from-each totals (c ∷ entries) model = ground (
  arith,
  by_model_from-each (insert c.model (value_or 0 (lookup c.model totals) + total_cost c) totals)
      entries model,
  lookup-insert c.model model (value_or 0 (lookup c.model totals) + total_cost c) totals,
  ==_iff c.model model,
)

-- The costs by model account for the whole ledger: each model has what its calls cost, and together
-- they are the ledger's total.
pub by_model_lem :
    (entries : List CostEstimate) (model : String)
    → (value_or 0 (lookup model (by_model entries)) ≡ cost_of model entries)
      × (money (by_model entries) ≡ ledger_cost entries)
unfolding by_model lookup
by_model_lem entries model = (
  omega (arith, by_model_from-each [] entries model),
  omega (arith, by_model_from-money [] entries),
)

divided : (x d : ℕ) → 0 < d → (d * (x / d) ≤ x) × (x < d * (x / d) + d)
divided x d h = grind arith

-- The cost of some tokens is within half a microdollar of their number times the price, and a half
-- counts up.
pub cost_nearest :
    (scale tokens price : ℕ)
    → 0 < scale
    → (2 * scale * cost scale tokens price ≤ 2 * (tokens * price) + scale)
      × (2 * (tokens * price) < 2 * scale * cost scale tokens price + scale)
unfolding cost
cost_nearest scale tokens price h =
    let amount = tokens * price in
    let (lo, hi) = divided (2 * amount + scale) (2 * scale) (omega arith) in (lo, omega arith)

-- What an estimate says of a call, by the usage and the price of its model.
abbrev pub IsEstimate : Option (ℕ × ℕ) → Option ModelPricing → CostEstimate → Type 0
IsEstimate usage price c =
    (c.input_tokens ≡ input_of usage)
    × (c.output_tokens ≡ output_of usage)
    × (c.priced ≡ is_some price)
    × ((c.priced ≡ true) ⊎ (total_cost c ≡ 0))

estimate_at-IsEstimate :
    (scale : ℕ) (provider model : String) (usage : Option (ℕ × ℕ)) (price : Option ModelPricing)
    → IsEstimate usage price (estimate_at scale provider model usage price)
unfolding estimate_at
estimate_at-IsEstimate scale provider model usage none = (refl, refl, refl, inr refl)
estimate_at-IsEstimate scale provider model usage (some price) = (refl, refl, refl, inl refl)

-- A call's tokens are counted whether or not its model has a price; it is priced exactly when the
-- table has one, and costs nothing otherwise.
pub estimate_cost-IsEstimate :
    (scale : ℕ) (provider model : String) (usage : Option (ℕ × ℕ))
    (pricing : Dict String ModelPricing)
    → IsEstimate usage (lookup model pricing) (estimate_cost scale provider model usage pricing)
unfolding estimate_cost
estimate_cost-IsEstimate scale provider model usage pricing =
    estimate_at-IsEstimate scale provider model usage (lookup model pricing)
