-- ===== src/Observability/Cost.antt =====
-- backend/app/observability/cost.py: the price of a call and the ledger of calls. Money is a number
-- of microdollars, the precision that the source rounds to; a price per million tokens is a number
-- of `1 / scale` dollars, so that a token costs price / scale microdollars. The parsing of the price
-- list's entries is not modelled.
use nexa_assist.Common.{
  ℕ, ◌+◌, ◌*◌, ◌/◌, String, Bool, true, false, not, ◌&&◌, Option, none, some, List, [], ◌∷◌, ◌++◌,
  sum_map, nat_eq, string_key, Result, ok, err, if◌then◌else◌,
}
use nexa_assist.Dict.{Dict, lookup, insert, has_key}
use nexa_assist.Observability.Metrics.{value_or}

pub record ModelPricing : Type 0 where
  pub model : String
  pub input_per_million : ℕ
  pub output_per_million : ℕ

pub record CostEstimate : Type 0 where
  pub provider : String
  pub model : String
  pub input_tokens : ℕ
  pub output_tokens : ℕ
  pub input_cost : ℕ
  pub output_cost : ℕ
  pub usage_reported : Bool
  pub priced : Bool

abbrev pub total_tokens : CostEstimate → ℕ
total_tokens c = c.input_tokens + c.output_tokens

abbrev pub total_cost : CostEstimate → ℕ
total_cost c = c.input_cost + c.output_cost

pub data PricingFault : Type 0 where
  priced_twice : PricingFault

-- `PricingTable.__init__`, from the prices read so far
unfoldable pub price_table :
    Dict String ModelPricing → List ModelPricing → Result PricingFault (Dict String ModelPricing)
price_table table [] = ok table
price_table table (price ∷ prices) =
    let rest = price_table (insert price.model price table) prices in
    if has_key price.model table then err priced_twice else rest

-- `_cost`: the nearest microdollar, a half counting up
unfoldable pub cost : ℕ → ℕ → ℕ → ℕ
cost scale tokens per_million = (2 * (tokens * per_million) + scale) / (2 * scale)

abbrev pub input_of : Option (ℕ × ℕ) → ℕ
input_of none = 0
input_of (some usage) = usage.0

abbrev pub output_of : Option (ℕ × ℕ) → ℕ
output_of none = 0
output_of (some usage) = usage.1

-- The usage is what the provider reported of input and output tokens.
abbrev pub is_reported : Option (ℕ × ℕ) → Bool
is_reported usage = not (nat_eq (input_of usage) 0 && nat_eq (output_of usage) 0)

-- The rest of `estimate_cost`, once the price is looked up.
unfoldable pub estimate_at :
    ℕ → String → String → Option (ℕ × ℕ) → Option ModelPricing → CostEstimate
unfolding cost
estimate_at scale provider model usage none = record {
  provider = provider;
  model = model;
  input_tokens = input_of usage;
  output_tokens = output_of usage;
  input_cost = 0;
  output_cost = 0;
  usage_reported = is_reported usage;
  priced = false;
}
estimate_at scale provider model usage (some price) = record {
  provider = provider;
  model = model;
  input_tokens = input_of usage;
  output_tokens = output_of usage;
  input_cost = cost scale (input_of usage) price.input_per_million;
  output_cost = cost scale (output_of usage) price.output_per_million;
  usage_reported = is_reported usage;
  priced = true;
}

unfoldable pub estimate_cost :
    ℕ → String → String → Option (ℕ × ℕ) → Dict String ModelPricing → CostEstimate
unfolding estimate_at
estimate_cost scale provider model usage pricing =
    estimate_at scale provider model usage (lookup model pricing)

-- The ledger is the list of its entries.
abbrev pub add : List CostEstimate → CostEstimate → List CostEstimate
add entries estimate = entries ++ estimate ∷ []

abbrev pub ledger_input : List CostEstimate → ℕ
ledger_input entries = sum_map (λ c. c.input_tokens) entries

abbrev pub ledger_output : List CostEstimate → ℕ
ledger_output entries = sum_map (λ c. c.output_tokens) entries

abbrev pub ledger_cost : List CostEstimate → ℕ
ledger_cost entries = sum_map total_cost entries

abbrev pub fully_priced : List CostEstimate → Bool
fully_priced [] = true
fully_priced (c ∷ entries) = c.priced && fully_priced entries

-- The totals of `by_model`, before they are sorted by name for the reader.
unfoldable pub by_model_from : Dict String ℕ → List CostEstimate → Dict String ℕ
by_model_from totals [] = totals
by_model_from totals (c ∷ entries) =
    by_model_from (insert c.model (value_or 0 (lookup c.model totals) + total_cost c) totals)
      entries

unfoldable pub by_model : List CostEstimate → Dict String ℕ
unfolding by_model_from
by_model entries = by_model_from [] entries
