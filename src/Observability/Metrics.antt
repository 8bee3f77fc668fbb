-- ===== src/Observability/Metrics.antt =====
-- backend/app/observability/metrics.py: `InMemoryMetrics`, with its cap on series. A label's value
-- that `sanitise_attributes` lets through (spans.py) is a string, and so is its omission; the
-- sorting of the labels and the rendering of numbers are parameters, in one function from labels to
-- the key that stands for them. Durations are natural numbers; log lines are left out.
use nexa_assist.Common.{
  ℕ, ◌+◌, String, Bool, true, not, Option, none, some, List, [], ◌∷◌, ◌++◌, leb, length, contains,
  string_key, pair_key, Eq, ◌==◌, if◌then◌else◌,
}
use nexa_assist.Dict.{Dict, lookup, insert, has_key}

abbrev pub max_series_per_metric : ℕ
max_series_per_metric = 200

abbrev pub value_or : {A : Type 0} → A → Option A → A
value_or a none = a
value_or a (some b) = b

-- sum(1 for existing in store if existing[0] == metric)
abbrev pub series_of : {K A : Type 0} → String → Dict (String × K) A → ℕ
series_of metric [] = 0
series_of metric ((key, a) ∷ store) = (if key.0 == metric then 1 else 0) + series_of metric store

-- The state, for a type `K` of keys that stand for labels.
pub record Metrics (K : Type 0) : Type 0 where
  pub max_series : ℕ
  pub counters : Dict (String × K) ℕ
  pub durations : Dict (String × K) (List ℕ)
  pub dropped : List String

module _ {K : Type 0} ⦃e : Eq K⦄ where
  -- `_key`: whether the series may be recorded
  unfoldable pub admits : {A : Type 0} → ℕ → Dict (String × K) A → String → K → Bool
  admits max_series store metric labels =
      if has_key (metric, labels) store then true else not (leb max_series (series_of metric store))

  -- `self._dropped.add(metric)`, of a metric that is not in it
  abbrev pub drop_metric : Metrics K → String → Metrics K
  drop_metric m metric =
      if contains metric m.dropped then m else record m { dropped = metric ∷ m.dropped }

  unfoldable pub increment : Metrics K → String → K → ℕ → Metrics K
  unfolding admits
  increment m metric labels by =
      if admits m.max_series m.counters metric labels
      then record m {
        counters =
            insert (metric, labels) (value_or 0 (lookup (metric, labels) m.counters) + by)
              m.counters;
      }
      else drop_metric m metric

  unfoldable pub observe : Metrics K → String → ℕ → K → Metrics K
  unfolding admits
  observe m metric milliseconds labels =
      if admits m.max_series m.durations metric labels
      then record m {
        durations =
            insert (metric, labels)
              (value_or [] (lookup (metric, labels) m.durations) ++ milliseconds ∷ []) m.durations;
      }
      else drop_metric m metric

  unfoldable pub counter : Metrics K → String → K → ℕ
  counter m metric labels = value_or 0 (lookup (metric, labels) m.counters)

  abbrev pub total_of : String → Dict (String × K) ℕ → ℕ
  total_of metric [] = 0
  total_of metric ((key, used) ∷ store) =
      (if key.0 == metric then used else 0) + total_of metric store

  unfoldable pub total : Metrics K → String → ℕ
  total m metric = total_of metric m.counters

  unfoldable pub observations : Metrics K → String → K → List ℕ
  observations m metric labels = value_or [] (lookup (metric, labels) m.durations)

  abbrev pub series : Metrics K → ℕ
  series m = length m.counters + length m.durations

  -- A fresh recorder, and `clear`.
  unfoldable pub new_metrics : ℕ → Metrics K
  new_metrics max_series = record {
    max_series = max_series;
    counters = [];
    durations = [];
    dropped = [];
  }

  unfoldable pub clear : Metrics K → Metrics K
  clear m = record m { counters = []; durations = []; dropped = [] }
