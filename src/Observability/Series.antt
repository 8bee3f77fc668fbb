-- ===== src/Observability/Series.antt =====
-- The cap on series, and what the counters add up to.
use nexa_assist.Common.{
  ℕ, ◌+◌, ◌≤◌, String, ◌≡◌, refl, ◌∙◌, true, List, [], ◌∷◌, arith, contains, string_key, pair_key,
  Eq, ◌==◌, ==_iff, is_some, if◌then◌else◌, ◌&&◌, Bool-cases, inl, inr,
}
use nexa_assist.Dict.{Dict, lookup, insert}
use nexa_assist.Observability.Metrics.{
  value_or, series_of, Metrics, admits, increment, observe, total_of, total, new_metrics,
}

-- The calls on a recorder.
pub data Call (K : Type 0) : Type 0 where
  inc : String → K → ℕ → Call K
  obs : String → ℕ → K → Call K

module _ {K : Type 0} ⦃e : Eq K⦄ where
  abbrev pub step : Metrics K → Call K → Metrics K
  step m (inc metric labels by) = increment m metric labels by
  step m (obs metric milliseconds labels) = observe m metric milliseconds labels

  abbrev pub after : Metrics K → List (Call K) → Metrics K
  after m [] = m
  after m (call ∷ calls) = after (step m call) calls

  -- A key that is there adds no series, another one adds one to its metric.
  series_of-insert :
      {A : Type 0} (metric : String) (key : String × K) (a : A) (store : Dict (String × K) A)
      → series_of metric (insert key a store)
        ≡ series_of metric store
          + (if is_some (lookup key store) then 0 else if key.0 == metric then 1 else 0)
  unfolding insert lookup
  series_of-insert metric key a [] = ground arith
  series_of-insert metric key a ((k, b) ∷ store) =
      ground (arith, ==_iff k key, series_of-insert metric key a store)

  -- No metric has more than `max_series` series.
  abbrev pub Capped : {A : Type 0} → ℕ → Dict (String × K) A → Type 0
  Capped max_series store = (metric : String) → series_of metric store ≤ max_series

  insert-Capped :
      {A : Type 0} (max_series : ℕ) (store : Dict (String × K) A) (metric : String) (labels : K)
      (a : A)
      → Capped max_series store
      → admits max_series store metric labels ≡ true
      → Capped max_series (insert (metric, labels) a store)
  unfolding admits
  insert-Capped max_series store metric labels a capped h m =
      ground (
        arith,
        ==_iff metric m,
        series_of-insert m (metric, labels) a store,
        capped m,
        capped metric,
      )

  abbrev pub Bounded : Metrics K → Type 0
  Bounded m = Capped m.max_series m.counters × Capped m.max_series m.durations

  step-Bounded : (m : Metrics K) (call : Call K) → Bounded m → Bounded (step m call)
  unfolding increment observe
  step-Bounded m (inc metric labels by) h =
      elim (Bool-cases (admits m.max_series m.counters metric labels)) [
        | inl fits ↦ rw (fits) (insert-Capped m.max_series m.counters metric labels _ h.0 fits, h.1)
        | inr full ↦ rw (full) (elim (Bool-cases (contains metric m.dropped)) [
          | inl there ↦ rw (there) h
          | inr new ↦ rw (new) h
        ])
      ]
  step-Bounded m (obs metric milliseconds labels) h =
      elim (Bool-cases (admits m.max_series m.durations metric labels)) [
        | inl fits ↦
            rw (fits) (h.0, insert-Capped m.max_series m.durations metric labels _ h.1 fits)
        | inr full ↦ rw (full) (elim (Bool-cases (contains metric m.dropped)) [
          | inl there ↦ rw (there) h
          | inr new ↦ rw (new) h
        ])
      ]

  step_cap : (m : Metrics K) (call : Call K) → (step m call).max_series ≡ m.max_series
  unfolding increment observe
  step_cap m (inc metric labels by) = ground arith
  step_cap m (obs metric milliseconds labels) = ground arith

  after-Bounded :
      (m : Metrics K) (calls : List (Call K)) (max_series : ℕ)
      → m.max_series ≡ max_series
      → Bounded m
      → Capped max_series (after m calls).counters × Capped max_series (after m calls).durations
  after-Bounded m [] max_series e h = rw (← e) h
  after-Bounded m (call ∷ calls) max_series e h =
      after-Bounded (step m call) calls max_series (step_cap m call ∙ e) (step-Bounded m call h)

  -- Whatever is recorded, no metric ever has more series than the cap, among the counters as among
  -- the durations.
  pub series_capped :
      (max_series : ℕ) (calls : List (Call K)) (metric : String)
      → let m = after (new_metrics max_series) calls in
        (series_of metric m.counters ≤ max_series) × (series_of metric m.durations ≤ max_series)
  unfolding new_metrics
  series_capped max_series calls metric =
      let (counters, durations) =
        after-Bounded (new_metrics max_series) calls max_series refl
          ((λ m. omega arith), (λ m. omega arith)) in
      (counters metric, durations metric)

  total_of-insert :
      (metric : String) (key : String × K) (used by : ℕ) (store : Dict (String × K) ℕ)
      → value_or 0 (lookup key store) ≡ used
      → total_of metric (insert key (used + by) store)
        ≡ total_of metric store + (if key.0 == metric then by else 0)
  unfolding insert lookup
  total_of-insert metric key used by [] h = ground arith
  total_of-insert metric key used by ((k, b) ∷ store) h =
      ground (arith, ==_iff k key, total_of-insert metric key used by store)

  -- An increment adds to the total of its metric exactly when its series is or may be recorded, and
  -- leaves the totals of the other metrics.
  pub total-increment :
      (m : Metrics K) (metric : String) (labels : K) (by : ℕ) (other : String)
      → total (increment m metric labels by) other
        ≡ total m other
          + (if (metric == other) && admits m.max_series m.counters metric labels then by else 0)
  unfolding total increment
  total-increment m metric labels by other =
      let more = total_of-insert other (metric, labels) _ by m.counters refl in
      elim (Bool-cases (admits m.max_series m.counters metric labels)) [
        | inl fits ↦ rw (fits) (ground (arith, more))
        | inr full ↦ rw (full) (ground arith)
      ]
