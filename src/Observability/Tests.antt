-- ===== src/Observability/Tests.antt =====
-- Tests of the metrics and of the ledger, and their theorems at concrete ones.
use nexa_assist.Common.{
  ◌≤◌, ◌≡◌, refl, ℕ, none, some, nat_eq, if◌then◌else◌, String, List, [], ◌∷◌, string_key,
}
use nexa_assist.Dict.{lookup, insert}
use nexa_assist.Observability.Metrics.{
  Metrics, value_or, series_of, admits, increment, counter, total, new_metrics,
}
use nexa_assist.Observability.Series.{Call, inc, obs, after, series_capped}
use nexa_assist.Observability.Cost.{cost}
use nexa_assist.Observability.Spans.{
  agent, tool, error, text, sanitise_attributes, sanitise_from, safe_value,
}
use nexa_assist.Observability.Tracer.{
  Tracing, Body, andthen, finished, sets, spanned, raises, exception, opened, run, set_attributes,
  record_error, to_span,
}
use nexa_assist.Observability.Correlation.{Closed, run-Closed}

abbrev calls : List (Call String)
calls = inc "jobs" "ok" 1 ∷ inc "jobs" "late" 1 ∷ obs "run" 12 "ok" ∷ inc "jobs" "ok" 2 ∷ []

-- With room for one series the second one is dropped.
dropped_series : total (after (new_metrics 1) calls) "jobs" ≡ 3
unfolding total new_metrics increment nexa_assist.Observability.Metrics.observe admits lookup insert
dropped_series = refl

series_capped_example :
    let m = after (new_metrics 1) calls in
    (series_of "jobs" m.counters ≤ 1) × (series_of "jobs" m.durations ≤ 1)
series_capped_example = series_capped 1 calls "jobs"

-- Prices in hundredths: 11 tokens at 0.15 are 1.65 microdollars.
rounded : cost 100 11 15 ≡ 2
unfolding cost
rounded = refl

abbrev ids : ℕ → String
ids n = if nat_eq n 0 then "t0" else if nat_eq n 1 then "s1" else "s2"

abbrev idle : Tracing
idle = record { recorded = []; current = none; drawn = 0 }

-- An agent whose tool raises; the question is given as an attribute.
abbrev answering : Body
answering =
    andthen (sets (("question", text "where is it") ∷ [])) (
      andthen (spanned "lookup" tool [] (andthen (raises (exception "KeyError")) finished))
        finished)

traced :
    (run ids idle (spanned "answer" agent [] answering)).1.recorded
    ≡ record {
      trace_id = "t0";
      span_id = "s2";
      parent_span_id = some "s1";
      name = "lookup";
      kind = tool;
      status = error;
      error_category = some "KeyError";
      attributes = [];
    }
      ∷ record {
        trace_id = "t0";
        span_id = "s1";
        parent_span_id = none;
        name = "answer";
        kind = agent;
        status = error;
        error_category = some "KeyError";
        attributes = ("question", text "<omitted>") ∷ [];
      }
      ∷ []
unfolding run opened set_attributes record_error to_span sanitise_attributes sanitise_from
    safe_value insert
traced = refl

run-Closed_example :
    let done = run ids idle (spanned "answer" agent [] answering) in
    Closed ids idle "answer" agent answering done.0 done.1
run-Closed_example = run-Closed ids idle "answer" agent [] answering tt
