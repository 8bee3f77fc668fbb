-- ===== src/Observability.antt =====
-- backend/app/observability: what the metrics count and what the calls of models cost.
pub mod Metrics
pub mod Series
pub mod Cost
pub mod Spans
pub mod Tracer
pub mod Traces
pub mod Correlation
pub mod Totals
mod Tests
