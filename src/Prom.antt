-- ===== src/Prom.antt =====
-- src/prometheus.rs: the evaluation of PromQL.
pub mod Types
pub mod Ops
pub mod Query
pub mod Select
pub mod Aggregate
pub mod Binary
pub mod Histogram
pub mod Json
pub mod Engine
pub mod Eval
pub mod Api
pub mod Catalog
mod EngineTests
mod EvalTests
mod Tests
