-- ===== src/Engine.antt =====
-- The pure core of the rebalance engine, api/src/engine: what a run would trade and whether it is
-- due.
pub mod Money
pub mod Models
pub mod Planner
pub mod Triggers
