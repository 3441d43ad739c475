-- ===== src/Examples.antt =====
-- Runs of the models at concrete inputs, at which the theorems' hypotheses hold.
mod Limits
mod Breakers
mod Routes
mod PlanRuns
mod Streams
mod Tools
mod Events
