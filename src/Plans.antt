-- ===== src/Plans.antt =====
-- src/store/plans.rs, src/service/plans.rs, src/service/usage.rs and src/service/notify.rs: the Coding Plans, from the
-- plan that a request falls under to its quota, the counters and the alerts.
pub mod Config
pub mod Scope
pub mod Period
pub mod Runtime
pub mod Usage
pub mod Alerts
pub mod Quota
