-- ===== src/Proxy.antt =====
-- src/service/proxy.rs: the way from a request to the upstreams.
pub mod Candidates
pub mod Active
