-- ===== src/Outbound.antt =====
-- What the gateway changes in a request before it goes out: src/service/system_head.rs and
-- src/service/rectify.rs.
pub mod SystemHead
pub mod Rectify
