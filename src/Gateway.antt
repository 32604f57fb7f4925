-- ===== src/Gateway.antt =====
-- opsassist/gateway and the error hierarchy of opsassist/providers/base.py.
pub mod Errors
pub mod Breaker
pub mod Catalog
pub mod Records
pub mod Run
pub mod Calls
pub mod Stream
pub mod Tests
