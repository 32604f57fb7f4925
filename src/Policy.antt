-- ===== src/Policy.antt =====
-- opsassist/policy, opsassist/auth.py and the redaction of opsassist/logging_setup.py.
pub mod Redact
pub mod Audit
pub mod Auth
pub mod Access
mod Tests
