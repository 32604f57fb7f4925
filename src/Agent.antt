-- ===== src/Agent.antt =====
-- opsassist/agent: what a question is routed to.
pub mod Intent
pub mod Route
pub mod Nodes
pub mod Rag
pub mod Service
pub mod Answers
pub mod Tests
