-- ===== src/Tools.antt =====
-- opsassist/tools: the registry of the tools and their executor.
pub mod Registry
pub mod Store
pub mod Handlers
pub mod Execute
pub mod Approve
pub mod Moves
pub mod System
pub mod Tests
