-- ===== src/Memory.antt =====
-- src/opsassist/memory.py: stored preferences, and the memory of a conversation.
pub mod Preferences
pub mod Window
mod Tests
