-- ===== src/Knowledge.antt =====
-- opsassist/knowledge: the chunking of documents, their index, ingestion and retrieval.
pub mod Chunking
pub mod Index
pub mod Ingest
pub mod Worker
pub mod Retrieval
pub mod Tests
