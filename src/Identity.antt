-- ===== src/Identity.antt =====
-- packages/identity: which records name one person or organisation, and the merge of two of them.
mod Tests
pub mod Refs
pub mod ReviewQueue
