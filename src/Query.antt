-- ===== src/Query.antt =====
-- The query: how the two halves of a hybrid search are fused, and the order in which ranked passages
-- are taken.
pub mod Fusion
pub mod Select
