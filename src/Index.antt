-- ===== src/Index.antt =====
-- The index job: how a run is queued, the pass over its pages, and the worker's turn.
pub mod Admit
pub mod Run
pub mod Worker
pub mod Enqueue
