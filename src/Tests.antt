-- ===== src/Tests.antt =====
-- Concrete inputs: each property with hypotheses applied where they hold.
mod Chunks
mod Batches
mod Leases
mod Cadences
mod Runs
mod Queries
mod Ticks
mod Pages
mod Quotes
mod Flushes
mod Nodes
mod Fusions
mod Enqueues
