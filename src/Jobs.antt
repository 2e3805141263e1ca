-- ===== src/Jobs.antt =====
-- The index jobs: their stored rows and leases (src/geek_crawler_rag/status_store.py), the queue and
-- the worker (src/geek_crawler_rag/indexer.py), and the scheduler (src/geek_crawler_rag/scheduler.py).
pub mod Model
pub mod Store
pub mod Lease
pub mod Protocol
pub mod Renewal
pub mod Scheduler
pub mod Cadence
