-- ===== src/Embed.antt =====
-- The embedding path: batches of src/geek_crawler_rag/embedding_batching.py, the cross-run cache of
-- src/geek_crawler_rag/vector_cache.py, and the deduplicated call of src/geek_crawler_rag/llama_engine.py.
pub mod Batching
pub mod Sanitize
pub mod Cache
pub mod Engine
