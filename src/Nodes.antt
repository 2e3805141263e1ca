-- ===== src/Nodes.antt =====
-- src/geek_crawler_rag/llama_nodes.py: from a page to the nodes that are embedded.
pub mod Stub
pub mod Build
