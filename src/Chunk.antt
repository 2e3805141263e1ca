-- ===== src/Chunk.antt =====
-- src/geek_crawler_rag/chunk.py: a page's text cut into windows of tokens, and what is known of them.
pub mod Window
pub mod Budget
pub mod Coverage
pub mod Verbatim
pub mod Sections
pub mod Units
