-- ===== src/Page.antt =====
-- The pages of a crawl: which of them are not indexed, the text of their blocks, and the quotes that
-- are checked against it.
pub mod Unusable
pub mod Blocks
pub mod Prose
pub mod Citation
