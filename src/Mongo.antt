-- ===== src/Mongo.antt =====
-- A MongoDB collection with one document for each key, as src/geek_crawler_rag/status_store.py and
-- src/geek_crawler_rag/mongo.py use it. The driver is not part of the repository: it is an
-- interface, with the documented behaviour of single-document operations as its laws. Each operation
-- is atomic. A filter is a Boolean function on documents, an update a function on documents.
pub mod Field
pub mod Collection
pub mod Memory
