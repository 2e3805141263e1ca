-- ===== src/Lib.antt =====
-- Verification of the Geek Crawler RAG service (src/geek_crawler_rag): crawled pages in MongoDB are
-- cut into chunks, embedded in batches, and kept in a vector store that queries rank.
--
-- The program's parts and the files that model them:
--   Base       texts as lists of code points, lists and Boolean tests that the parts share.
--   Chunk      `chunk_text` and `_fit_window` of src/geek_crawler_rag/chunk.py (Window),
--              `split_blocks_into_sections` (Sections) and `parent_child_units` (Units). The tokenizer, which
--              belongs to the embedding model, is the record ChunkTokenizer, an argument.
--   Embed      `partition_embedding_batches` of src/geek_crawler_rag/embedding_batching.py (Batching), the
--              characters removed by embedding_sanitize.py (Sanitize), `VectorCache` of vector_cache.py
--              (Cache), and `embed_and_upsert` of llama_engine.py with what it calls (Engine). The model's
--              call, the SHA-256 digest and which writes of the cache land are arguments; the points that
--              the vector store is given are part of the result. The metadata of a text, which only
--              the quarantine file repeats, is left out.
--   Mongo      the database, which is not part of the repository: Collection is the interface of a
--              collection with a unique key and the documented effect of each operation on a lookup,
--              a parameter; Memory shows that it can hold. Field is a value that may be missing or null.
--   Jobs       `IndexStatusStore` of src/geek_crawler_rag/status_store.py: job rows and their leases
--              (Store), the states of a lease (Lease), several workers as steps on one collection
--              (Protocol), renewal and release (Renewal), the scheduler's document (Scheduler) and
--              its cadence and pause (Cadence). IndexStatus is `IndexStatusResponse` of models.py.
--              A method is one operation on the collection, or the sequence of operations that the
--              source makes; the time that it reads is an argument, in milliseconds, to which
--              the database cuts it.
--   Index      the index job of src/geek_crawler_rag/indexer.py: `_admit_page_nodes` (Admit), `_index_run`
--              and what it calls (Run), a turn of `_worker_loop` and `kill` (Worker), the enqueue and the
--              operator's pause of the intake (Enqueue). What the run reads from the crawl's database,
--              the engine and the operator is a record, World, with one Visit for each page;
--              page_to_nodes and classify_unusable_page stand there with their answers. Exceptions are
--              values: Answer, Stop, RunEnd and EnqueueEnd.
--   Query      `_rank_fusion` of src/geek_crawler_rag/llama_engine.py (Fusion), where a fused score,
--              a float in the source, is an exact fraction; `_select_ranked_candidates` of query.py
--              (Select), with the keys and texts that it reads of a candidate. `str.lower` and the
--              SHA-256 digest are arguments.
--   Schedule   the scheduler: `find_oldest_content_ready_run` of src/geek_crawler_rag/mongo.py (Oldest) and
--              `IndexScheduler.tick` of scheduler.py (Tick), where the enqueue of the index service is an
--              argument that may refuse or raise.
--   Page       `classify_unusable_page` of src/geek_crawler_rag/unusable.py and its tests of a URL
--              (Unusable). The path that `urlparse` finds, `str.lower` and the regular expressions' `\w`
--              are arguments; the pattern of a sitemap's segment is written out. The text of blocks of
--              block_text.py (Prose, Blocks) and `verify_quote` of citation_verify.py (Citation) have
--              `str.lower`, `str.isalnum`, `\w` and the folding of a pattern that ignores case as arguments.
--   Nodes      `page_to_nodes` of src/geek_crawler_rag/llama_nodes.py with `page_text_and_title` of
--              extract.py (Build), and `is_stub_text` of chunk.py (Stub). The language detector, the
--              digests and `uuid5`, the decimal of a number, and what metadata.py infers of a unit
--              are fields of the record Tools; a node's record leaves out the fields that repeat what
--              metadata.py infers of the whole page.
--
-- Loops: the loop of `chunk_text` has as fuel the number of tokens and one; each round moves the start
-- by at least one token. The rounds of a selection have one more than the number of passages asked for,
-- since each but the last selects one. The other loops recurse on the list that they read.
--
-- Not modelled: the HTTP routes (app.py), the clients of the vector store and of the models
-- (qdrant_store.py, local_embedding.py, rerank.py, webhook.py), the diagnostics and the language model
-- services, what metadata.py infers of a page, the filters of a query, logging and timings. An
-- `asyncio` interleaving appears as a sequence of steps. Beside a run, the heartbeat that loses the lease
-- and the requests that load a status from the store are arguments of the worker's turn (Meanwhile);
-- the heartbeat's own renewals, a worker that is cancelled, and a database error in an operation of Jobs
-- are not part of the model.
pub mod Base
pub mod Chunk
pub mod Embed
pub mod Mongo
pub mod Jobs
pub mod Index
pub mod Query
pub mod Schedule
pub mod Page
pub mod Nodes
mod Tests
