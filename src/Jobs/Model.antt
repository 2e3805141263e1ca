-- ===== src/Jobs/Model.antt =====
-- The states of an index job, its status (src/geek_crawler_rag/models.py) and its stored row.
-- Times are in milliseconds, as the database keeps them.
use geek_crawler_rag.Base.{ℕ, Bool, true, false, Option, none, some, Text, codes, or_text, []}
use geek_crawler_rag.Mongo.Field.{Field, missing, null, val, field_or, to_option}

pub data IndexState : Type 0 where
  pending running complete failed skipped : IndexState

pub IndexState-discrete : Discrete IndexState
IndexState-discrete = hlevel

-- `state in (PENDING, RUNNING)`
abbrev pub is_active : IndexState → Bool
is_active IndexState.pending = true
is_active IndexState.running = true
is_active IndexState.complete = false
is_active IndexState.failed = false
is_active IndexState.skipped = false

-- `state in (COMPLETE, FAILED, SKIPPED)`
abbrev pub is_terminal : IndexState → Bool
is_terminal IndexState.pending = false
is_terminal IndexState.running = false
is_terminal IndexState.complete = true
is_terminal IndexState.failed = true
is_terminal IndexState.skipped = true

pub record IndexStatus : Type 0 where
  pub run_id : Text
  pub state : IndexState
  pub crawl_type : Option Text
  pub mongo_page_count : Option ℕ
  pub pages_seen : ℕ
  pub pages_english : ℕ
  pub pages_skipped_lang : ℕ
  pub pages_skipped_empty : ℕ
  pub pages_skipped_unusable : ℕ
  pub chunks_upserted : ℕ
  pub chunks_skipped_repeat : ℕ
  pub chunks_skipped_stub : ℕ
  pub attempt : ℕ
  pub trigger : Text
  pub embedding_rate_limit_retries : ℕ
  pub embedding_wait_seconds : ℕ
  pub error : Option Text
  pub started_at_utc : Option ℕ
  pub finished_at_utc : Option ℕ

-- A document of `rag_index_jobs`: the fields of the status, and those of the lease.
pub record JobRow : Type 0 where
  pub run_id : Text
  pub state : Field IndexState
  pub crawl_type : Field Text
  pub mongo_page_count : Field ℕ
  pub pages_seen : Field ℕ
  pub pages_english : Field ℕ
  pub pages_skipped_lang : Field ℕ
  pub pages_skipped_empty : Field ℕ
  pub pages_skipped_unusable : Field ℕ
  pub chunks_upserted : Field ℕ
  pub chunks_skipped_repeat : Field ℕ
  pub chunks_skipped_stub : Field ℕ
  pub attempt : Field ℕ
  pub trigger : Field Text
  pub embedding_rate_limit_retries : Field ℕ
  pub embedding_wait_seconds : Field ℕ
  pub error : Field Text
  pub started_at_utc : Field ℕ
  pub finished_at_utc : Field ℕ
  pub lease_owner : Field Text
  pub lease_until : Field ℕ
  pub claimed_at_utc : Field ℕ
  pub next_retry_at_utc : Field ℕ

-- `_from_doc`. The stored times are UTC with milliseconds, so `_as_utc` keeps them.
unfoldable pub from_doc : JobRow → IndexStatus
from_doc doc = record {
  run_id = doc.run_id;
  state = field_or IndexState.failed doc.state;
  crawl_type = to_option doc.crawl_type;
  mongo_page_count = to_option doc.mongo_page_count;
  pages_seen = field_or 0 doc.pages_seen;
  pages_english = field_or 0 doc.pages_english;
  pages_skipped_lang = field_or 0 doc.pages_skipped_lang;
  pages_skipped_empty = field_or 0 doc.pages_skipped_empty;
  pages_skipped_unusable = field_or 0 doc.pages_skipped_unusable;
  chunks_upserted = field_or 0 doc.chunks_upserted;
  chunks_skipped_repeat = field_or 0 doc.chunks_skipped_repeat;
  chunks_skipped_stub = field_or 0 doc.chunks_skipped_stub;
  attempt = field_or 0 doc.attempt;
  trigger = or_text (field_or [] doc.trigger) (codes "manual");
  embedding_rate_limit_retries = field_or 0 doc.embedding_rate_limit_retries;
  embedding_wait_seconds = field_or 0 doc.embedding_wait_seconds;
  error = to_option doc.error;
  started_at_utc = to_option doc.started_at_utc;
  finished_at_utc = to_option doc.finished_at_utc;
}

-- What `model_dump` writes for a value that may be None.
abbrev pub dump : {A : Type 0} → Option A → Field A
dump none = null
dump (some a) = val a

-- `$set` of a whole status: the fields of the lease are not among them.
unfoldable pub set_status : IndexStatus → JobRow → JobRow
set_status status doc = record doc {
  run_id = status.run_id;
  state = val status.state;
  crawl_type = dump status.crawl_type;
  mongo_page_count = dump status.mongo_page_count;
  pages_seen = val status.pages_seen;
  pages_english = val status.pages_english;
  pages_skipped_lang = val status.pages_skipped_lang;
  pages_skipped_empty = val status.pages_skipped_empty;
  pages_skipped_unusable = val status.pages_skipped_unusable;
  chunks_upserted = val status.chunks_upserted;
  chunks_skipped_repeat = val status.chunks_skipped_repeat;
  chunks_skipped_stub = val status.chunks_skipped_stub;
  attempt = val status.attempt;
  trigger = val status.trigger;
  embedding_rate_limit_retries = val status.embedding_rate_limit_retries;
  embedding_wait_seconds = val status.embedding_wait_seconds;
  error = dump status.error;
  started_at_utc = dump status.started_at_utc;
  finished_at_utc = dump status.finished_at_utc;
}

-- A document with no field but its key, to which an upsert applies its update.
abbrev pub blank_row : Text → JobRow
blank_row run_id = record {
  run_id = run_id;
  state = missing;
  crawl_type = missing;
  mongo_page_count = missing;
  pages_seen = missing;
  pages_english = missing;
  pages_skipped_lang = missing;
  pages_skipped_empty = missing;
  pages_skipped_unusable = missing;
  chunks_upserted = missing;
  chunks_skipped_repeat = missing;
  chunks_skipped_stub = missing;
  attempt = missing;
  trigger = missing;
  embedding_rate_limit_retries = missing;
  embedding_wait_seconds = missing;
  error = missing;
  started_at_utc = missing;
  finished_at_utc = missing;
  lease_owner = missing;
  lease_until = missing;
  claimed_at_utc = missing;
  next_retry_at_utc = missing;
}
