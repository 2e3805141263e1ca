-- ===== src/Index/Run.antt =====
-- `IndexService._index_run` of src/geek_crawler_rag/indexer.py and the methods that it calls, where
-- the job rows are kept in a status store. What the run reads from the crawl's database, from the
-- embedding engine and from the operator is in `Visit` and `World`.

pub mod Counts
pub mod Stored
pub mod Texts
use geek_crawler_rag.Base.{
  ℕ, suc, zero, ◌+◌, ◌-◌, Bool, true, false, List, [], ◌∷◌, ◌++◌, Option, none, some, if◌then◌else◌,
  Text, codes, is_empty, length, ltb, leb,
}
use geek_crawler_rag.Mongo.Collection.{Collection}
use geek_crawler_rag.Jobs.Model.{IndexState, IndexStatus, JobRow}
use geek_crawler_rag.Jobs.Store.{save}
use geek_crawler_rag.Index.Admit.{Node, Owners, admit_page_nodes}

-- A result of `classify_unusable_page`, or what `page_to_nodes` skips for.
pub data Reason : Type 0 where
  locale http_error sitemap failure no_content extract_empty non_english : Reason

-- A call that returns or raises.
pub data Answer {ℓ} (A : Type ℓ) : Type ℓ where
  answered : A → Answer A
  raised : Text → Answer A

pub data PageNodes : Type 0 where
  empty lang : PageNodes
  made : List Node → ℕ → PageNodes

-- `embed_and_upsert`: the number of points written, `EmbeddingCircuitOpen`, or another exception.
pub data Embedded : Type 0 where
  upserted : ℕ → Embedded
  circuit_open : (reason path : Text) → Embedded
  embed_raised : Text → Embedded

-- One page of the pass, with what is read while it is handled: the operator's kill before it and
-- before a batch, its classification, its nodes, and what the engine does with a batch.
pub record Visit : Type 0 where
  pub killed : Option Text
  pub page_id : Text
  pub reject : Option Reason
  pub nodes : Answer PageNodes
  pub killed_at_batch : Option Text
  pub embedded : Embedded

pub record CrawlRun : Type 0 where
  pub crawl_type : Option Text

pub record World : Type 0 where
  pub killed : Option Text
  pub started_at : ℕ
  pub finished_at : ℕ
  pub run : Answer (Option CrawlRun)
  pub page_count : Answer ℕ
  -- `ensure_collection` and `_delete_run_points`
  pub cleared : Answer (Unit {0})
  pub visits : List Visit
  -- The exception that ends `iter_pages`, where there is one.
  pub interrupted : Option Text
  pub killed_at_end : Option Text
  pub embedded_at_end : Embedded

-- How the call ends: it returns, or raises `JobKilled` or what the first calls raised.
pub data RunEnd : Type 0 where
  returned : RunEnd
  job_killed : Text → RunEnd
  unhandled : Text → RunEnd

-- What the run changes. `offered` holds the nodes that the engine was given, also in a call that raised,
-- since the run's points were deleted, and `sent` the statuses posted, the last one first.
pub record Progress (Docs : Type 0) : Type 0 where
  pub status : IndexStatus
  pub docs : Docs
  pub sent : List IndexStatus
  pub owners : Owners
  pub pending : List Node
  pub offered : List Node

-- The loop goes on, or an exception leaves it.
pub data Stop : Type 0 where
  killed : Text → Stop
  circuit : (reason path : Text) → Stop
  error_raised : Text → Stop

pub record Pass (Docs : Type 0) : Type 0 where
  pub stop : Option Stop
  pub progress : Progress Docs

-- `reason not in ("locale", "failure", "http_error", "sitemap")`
abbrev pub counts_as_empty : Reason → Bool
counts_as_empty locale = false
counts_as_empty http_error = false
counts_as_empty sitemap = false
counts_as_empty failure = false
counts_as_empty no_content = true
counts_as_empty extract_empty = true
counts_as_empty non_english = true

abbrev pub is_non_english : Reason → Bool
is_non_english non_english = true
is_non_english _ = false

-- `_skip_unusable`
unfoldable pub skip_unusable : Reason → IndexStatus → IndexStatus
skip_unusable reason status =
    let counted = record status { pages_skipped_unusable = status.pages_skipped_unusable + 1 } in
    if is_non_english reason
    then record counted { pages_skipped_lang = counted.pages_skipped_lang + 1 }
    else if counts_as_empty reason
    then record counted { pages_skipped_empty = counted.pages_skipped_empty + 1 }
    else counted

-- `"extract_empty" if reject == "no_content" else reject`
abbrev pub skip_reason : Reason → Reason
skip_reason no_content = extract_empty
skip_reason r = r

-- The fields that a run resets when it starts.
unfoldable pub start_status : ℕ → IndexStatus → IndexStatus
start_status now status = record status {
  state = IndexState.running;
  started_at_utc = some now;
  finished_at_utc = none;
  error = none;
  pages_seen = 0;
  pages_english = 0;
  pages_skipped_lang = 0;
  pages_skipped_empty = 0;
  pages_skipped_unusable = 0;
  chunks_upserted = 0;
  chunks_skipped_repeat = 0;
  chunks_skipped_stub = 0;
  embedding_rate_limit_retries = 0;
  embedding_wait_seconds = 0;
}

-- The status at an end of the run.
unfoldable pub end_status : IndexState → Option Text → ℕ → IndexStatus → IndexStatus
end_status state error now status = record status {
  state = state;
  error = error;
  finished_at_utc = some now;
}

-- The safety cap on the pages of a run.
abbrev pub max_pages : ℕ
max_pages = 50000

-- `stats` is what `embedding_stats` of the engine reads once it was given those nodes, and `str`
-- writes a number.
module _ (jobs : Collection JobRow) (owner : Text) (stats : List Node → ℕ × ℕ)
    (str : ℕ → Text) where
  -- `_persist`: the store is written first, and a status that it refuses is not posted.
  unfoldable pub persist : Bool → Progress jobs.Docs → Progress jobs.Docs
  persist notify p =
      let (saved, docs') = save jobs p.docs p.status owner in
      record p {
        docs = docs';
        sent = if saved then (if notify then p.status ∷ p.sent else p.sent) else p.sent;
      }

  -- `_sync_embedding_stats`, since the run started.
  unfoldable pub sync_embedding_stats : Progress jobs.Docs → Progress jobs.Docs
  sync_embedding_stats p = record p {
    status = record p.status {
      embedding_rate_limit_retries = (stats p.offered).0 - (stats []).0;
      embedding_wait_seconds = (stats p.offered).1 - (stats []).1;
    };
  }

  -- An end of the run: the status is set, and persisted with a notification.
  unfoldable pub end_run : IndexState → Option Text → ℕ → Progress jobs.Docs → Progress jobs.Docs
  end_run state error now p =
      persist true (record p { status = end_status state error now p.status })

  -- `_fail_quarantined`
  unfoldable pub fail_quarantined : Text → ℕ → Progress jobs.Docs → Progress jobs.Docs
  fail_quarantined error now p = end_run IndexState.failed (some error) now p

  abbrev pub go : Progress jobs.Docs → Pass jobs.Docs
  go p = record { stop = none; progress = p }

  abbrev pub halt : Stop → Progress jobs.Docs → Pass jobs.Docs
  halt s p = record { stop = some s; progress = p }

  -- A batch is given to the engine; `notify` is whether the status is posted after it.
  unfoldable pub flush : Bool → Option Text → Embedded → Progress jobs.Docs → Pass jobs.Docs
  flush notify (some reason) embedded p = halt (killed reason) p
  flush notify none (circuit_open reason path) p =
      halt (circuit reason path) (record p { offered = p.offered ++ p.pending })
  flush notify none (embed_raised message) p =
      halt (error_raised message) (record p { offered = p.offered ++ p.pending })
  flush notify none (upserted n) p =
      let given = record p {
        status = record p.status { chunks_upserted = p.status.chunks_upserted + n };
        pending = [];
        offered = p.offered ++ p.pending;
      } in
      go (persist notify (sync_embedding_stats given))

  -- The nodes of a page that has text are counted, admitted, and a full batch is flushed.
  unfoldable pub take_nodes : ℕ → Visit → List Node → ℕ → Progress jobs.Docs → Pass jobs.Docs
  take_nodes batch v nodes stubs p =
      let (kept, repeats, owners') = admit_page_nodes v.page_id nodes p.owners in
      let taken = record p {
        status = record p.status {
          pages_english = p.status.pages_english + 1;
          chunks_skipped_stub = p.status.chunks_skipped_stub + stubs;
          chunks_skipped_repeat = p.status.chunks_skipped_repeat + repeats;
        };
        owners = owners';
        pending = p.pending ++ kept;
      } in
      if leb batch (length taken.pending)
      then flush false v.killed_at_batch v.embedded taken
      else go taken

  abbrev pub skip_page : Reason → Progress jobs.Docs → Pass jobs.Docs
  skip_page reason p = go (record p { status = skip_unusable reason p.status })

  abbrev pub read_nodes : ℕ → Visit → Answer PageNodes → Progress jobs.Docs → Pass jobs.Docs
  read_nodes batch v (raised message) p = halt (error_raised message) p
  read_nodes batch v (answered empty) p = skip_page extract_empty p
  read_nodes batch v (answered lang) p = skip_page non_english p
  read_nodes batch v (answered (made nodes stubs)) p = take_nodes batch v nodes stubs p

  abbrev pub classified : ℕ → Visit → Option Reason → Progress jobs.Docs → Pass jobs.Docs
  classified batch v (some reason) p = skip_page (skip_reason reason) p
  classified batch v none p = read_nodes batch v v.nodes p

  abbrev pub visit_alive : ℕ → Visit → Option Text → Progress jobs.Docs → Pass jobs.Docs
  visit_alive batch v (some reason) p = halt (killed reason) p
  visit_alive batch v none p =
      classified batch v v.reject
        (record p { status = record p.status { pages_seen = p.status.pages_seen + 1 } })

  -- The body of the loop over the pages.
  unfoldable pub visit_page : ℕ → Visit → Progress jobs.Docs → Pass jobs.Docs
  visit_page batch v p = visit_alive batch v v.killed p

  -- What comes after a pass, unless an exception left it.
  abbrev pub next : Pass jobs.Docs → Pass jobs.Docs → Option Stop → Pass jobs.Docs
  next pass rest none = rest
  next pass rest (some s) = pass

  -- The loop over the pages of all batches of `iter_pages`.
  unfoldable pub visit_pages : ℕ → List Visit → Progress jobs.Docs → Pass jobs.Docs
  visit_pages batch [] p = go p
  visit_pages batch (v ∷ vs) p =
      let pass = visit_page batch v p in next pass (visit_pages batch vs pass.progress) pass.stop

  -- What is left after the loop is flushed.
  abbrev pub flush_rest : World → List Node → Progress jobs.Docs → Pass jobs.Docs
  flush_rest w [] p = go p
  flush_rest w (n ∷ ns) p = flush true w.killed_at_end w.embedded_at_end p

  abbrev pub interrupt : World → Option Text → Progress jobs.Docs → Pass jobs.Docs
  interrupt w (some message) p = halt (error_raised message) p
  interrupt w none p = flush_rest w p.pending p

  -- The body of the `try`.
  unfoldable pub index_pages : ℕ → World → Progress jobs.Docs → Pass jobs.Docs
  index_pages batch w p =
      let pass = visit_pages batch w.visits p in
      next pass (interrupt w w.interrupted pass.progress) pass.stop

  abbrev pub circuit_error : Text → Text → Text
  circuit_error reason path =
      codes "Embedding quarantined ("
      ++ reason
      ++ codes "). Quarantine: "
      ++ path
      ++ codes ". Already upserted points preserved."

  -- A run that read all its pages is complete, also where none of them had text to embed.
  unfoldable pub complete_run : World → Progress jobs.Docs → Progress jobs.Docs
  complete_run w p =
      if leb p.status.pages_english 0
      then end_run IndexState.complete
          (some (codes "No English pages to embed (pages left in place)")) w.finished_at p
      else end_run IndexState.complete p.status.error w.finished_at (sync_embedding_stats p)

  -- The handlers of the `try`, and what follows it.
  unfoldable pub conclude : World → Option Stop → Progress jobs.Docs → RunEnd × Progress jobs.Docs
  conclude w none p = (returned, complete_run w p)
  conclude w (some (killed reason)) p = (job_killed reason, sync_embedding_stats p)
  conclude w (some (circuit reason path)) p = (
    returned,
    fail_quarantined (circuit_error reason path) w.finished_at (sync_embedding_stats p),
  )
  conclude w (some (error_raised message)) p = (
    returned,
    fail_quarantined (codes "Indexing failed: " ++ message) w.finished_at (sync_embedding_stats p),
  )

  abbrev pub cap_error : ℕ → Text
  cap_error n =
      codes "mongoPageCount="
      ++ str n
      ++ codes " exceeds safety cap "
      ++ str 50000
      ++ codes "; refusing index (re-POST after crawl is complete if intentional)"

  -- The run's points are deleted, and the pages of the run indexed.
  unfoldable pub replace_index :
      ℕ → World → Answer (Unit {0}) → Progress jobs.Docs → RunEnd × Progress jobs.Docs
  replace_index batch w (raised message) p = (unhandled message, p)
  replace_index batch w (answered _) p =
      let pass = index_pages batch w (record p { owners = []; pending = []; offered = [] }) in
      conclude w pass.stop pass.progress

  abbrev pub clear_empty :
      World → Answer (Unit {0}) → Progress jobs.Docs → RunEnd × Progress jobs.Docs
  clear_empty w (raised message) p = (unhandled message, p)
  clear_empty w (answered _) p = (
    returned,
    end_run IndexState.complete (some (codes "No Mongo pages for run")) w.finished_at
        (record p { offered = [] }),
  )

  -- Whether the run has too many pages, and whether it has none, decides.
  abbrev pub by_count :
      ℕ → World → ℕ → Bool → Bool → Progress jobs.Docs → RunEnd × Progress jobs.Docs
  by_count batch w n true none_left p =
      (returned, end_run IndexState.failed (some (cap_error n)) w.finished_at p)
  by_count batch w n false true p = clear_empty w w.cleared p
  by_count batch w n false false p = replace_index batch w w.cleared p

  unfoldable pub index_count :
      ℕ → World → Answer ℕ → Progress jobs.Docs → RunEnd × Progress jobs.Docs
  index_count batch w (raised message) p = (unhandled message, p)
  index_count batch w (answered n) p =
      by_count batch w n (ltb max_pages n) (leb n 0)
        (persist true (record p { status = record p.status { mongo_page_count = some n } }))

  unfoldable pub index_found :
      ℕ → World → Answer (Option CrawlRun) → Progress jobs.Docs → RunEnd × Progress jobs.Docs
  index_found batch w (raised message) p = (unhandled message, p)
  index_found batch w (answered none) p = (
    returned,
    end_run IndexState.failed (some (codes "Run not found: " ++ p.status.run_id)) w.finished_at p,
  )
  index_found batch w (answered (some run)) p =
      index_count batch w w.page_count
        (record p { status = record p.status { crawl_type = run.crawl_type } })

  abbrev pub index_alive :
      ℕ → World → Option Text → Progress jobs.Docs → RunEnd × Progress jobs.Docs
  index_alive batch w (some reason) p = (job_killed reason, p)
  index_alive batch w none p =
      index_found batch w w.run
        (persist true (record p { status = start_status w.started_at p.status }))

  -- `_index_run`, from the status that the service holds of the run.
  unfoldable pub index_run : ℕ → World → Progress jobs.Docs → RunEnd × Progress jobs.Docs
  index_run batch w p = index_alive batch w w.killed p
