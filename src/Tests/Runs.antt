-- ===== src/Tests/Runs.antt =====
-- An index run of two pages that share a text, and a kill, on the job rows of Tests/Leases.
use geek_crawler_rag.Base.{
  ℕ, ◌≡◌, ◌≢◌, ◌⊎◌, refl, inl, inr, true, List, [], ◌∷◌, ◌++◌, none, some, Text, text_eq, codes,
  length, All, strip,
}
use geek_crawler_rag.Mongo.Memory.{memory}
use geek_crawler_rag.Mongo.Field.{null, val}
use geek_crawler_rag.Jobs.Model.{IndexState, JobRow, dump, from_doc, is_active}
use geek_crawler_rag.Jobs.Store.{is_owned}
use geek_crawler_rag.Index.Admit.{Node, Owners, admit_page_nodes, keep_nodes, owner_of, own_texts}
use geek_crawler_rag.Index.Admit.Owners.{IsOwned, IsRepeat, Split, admit_page_nodes-IsOwned}
use geek_crawler_rag.Index.Run.{
  Reason, PageNodes, answered, Embedded, Visit, World, RunEnd, Progress, persist, end_run,
  index_run, index_found, index_count, skip_unusable, sync_embedding_stats, replace_index,
  index_pages, visit_pages, visit_page, take_nodes, flush, conclude, complete_run,
}
use geek_crawler_rag.Index.Run.Counts.{IsCounted, index_run_ends}
use geek_crawler_rag.Index.Run.Stored.{IsMine, IsStored}
use geek_crawler_rag.Index.Run.Texts.{replace_index_single}
use geek_crawler_rag.Index.Worker.{TurnEnd, Meanwhile, worker_turn, run_claimed_job, kill}
use geek_crawler_rag.Index.Worker.Kills.{IsKilled, kill_lem}
use geek_crawler_rag.Index.Worker.Turns.{IsUnderWay, worker_turn_ends}
use geek_crawler_rag.Tests.Leases.{jobs, run_a, alice, running_row, rows}

abbrev footer : Text
footer = codes "d1"

abbrev node_a : Node
node_a = record {
  id = codes "n1";
  page_id = codes "a";
  text_digest = footer;
  text = codes "call us";
}

abbrev node_b : Node
node_b = record {
  id = codes "n2";
  page_id = codes "b";
  text_digest = footer;
  text = codes "call us";
}

abbrev visit_a : Visit
visit_a = record {
  killed = none;
  page_id = codes "a";
  reject = none;
  nodes = answered (PageNodes.made (node_a ∷ node_a ∷ []) 1);
  killed_at_batch = none;
  embedded = Embedded.upserted 2;
}

abbrev visit_b : Visit
visit_b = record visit_a { page_id = codes "b"; nodes = answered (PageNodes.made (node_b ∷ []) 0) }

abbrev visit_c : Visit
visit_c = record visit_a {
  page_id = codes "c";
  reject = some Reason.sitemap;
  nodes = answered PageNodes.empty;
}

abbrev world : World
world = record {
  killed = none;
  started_at = 2000;
  finished_at = 3000;
  run = answered (some (record { crawl_type = none }));
  page_count = answered 3;
  cleared = answered tt;
  visits = visit_a ∷ visit_b ∷ visit_c ∷ [];
  interrupted = none;
  killed_at_end = none;
  embedded_at_end = Embedded.upserted 0;
}

abbrev stats : List Node → ℕ × ℕ
stats nodes = (0, 0)

abbrev str : ℕ → Text
str n = codes "n"

abbrev start : Progress jobs.Docs
start = record {
  status = from_doc running_row;
  docs = rows;
  sent = [];
  owners = [];
  pending = [];
  offered = [];
}

admit_example :
    let (kept, repeats, owners') =
      admit_page_nodes (codes "b") (node_b ∷ []) ((footer, codes "a") ∷ []) in
    let known : Owners = (footer, codes "a") ∷ [] in
    ((dropped : List Node) × Split
        (λ n. IsRepeat known (codes "b") n → ⊥)
        (IsRepeat known (codes "b"))
        (node_b ∷ [])
        kept
        dropped
      × (repeats ≡ length dropped))
    × All (IsOwned owners') ([] ++ kept)
admit_example =
    admit_page_nodes-IsOwned (codes "b") (node_b ∷ []) [] ((footer, codes "a") ∷ []) (refl, tt) tt

run_returned : (index_run jobs alice stats str 2 world start).0 ≡ RunEnd.returned
unfolding index_run index_found index_count replace_index index_pages visit_pages visit_page
    take_nodes flush conclude admit_page_nodes keep_nodes owner_of persist sync_embedding_stats
    own_texts text_eq
run_returned = refl

start-IsMine : IsMine jobs alice stats str run_a start
unfolding memory text_eq from_doc
start-IsMine = (refl, refl, running_row, refl, refl)

index_run_ends_example :
    let q = (index_run jobs alice stats str 2 world start).1 in
    (IsCounted 0 q.status ⊎ IsCounted 1 q.status)
    × (q.status.state ≡ IndexState.complete → IsCounted 0 q.status)
    × (q.status.finished_at_utc ≢ none)
    × IsStored jobs alice stats str run_a q
index_run_ends_example =
    index_run_ends jobs alice stats str run_a 2 world start start-IsMine run_returned

replace_index_single_example : node_a.page_id ≡ node_a.page_id
unfolding replace_index index_pages visit_pages visit_page take_nodes flush conclude complete_run
    admit_page_nodes keep_nodes owner_of own_texts persist end_run sync_embedding_stats text_eq
    skip_unusable from_doc
replace_index_single_example =
    replace_index_single jobs alice stats str 2 world start node_a node_a
      ((refl, (refl, tt)), ((refl, tt), (tt, tt))) (inl refl) (inr (inl refl)) refl refl

-- A status request in the middle of the run.
abbrev meanwhile : Meanwhile jobs.Docs
meanwhile = record { lost = none; loaded = some (from_doc running_row) }

turn_ran : (worker_turn jobs alice stats str 2 world 2000 900 meanwhile none start).0 ≡ TurnEnd.ran
unfolding worker_turn run_claimed_job is_owned memory text_eq from_doc
turn_ran = refl

under_way : is_active start.status.state ≡ true
unfolding from_doc
under_way = refl

loaded-IsUnderWay : IsUnderWay start.status.run_id meanwhile.loaded
unfolding from_doc
loaded-IsUnderWay = (refl, refl)

worker_turn_ends_example :
    let q = (worker_turn jobs alice stats str 2 world 2000 900 meanwhile none start).1 in
    ((q.status.state ≡ IndexState.complete) ⊎ (q.status.state ≡ IndexState.failed))
    × (row : JobRow) × (jobs.find_one q.docs start.status.run_id ≡ some row)
    × (row.state ≡ val q.status.state)
    × (row.error ≡ dump q.status.error)
    × (row.finished_at_utc ≡ dump q.status.finished_at_utc)
    × (row.lease_owner ≡ null)
    × (row.lease_until ≡ val world.finished_at)
worker_turn_ends_example =
    worker_turn_ends jobs alice stats str 2 world 2000 900 meanwhile none start under_way
      loaded-IsUnderWay turn_ran

-- The job of Tests/Leases before it started.
abbrev pending_row : JobRow
pending_row = record running_row { state = val IndexState.pending }

abbrev pending_rows : jobs.Docs
unfolding memory
pending_rows = (run_a, some pending_row) ∷ []

found_pending : jobs.find_one pending_rows (strip run_a) ≡ some pending_row
unfolding memory text_eq strip
found_pending = refl

same_run : pending_row.run_id ≡ strip run_a
unfolding strip
same_run = refl

kill_lem_example :
    IsKilled jobs alice stats str
      (from_doc pending_row)
      pending_row
      (strip run_a)
      (codes "stop")
      2500
      none
      pending_rows
      []
      (kill jobs alice stats str run_a (codes "stop") 2500 none none pending_rows [])
kill_lem_example =
    kill_lem jobs alice stats str run_a (codes "stop") 2500 none none pending_rows [] pending_row
      found_pending same_run
