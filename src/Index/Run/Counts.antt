-- ===== src/Index/Run/Counts.antt =====
-- The counters of an index run.
use geek_crawler_rag.Base.{
  ℕ, ◌+◌, ◌≤◌, ◌≡◌, ◌≢◌, ◌⊎◌, ◌++◌, refl, inl, inr, Bool, true, false, List, [], ◌∷◌, Option, none,
  some, Text, codes, length, leb, ltb, arith, Bool-cases,
}
use geek_crawler_rag.Mongo.Collection.{Collection}
use geek_crawler_rag.Jobs.Model.{IndexState, IndexStatus, JobRow}
use geek_crawler_rag.Index.Admit.{Node, admit_page_nodes}
use geek_crawler_rag.Index.Run.Stored.{IsMine, IsStored, index_run-Ends}
use geek_crawler_rag.Index.Run.{
  Reason, PageNodes, Answer, answered, raised, Embedded, Visit, World, CrawlRun, RunEnd, Progress,
  Stop, Pass, skip_unusable, start_status, end_status, skip_reason, persist, sync_embedding_stats,
  end_run, fail_quarantined, flush, take_nodes, skip_page, read_nodes, classified, visit_alive,
  visit_page, visit_pages, flush_rest, interrupt, next, index_pages, complete_run, conclude,
  replace_index, index_count, index_found, index_alive, index_run, clear_empty, circuit_error,
  by_count, max_pages,
}

-- Every page seen was embedded or skipped, but for the number `left`; a skipped page has at most one
-- of the two reasons that are counted apart.
pub record IsCounted (left : ℕ) (status : IndexStatus) : Type 0 where
  pub seen : status.pages_seen ≡ status.pages_english + status.pages_skipped_unusable + left
  pub skipped :
      status.pages_skipped_lang + status.pages_skipped_empty ≤ status.pages_skipped_unusable

skip_unusable-IsCounted :
    (reason : Reason) (status : IndexStatus)
    → IsCounted 1 status
    → IsCounted 0 (skip_unusable reason status)
unfolding skip_unusable
skip_unusable-IsCounted reason status h = record {
  seen = grind (arith, h.seen, reason);
  skipped = grind (arith, h.skipped, reason);
}

module _ (jobs : Collection JobRow) (owner : Text) (stats : List Node → ℕ × ℕ)
    (str : ℕ → Text) where
  -- Where a pass goes on nothing is left over, and where an exception leaves it, one page at most.
  abbrev pub PassCounted : Pass jobs.Docs → Type 0
  PassCounted pass =
      ((pass.stop ≡ none) × IsCounted 0 pass.progress.status)
      ⊎ ((pass.stop ≢ none) × (IsCounted 0 pass.progress.status ⊎ IsCounted 1 pass.progress.status))

  flush-Counted :
      (notify : Bool) (kill : Option Text) (embedded : Embedded) (p : Progress jobs.Docs)
      → IsCounted 0 p.status
      → PassCounted (flush jobs owner stats str notify kill embedded p)
  unfolding flush persist sync_embedding_stats
  flush-Counted notify (some r) embedded p h = inr ((λ e. cc), inl h)
  flush-Counted notify none (Embedded.circuit_open r path) p h = inr ((λ e. cc), inl h)
  flush-Counted notify none (Embedded.embed_raised m) p h = inr ((λ e. cc), inl h)
  flush-Counted notify none (Embedded.upserted n) p h =
      inl (refl, record { seen = h.seen; skipped = h.skipped })

  take_nodes-Counted :
      (batch : ℕ) (v : Visit) (nodes : List Node) (stubs : ℕ) (p : Progress jobs.Docs)
      → IsCounted 1 p.status
      → PassCounted (take_nodes jobs owner stats str batch v nodes stubs p)
  unfolding take_nodes
  take_nodes-Counted batch v nodes stubs p h =
      let (kept, repeats, owners') = admit_page_nodes v.page_id nodes p.owners in
      let taken = record p {
        status = record p.status {
          pages_english = p.status.pages_english + 1;
          chunks_skipped_stub = p.status.chunks_skipped_stub + stubs;
          chunks_skipped_repeat = p.status.chunks_skipped_repeat + repeats;
        };
        owners = owners';
        pending = p.pending ++ kept;
      } in
      let counted : IsCounted 0 taken.status = record {
        seen = omega (arith, h.seen);
        skipped = h.skipped;
      } in
      elim (Bool-cases (leb batch (length taken.pending))) [
        | inl b ↦ rw b (flush-Counted false v.killed_at_batch v.embedded taken counted)
        | inr b ↦ rw b (inl (refl, counted))
      ]

  skip_page-Counted :
      (reason : Reason) (p : Progress jobs.Docs)
      → IsCounted 1 p.status
      → PassCounted (skip_page jobs owner stats str reason p)
  skip_page-Counted reason p h = inl (refl, skip_unusable-IsCounted reason p.status h)

  read_nodes-Counted :
      (batch : ℕ) (v : Visit) (nodes : Answer PageNodes) (p : Progress jobs.Docs)
      → IsCounted 1 p.status
      → PassCounted (read_nodes jobs owner stats str batch v nodes p)
  read_nodes-Counted batch v (raised message) p h = inr ((λ e. cc), inr h)
  read_nodes-Counted batch v (answered PageNodes.empty) p h =
      skip_page-Counted Reason.extract_empty p h
  read_nodes-Counted batch v (answered PageNodes.lang) p h =
      skip_page-Counted Reason.non_english p h
  read_nodes-Counted batch v (answered (PageNodes.made nodes stubs)) p h =
      take_nodes-Counted batch v nodes stubs p h

  classified-Counted :
      (batch : ℕ) (v : Visit) (reject : Option Reason) (p : Progress jobs.Docs)
      → IsCounted 1 p.status
      → PassCounted (classified jobs owner stats str batch v reject p)
  classified-Counted batch v (some reason) p h = skip_page-Counted (skip_reason reason) p h
  classified-Counted batch v none p h = read_nodes-Counted batch v v.nodes p h

  visit_alive-Counted :
      (batch : ℕ) (v : Visit) (kill : Option Text) (p : Progress jobs.Docs)
      → IsCounted 0 p.status
      → PassCounted (visit_alive jobs owner stats str batch v kill p)
  visit_alive-Counted batch v (some reason) p h = inr ((λ e. cc), inl h)
  visit_alive-Counted batch v none p h =
      classified-Counted batch v v.reject
        (record p { status = record p.status { pages_seen = p.status.pages_seen + 1 } })
        (record { seen = omega (arith, h.seen); skipped = h.skipped })

  next-Counted :
      (pass rest : Pass jobs.Docs) (stop : Option Stop)
      → pass.stop ≡ stop
      → PassCounted pass
      → (IsCounted 0 pass.progress.status → PassCounted rest)
      → PassCounted (next jobs owner stats str pass rest stop)
  next-Counted pass rest none e (inl (i, h)) f = f h
  next-Counted pass rest none e (inr (n, h)) f = absurd (n e)
  next-Counted pass rest (some s) e h f = h

  visit_pages-Counted :
      (batch : ℕ) (vs : List Visit) (p : Progress jobs.Docs)
      → IsCounted 0 p.status
      → PassCounted (visit_pages jobs owner stats str batch vs p)
  unfolding visit_pages visit_page
  visit_pages-Counted batch [] p h = inl (refl, h)
  visit_pages-Counted batch (v ∷ vs) p h =
      let pass = visit_page jobs owner stats str batch v p in
      next-Counted pass (visit_pages jobs owner stats str batch vs pass.progress) pass.stop refl
        (visit_alive-Counted batch v v.killed p h) (visit_pages-Counted batch vs pass.progress)

  flush_rest-Counted :
      (w : World) (pending : List Node) (p : Progress jobs.Docs)
      → IsCounted 0 p.status
      → PassCounted (flush_rest jobs owner stats str w pending p)
  flush_rest-Counted w [] p h = inl (refl, h)
  flush_rest-Counted w (n ∷ ns) p h = flush-Counted true w.killed_at_end w.embedded_at_end p h

  interrupt-Counted :
      (w : World) (message : Option Text) (p : Progress jobs.Docs)
      → IsCounted 0 p.status
      → PassCounted (interrupt jobs owner stats str w message p)
  interrupt-Counted w (some message) p h = inr ((λ e. cc), inl h)
  interrupt-Counted w none p h = flush_rest-Counted w p.pending p h

  index_pages-Counted :
      (batch : ℕ) (w : World) (p : Progress jobs.Docs)
      → IsCounted 0 p.status
      → PassCounted (index_pages jobs owner stats str batch w p)
  unfolding index_pages
  index_pages-Counted batch w p h =
      let pass = visit_pages jobs owner stats str batch w.visits p in
      next-Counted pass (interrupt jobs owner stats str w w.interrupted pass.progress) pass.stop
        refl (visit_pages-Counted batch w.visits p h)
        (interrupt-Counted w w.interrupted pass.progress)

  -- What a run's end says of its counters.
  abbrev pub IsTold : IndexStatus → Type 0
  IsTold status =
      (IsCounted 0 status ⊎ IsCounted 1 status)
      × (status.state ≡ IndexState.complete → IsCounted 0 status)
      × (status.finished_at_utc ≢ none)

  end_run-Told :
      (state : IndexState) (error : Option Text) (now : ℕ) (p : Progress jobs.Docs)
      → IsCounted 0 p.status
      → IsTold (end_run jobs owner stats str state error now p).status
  unfolding end_run persist end_status
  end_run-Told state error now p h =
      let k : IsCounted 0 (end_status state error now p.status) = record {
        seen = h.seen;
        skipped = h.skipped;
      } in
      (inl k, (λ e. k), λ e. cc)

  fail-Told :
      (error : Text) (now : ℕ) (p : Progress jobs.Docs)
      → IsCounted 0 p.status ⊎ IsCounted 1 p.status
      → IsTold
          (fail_quarantined jobs owner stats str error now
            (sync_embedding_stats jobs owner stats str p)).status
  unfolding fail_quarantined end_run persist end_status sync_embedding_stats
  fail-Told error now p (inl h) =
      (inl (record { seen = h.seen; skipped = h.skipped }), (λ e. cc), λ e. cc)
  fail-Told error now p (inr h) =
      (inr (record { seen = h.seen; skipped = h.skipped }), (λ e. cc), λ e. cc)

  complete_run-Told :
      (w : World) (p : Progress jobs.Docs)
      → IsCounted 0 p.status
      → IsTold (complete_run jobs owner stats str w p).status
  unfolding complete_run sync_embedding_stats
  complete_run-Told w p h = elim (Bool-cases (leb p.status.pages_english 0)) [
    | inl b ↦ rw b (end_run-Told IndexState.complete _ w.finished_at p h)
    | inr b ↦ rw b (
        end_run-Told IndexState.complete p.status.error w.finished_at
          (sync_embedding_stats jobs owner stats str p)
          (record { seen = h.seen; skipped = h.skipped }))
  ]

  conclude-Told :
      (w : World) (stop : Option Stop) (p : Progress jobs.Docs)
      → ((stop ≡ none) × IsCounted 0 p.status)
        ⊎ ((stop ≢ none) × (IsCounted 0 p.status ⊎ IsCounted 1 p.status))
      → (conclude jobs owner stats str w stop p).0 ≡ RunEnd.returned
      → IsTold (conclude jobs owner stats str w stop p).1.status
  unfolding conclude
  conclude-Told w none p (inl (e, h)) r = complete_run-Told w p h
  conclude-Told w none p (inr (n, h)) r = absurd (n refl)
  conclude-Told w (some s) p (inl (e, h)) r = absurd cc
  conclude-Told w (some (Stop.killed reason)) p (inr (n, h)) r = absurd cc
  conclude-Told w (some (Stop.circuit reason path)) p (inr (n, h)) r =
      fail-Told (circuit_error jobs owner stats str reason path) w.finished_at p h
  conclude-Told w (some (Stop.error_raised message)) p (inr (n, h)) r =
      fail-Told (codes "Indexing failed: " ++ message) w.finished_at p h

  module _ (batch : ℕ) (w : World) where
    replace_index-Told :
        (cleared : Answer (Unit {0})) (p : Progress jobs.Docs)
        → IsCounted 0 p.status
        → (replace_index jobs owner stats str batch w cleared p).0 ≡ RunEnd.returned
        → IsTold (replace_index jobs owner stats str batch w cleared p).1.status
    unfolding replace_index
    replace_index-Told (raised message) p h r = absurd cc
    replace_index-Told (answered u) p h r =
        let pass =
          index_pages jobs owner stats str batch w
            (record p { owners = []; pending = []; offered = [] }) in
        conclude-Told w pass.stop pass.progress
          (index_pages-Counted batch w (record p { owners = []; pending = []; offered = [] }) h) r

    clear_empty-Told :
        (cleared : Answer (Unit {0})) (p : Progress jobs.Docs)
        → IsCounted 0 p.status
        → (clear_empty jobs owner stats str w cleared p).0 ≡ RunEnd.returned
        → IsTold (clear_empty jobs owner stats str w cleared p).1.status
    clear_empty-Told (raised message) p h r = absurd cc
    clear_empty-Told (answered u) p h r =
        end_run-Told IndexState.complete _ w.finished_at (record p { offered = [] }) h

    by_count-Told :
        (n : ℕ) (many zero_pages : Bool) (p : Progress jobs.Docs)
        → IsCounted 0 p.status
        → (by_count jobs owner stats str batch w n many zero_pages p).0 ≡ RunEnd.returned
        → IsTold (by_count jobs owner stats str batch w n many zero_pages p).1.status
    by_count-Told n true zero_pages p h r = end_run-Told IndexState.failed _ w.finished_at p h
    by_count-Told n false true p h r = clear_empty-Told w.cleared p h r
    by_count-Told n false false p h r = replace_index-Told w.cleared p h r

    index_count-Told :
        (count : Answer ℕ) (p : Progress jobs.Docs)
        → IsCounted 0 p.status
        → (index_count jobs owner stats str batch w count p).0 ≡ RunEnd.returned
        → IsTold (index_count jobs owner stats str batch w count p).1.status
    unfolding index_count persist
    index_count-Told (raised message) p h r = absurd cc
    index_count-Told (answered n) p h r =
        by_count-Told n (ltb max_pages n) (leb n 0)
          (persist jobs owner stats str true
            (record p { status = record p.status { mongo_page_count = some n } }))
          (record { seen = h.seen; skipped = h.skipped }) r

    index_found-Told :
        (run : Answer (Option CrawlRun)) (p : Progress jobs.Docs)
        → IsCounted 0 p.status
        → (index_found jobs owner stats str batch w run p).0 ≡ RunEnd.returned
        → IsTold (index_found jobs owner stats str batch w run p).1.status
    unfolding index_found
    index_found-Told (raised message) p h r = absurd cc
    index_found-Told (answered none) p h r = end_run-Told IndexState.failed _ w.finished_at p h
    index_found-Told (answered (some run)) p h r =
        index_count-Told w.page_count
          (record p { status = record p.status { crawl_type = run.crawl_type } })
          (record { seen = h.seen; skipped = h.skipped }) r

    index_alive-Told :
        (kill : Option Text) (p : Progress jobs.Docs)
        → (index_alive jobs owner stats str batch w kill p).0 ≡ RunEnd.returned
        → IsTold (index_alive jobs owner stats str batch w kill p).1.status
    unfolding persist start_status
    index_alive-Told (some reason) p r = absurd cc
    index_alive-Told none p r =
        index_found-Told w.run
          (persist jobs owner stats str true
            (record p { status = start_status w.started_at p.status }))
          (record { seen = refl; skipped = omega arith }) r

  index_run-Told :
      (batch : ℕ) (w : World) (p : Progress jobs.Docs)
      → (index_run jobs owner stats str batch w p).0 ≡ RunEnd.returned
      → IsTold (index_run jobs owner stats str batch w p).1.status
  unfolding index_run
  index_run-Told batch w p r = index_alive-Told batch w w.killed p r

  -- An index run that returns, of a job that was under way and whose row was stored and leased to the
  -- service, leaves the job complete or failed, with the time that it finished, and the row says so.
  -- Every page that it saw is counted once, as embedded or as skipped, but for one at most that an
  -- exception left, and none where the job is complete; no skipped page has two reasons.
  pub index_run_ends :
      (run : Text) (batch : ℕ) (w : World) (p : Progress jobs.Docs)
      → IsMine jobs owner stats str run p
      → (index_run jobs owner stats str batch w p).0 ≡ RunEnd.returned
      → let q = (index_run jobs owner stats str batch w p).1 in
        (IsCounted 0 q.status ⊎ IsCounted 1 q.status)
        × (q.status.state ≡ IndexState.complete → IsCounted 0 q.status)
        × (q.status.finished_at_utc ≢ none)
        × IsStored jobs owner stats str run q
  index_run_ends run batch w p mine r =
      let (counted, complete, finished) = index_run-Told batch w p r in
      elim (index_run-Ends jobs owner stats str run batch w p mine) [
        | inl (e, stored) ↦ (counted, complete, finished, stored)
        | inr (n, h) ↦ absurd (n r)
      ]
