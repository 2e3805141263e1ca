-- ===== src/Index/Run/Stored.antt =====
-- What an index run, and a write of its status, leave in the store.
use geek_crawler_rag.Base.{
  ℕ, ◌≡◌, ◌≢◌, ◌⊎◌, ◌∙◌, ◌++◌, refl, inl, inr, Bool, true, false, List, [], ◌∷◌, Option, none, some,
  if◌then◌else◌, Text, text_eq_refl, length, leb, ltb, Bool-cases,
}
use geek_crawler_rag.Mongo.Collection.{Collection}
use geek_crawler_rag.Jobs.Model.{IndexState, JobRow, is_active, set_status}
use geek_crawler_rag.Jobs.Store.{owned_by, save}
use geek_crawler_rag.Index.Admit.{Node, admit_page_nodes}
use geek_crawler_rag.Index.Run.{
  Reason, PageNodes, Answer, answered, raised, Embedded, Visit, World, CrawlRun, RunEnd, Progress,
  Stop, Pass, skip_unusable, start_status, end_status, skip_reason, persist, sync_embedding_stats,
  end_run, fail_quarantined, flush, take_nodes, skip_page, read_nodes, classified, visit_alive,
  visit_page, visit_pages, flush_rest, interrupt, next, index_pages, complete_run, conclude,
  replace_index, index_count, index_found, index_alive, index_run, clear_empty, by_count, max_pages,
}

module _ (jobs : Collection JobRow) (owner : Text) (stats : List Node → ℕ × ℕ)
    (str : ℕ → Text) where
  -- A status is written to the run's row, and posted if asked for, where the row is leased to this
  -- service; otherwise neither happens.
  pub persist_lem :
      (notify : Bool) (p : Progress jobs.Docs) (row : JobRow)
      → jobs.find_one p.docs p.status.run_id ≡ some row
      → let q = persist jobs owner stats str notify p in
        let mine = owned_by owner row.lease_owner in
        (jobs.find_one q.docs p.status.run_id
          ≡ (if mine then some (set_status p.status row) else some row))
        × (q.sent ≡ (if mine then (if notify then p.status ∷ p.sent else p.sent) else p.sent))
  unfolding persist save
  persist_lem notify p row e =
      let filter : JobRow → Bool = λ r. owned_by owner r.lease_owner in
      let found =
        jobs.find_one-update_one p.docs p.status.run_id filter (set_status p.status)
          p.status.run_id in
      let matched = jobs.matched-update_one p.docs p.status.run_id filter (set_status p.status) in
      (rw (found, text_eq_refl p.status.run_id, e) refl, rw (matched, e) refl)

  -- The job is the run's, waits or runs, and its row is stored, and leased to this service.
  abbrev pub IsMine : Text → Progress jobs.Docs → Type 0
  IsMine run p =
      (p.status.run_id ≡ run)
      × (is_active p.status.state ≡ true)
      × (row : JobRow) × (jobs.find_one p.docs p.status.run_id ≡ some row)
      × (owned_by owner row.lease_owner ≡ true)

  -- The job is complete or failed, and the run's row, still leased to this service, says so, with all
  -- that the status holds.
  abbrev pub IsStored : Text → Progress jobs.Docs → Type 0
  IsStored run p =
      (p.status.run_id ≡ run)
      × ((p.status.state ≡ IndexState.complete) ⊎ (p.status.state ≡ IndexState.failed))
      × (row : JobRow) × (jobs.find_one p.docs p.status.run_id ≡ some (set_status p.status row))
      × (owned_by owner row.lease_owner ≡ true)

  persist-IsMine :
      (run : Text) (notify : Bool) (p : Progress jobs.Docs)
      → IsMine run p
      → IsMine run (persist jobs owner stats str notify p)
  unfolding persist set_status
  persist-IsMine run notify p (r, a, row, e, o) =
      (r, a, set_status p.status row, (persist_lem notify p row e).0 ∙ rw o refl, o)

  pub end_run-IsStored :
      (run : Text) (state : IndexState) (error : Option Text) (now : ℕ) (p : Progress jobs.Docs)
      → (state ≡ IndexState.complete) ⊎ (state ≡ IndexState.failed)
      → IsMine run p
      → IsStored run (end_run jobs owner stats str state error now p)
  unfolding end_run persist end_status
  end_run-IsStored run state error now p s (r, a, row, e, o) =
      let ended = record p { status = end_status state error now p.status } in
      (r, s, row, (persist_lem true ended row e).0 ∙ rw o refl, o)

  module _ (run : Text) where
    flush-IsMine :
        (notify : Bool) (kill : Option Text) (embedded : Embedded) (p : Progress jobs.Docs)
        → IsMine run p
        → IsMine run (flush jobs owner stats str notify kill embedded p).progress
    unfolding flush sync_embedding_stats
    flush-IsMine notify (some r) embedded p h = h
    flush-IsMine notify none (Embedded.circuit_open r path) p h = h
    flush-IsMine notify none (Embedded.embed_raised m) p h = h
    flush-IsMine notify none (Embedded.upserted n) p h = persist-IsMine run notify _ h

    take_nodes-IsMine :
        (batch : ℕ) (v : Visit) (nodes : List Node) (stubs : ℕ) (p : Progress jobs.Docs)
        → IsMine run p
        → IsMine run (take_nodes jobs owner stats str batch v nodes stubs p).progress
    unfolding take_nodes
    take_nodes-IsMine batch v nodes stubs p h =
        let (kept, repeats, owners') = admit_page_nodes v.page_id nodes p.owners in
        elim (Bool-cases (leb batch (length (p.pending ++ kept)))) [
          | inl b ↦ rw b (flush-IsMine false v.killed_at_batch v.embedded _ h)
          | inr b ↦ rw b h
        ]

    skip_page-IsMine :
        (reason : Reason) (p : Progress jobs.Docs)
        → IsMine run p
        → IsMine run (skip_page jobs owner stats str reason p).progress
    unfolding skip_unusable
    skip_page-IsMine Reason.locale p h = h
    skip_page-IsMine Reason.http_error p h = h
    skip_page-IsMine Reason.sitemap p h = h
    skip_page-IsMine Reason.failure p h = h
    skip_page-IsMine Reason.no_content p h = h
    skip_page-IsMine Reason.extract_empty p h = h
    skip_page-IsMine Reason.non_english p h = h

    read_nodes-IsMine :
        (batch : ℕ) (v : Visit) (nodes : Answer PageNodes) (p : Progress jobs.Docs)
        → IsMine run p
        → IsMine run (read_nodes jobs owner stats str batch v nodes p).progress
    read_nodes-IsMine batch v (raised message) p h = h
    read_nodes-IsMine batch v (answered PageNodes.empty) p h =
        skip_page-IsMine Reason.extract_empty p h
    read_nodes-IsMine batch v (answered PageNodes.lang) p h =
        skip_page-IsMine Reason.non_english p h
    read_nodes-IsMine batch v (answered (PageNodes.made nodes stubs)) p h =
        take_nodes-IsMine batch v nodes stubs p h

    classified-IsMine :
        (batch : ℕ) (v : Visit) (reject : Option Reason) (p : Progress jobs.Docs)
        → IsMine run p
        → IsMine run (classified jobs owner stats str batch v reject p).progress
    classified-IsMine batch v (some reason) p h = skip_page-IsMine (skip_reason reason) p h
    classified-IsMine batch v none p h = read_nodes-IsMine batch v v.nodes p h

    visit_alive-IsMine :
        (batch : ℕ) (v : Visit) (kill : Option Text) (p : Progress jobs.Docs)
        → IsMine run p
        → IsMine run (visit_alive jobs owner stats str batch v kill p).progress
    visit_alive-IsMine batch v (some reason) p h = h
    visit_alive-IsMine batch v none p h = classified-IsMine batch v v.reject _ h

    next-IsMine :
        (pass rest : Pass jobs.Docs) (stop : Option Stop)
        → IsMine run pass.progress
        → IsMine run rest.progress
        → IsMine run (next jobs owner stats str pass rest stop).progress
    next-IsMine pass rest none h k = k
    next-IsMine pass rest (some s) h k = h

    visit_pages-IsMine :
        (batch : ℕ) (vs : List Visit) (p : Progress jobs.Docs)
        → IsMine run p
        → IsMine run (visit_pages jobs owner stats str batch vs p).progress
    unfolding visit_pages visit_page
    visit_pages-IsMine batch [] p h = h
    visit_pages-IsMine batch (v ∷ vs) p h =
        let pass = visit_page jobs owner stats str batch v p in
        let k = visit_alive-IsMine batch v v.killed p h in
        next-IsMine pass (visit_pages jobs owner stats str batch vs pass.progress) pass.stop k
          (visit_pages-IsMine batch vs pass.progress k)

    flush_rest-IsMine :
        (w : World) (pending : List Node) (p : Progress jobs.Docs)
        → IsMine run p
        → IsMine run (flush_rest jobs owner stats str w pending p).progress
    flush_rest-IsMine w [] p h = h
    flush_rest-IsMine w (n ∷ ns) p h = flush-IsMine true w.killed_at_end w.embedded_at_end p h

    interrupt-IsMine :
        (w : World) (message : Option Text) (p : Progress jobs.Docs)
        → IsMine run p
        → IsMine run (interrupt jobs owner stats str w message p).progress
    interrupt-IsMine w (some message) p h = h
    interrupt-IsMine w none p h = flush_rest-IsMine w p.pending p h

    -- A run that returns has its end stored, and one that raises is still the service's.
    abbrev pub Ends : RunEnd × Progress jobs.Docs → Type 0
    Ends (how, q) =
        ((how ≡ RunEnd.returned) × IsStored run q) ⊎ ((how ≢ RunEnd.returned) × IsMine run q)

    complete_run-IsStored :
        (w : World) (p : Progress jobs.Docs)
        → IsMine run p
        → IsStored run (complete_run jobs owner stats str w p)
    unfolding complete_run sync_embedding_stats
    complete_run-IsStored w p h = elim (Bool-cases (leb p.status.pages_english 0)) [
      | inl b ↦ rw b (end_run-IsStored run IndexState.complete _ w.finished_at p (inl refl) h)
      | inr b ↦ rw b (
          end_run-IsStored run IndexState.complete p.status.error w.finished_at
            (sync_embedding_stats jobs owner stats str p) (inl refl) h)
    ]

    fail-IsStored :
        (error : Text) (now : ℕ) (p : Progress jobs.Docs)
        → IsMine run p
        → IsStored run (
            fail_quarantined jobs owner stats str error now
              (sync_embedding_stats jobs owner stats str p))
    unfolding fail_quarantined sync_embedding_stats
    fail-IsStored error now p h =
        end_run-IsStored run IndexState.failed (some error) now
          (sync_embedding_stats jobs owner stats str p) (inr refl) h

    conclude-Ends :
        (w : World) (stop : Option Stop) (p : Progress jobs.Docs)
        → IsMine run p
        → Ends (conclude jobs owner stats str w stop p)
    unfolding conclude sync_embedding_stats
    conclude-Ends w none p h = inl (refl, complete_run-IsStored w p h)
    conclude-Ends w (some (Stop.killed reason)) p h = inr ((λ e. cc), h)
    conclude-Ends w (some (Stop.circuit reason path)) p h =
        inl (refl, fail-IsStored _ w.finished_at p h)
    conclude-Ends w (some (Stop.error_raised message)) p h =
        inl (refl, fail-IsStored _ w.finished_at p h)

    module _ (batch : ℕ) (w : World) where
      replace_index-Ends :
          (cleared : Answer (Unit {0})) (p : Progress jobs.Docs)
          → IsMine run p
          → Ends (replace_index jobs owner stats str batch w cleared p)
      unfolding replace_index index_pages
      replace_index-Ends (raised message) p h = inr ((λ e. cc), h)
      replace_index-Ends (answered u) p h =
          let start = record p { owners = []; pending = []; offered = [] } in
          let pass = visit_pages jobs owner stats str batch w.visits start in
          let k = visit_pages-IsMine batch w.visits start h in
          let last = index_pages jobs owner stats str batch w start in
          conclude-Ends w last.stop last.progress (
            next-IsMine pass (interrupt jobs owner stats str w w.interrupted pass.progress)
              pass.stop k (interrupt-IsMine w w.interrupted pass.progress k))

      by_count-Ends :
          (n : ℕ) (many zero_pages : Bool) (p : Progress jobs.Docs)
          → IsMine run p
          → Ends (by_count jobs owner stats str batch w n many zero_pages p)
      by_count-Ends n true zero_pages p h =
          inl (refl, end_run-IsStored run IndexState.failed _ w.finished_at p (inr refl) h)
      by_count-Ends n false true p h = clear w.cleared
        where
          clear : (c : Answer (Unit {0})) → Ends (clear_empty jobs owner stats str w c p)
          clear (raised message) = inr ((λ e. cc), h)
          clear (answered u) = inl (
            refl,
            end_run-IsStored run IndexState.complete _ w.finished_at (record p { offered = [] })
                (inl refl) h,
          )
      by_count-Ends n false false p h = replace_index-Ends w.cleared p h

      index_count-Ends :
          (count : Answer ℕ) (p : Progress jobs.Docs)
          → IsMine run p
          → Ends (index_count jobs owner stats str batch w count p)
      unfolding index_count
      index_count-Ends (raised message) p h = inr ((λ e. cc), h)
      index_count-Ends (answered n) p h =
          by_count-Ends n (ltb max_pages n) (leb n 0) _ (persist-IsMine run true _ h)

      index_found-Ends :
          (found : Answer (Option CrawlRun)) (p : Progress jobs.Docs)
          → IsMine run p
          → Ends (index_found jobs owner stats str batch w found p)
      unfolding index_found
      index_found-Ends (raised message) p h = inr ((λ e. cc), h)
      index_found-Ends (answered none) p h =
          inl (refl, end_run-IsStored run IndexState.failed _ w.finished_at p (inr refl) h)
      index_found-Ends (answered (some crawl)) p h = index_count-Ends w.page_count _ h

      index_alive-Ends :
          (kill : Option Text) (p : Progress jobs.Docs)
          → IsMine run p
          → Ends (index_alive jobs owner stats str batch w kill p)
      unfolding start_status
      index_alive-Ends (some reason) p h = inr ((λ e. cc), h)
      index_alive-Ends none p (r, a, row, e, o) = index_found-Ends w.run _ (
          persist-IsMine run true (record p { status = start_status w.started_at p.status })
            (r, refl, row, e, o))

      pub index_run-Ends :
          (p : Progress jobs.Docs) → IsMine run p → Ends (index_run jobs owner stats str batch w p)
      unfolding index_run
      index_run-Ends p h = index_alive-Ends w.killed p h
