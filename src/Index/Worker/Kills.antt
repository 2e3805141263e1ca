-- ===== src/Index/Worker/Kills.antt =====
-- What a kill says and leaves behind.
use geek_crawler_rag.Base.{
  ℕ, ◌≡◌, ◌∙◌, refl, sym, subst, true, ◌++◌, List, ◌∷◌, Option, some, if◌then◌else◌, Text, codes,
  strip, arith,
}
use geek_crawler_rag.Mongo.Collection.{Collection}
use geek_crawler_rag.Jobs.Model.{IndexState, IndexStatus, JobRow, from_doc, is_terminal, set_status}
use geek_crawler_rag.Jobs.Store.{owned_by}
use geek_crawler_rag.Jobs.Lease.{get_row}
use geek_crawler_rag.Index.Admit.{Node}
use geek_crawler_rag.Index.Run.{Progress, persist, end_run, end_status, fail_quarantined}
use geek_crawler_rag.Index.Run.Stored.{persist_lem}
use geek_crawler_rag.Index.Worker.{Killing, KillOutcome, fresh, kill_in, kill}

from_doc-run_id : (row : JobRow) → (from_doc row).run_id ≡ row.run_id
unfolding from_doc
from_doc-run_id row = refl

module _ (jobs : Collection JobRow) (owner : Text) (stats : List Node → ℕ × ℕ)
    (str : ℕ → Text) where
  -- What a kill says and does, by the state of the stored status; a status that is not under way any
  -- more, and one of a running job, stay as they are, and what is failed is written and posted where
  -- the row is leased to this service.
  abbrev pub IsKilled :
      IndexStatus
      → JobRow
      → Text
      → Text
      → ℕ
      → Option Text
      → jobs.Docs
      → List IndexStatus
      → Killing jobs.Docs
      → Type 0
  IsKilled status row run reason now flag docs sent k =
      (is_terminal status.state ≡ true
        → (k.outcome ≡ KillOutcome.already_terminal)
          × (k.flag ≡ flag)
          × (k.held ≡ some status)
          × (k.docs ≡ docs)
          × (k.sent ≡ sent))
      × (status.state ≡ IndexState.running
          → (k.outcome ≡ KillOutcome.stopping)
            × (k.flag ≡ some reason)
            × (k.held ≡ some status)
            × (k.docs ≡ docs)
            × (k.sent ≡ sent))
      × (status.state ≡ IndexState.pending
          → let mine = owned_by owner row.lease_owner in
            (k.outcome ≡ KillOutcome.dequeued)
            × (k.flag ≡ some reason)
            × (failed : IndexStatus) × (k.held ≡ some failed)
            × (failed.run_id ≡ status.run_id)
            × (failed.state ≡ IndexState.failed)
            × (failed.finished_at_utc ≡ some now)
            × (failed.error ≡ some (codes "Killed by operator before it started: " ++ reason))
            × (jobs.find_one k.docs run ≡ (if mine then some (set_status failed row) else some row))
            × (k.sent ≡ (if mine then failed ∷ sent else sent)))

  kill_in_lem :
      (state : IndexState) (run reason : Text) (now : ℕ) (flag : Option Text)
      (p : Progress jobs.Docs) (row : JobRow)
      → p.status.state ≡ state
      → p.status.run_id ≡ run
      → jobs.find_one p.docs p.status.run_id ≡ some row
      → IsKilled p.status row run reason now flag p.docs p.sent
          (kill_in jobs owner stats str state reason now flag p)
  unfolding fail_quarantined end_run end_status persist
  kill_in_lem IndexState.pending run reason now flag p row s r e =
      let error : Text = codes "Killed by operator before it started: " ++ reason in
      let ended = record p { status = end_status IndexState.failed (some error) now p.status } in
      let (stored, posted) = persist_lem jobs owner stats str true ended row e in
      (
        (λ t. absurd (ground (arith, t, s))),
        (λ t. absurd cc),
        λ t. (refl, refl, ended.status, refl, refl, refl, refl, refl, rw (sym r) stored, posted),
      )
  kill_in_lem IndexState.running run reason now flag p row s r e =
      ((λ t. absurd (ground (arith, t, s))), (λ t. (refl, refl, refl, refl, refl)), λ t. absurd cc)
  kill_in_lem IndexState.complete run reason now flag p row s r e =
      ((λ t. (refl, refl, refl, refl, refl)), (λ t. absurd cc), λ t. absurd cc)
  kill_in_lem IndexState.failed run reason now flag p row s r e =
      ((λ t. (refl, refl, refl, refl, refl)), (λ t. absurd cc), λ t. absurd cc)
  kill_in_lem IndexState.skipped run reason now flag p row s r e =
      ((λ t. (refl, refl, refl, refl, refl)), (λ t. absurd cc), λ t. absurd cc)

  -- A kill of a run whose row is stored. Where the run has ended, it changes nothing and says so; where
  -- it is running, it only sets the operator's flag; in both cases the service then holds the stored
  -- status. Where it waits, the flag is set and the service holds it as failed at that time for that
  -- reason; the failed status is written to the row, and posted, where the row is leased to this
  -- service, and where it is not, the row stays as it was and nothing is posted.
  pub kill_lem :
      (run_id reason : Text) (now : ℕ) (flag : Option Text) (held : Option IndexStatus)
      (docs : jobs.Docs) (sent : List IndexStatus) (row : JobRow)
      → jobs.find_one docs (strip run_id) ≡ some row
      → row.run_id ≡ strip run_id
      → IsKilled
          (from_doc row)
          row
          (strip run_id)
          reason
          now
          flag
          docs
          sent
          (kill jobs owner stats str run_id reason now flag held docs sent)
  unfolding kill
  kill_lem run_id reason now flag held docs sent row e r =
      rw (get_row jobs docs (strip run_id) row e) (
        kill_in_lem (from_doc row).state (strip run_id) reason now flag
          (fresh jobs owner stats str (from_doc row) docs sent) row refl (same_run ∙ r)
          (subst (λ x. jobs.find_one docs x ≡ some row) (sym (same_run ∙ r)) e))
    where
      same_run : (from_doc row).run_id ≡ row.run_id
      same_run = from_doc-run_id row
