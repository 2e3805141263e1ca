-- ===== src/Schedule/Tick.antt =====
-- `IndexScheduler.tick` of src/geek_crawler_rag/scheduler.py.
pub mod Laws
use geek_crawler_rag.Base.{
  ℕ, Bool, true, false, List, [], ◌∷◌, ◌++◌, Option, none, some, Text, codes, text_eq, ◌||◌,
}
use geek_crawler_rag.Mongo.Collection.{Collection}
use geek_crawler_rag.Jobs.Model.{JobRow}
use geek_crawler_rag.Jobs.Store.{has_active_job, excluded_run_ids}
use geek_crawler_rag.Jobs.Scheduler.{SchedulerDoc, claim_scheduler_due, complete_scheduler_tick}
use geek_crawler_rag.Schedule.Oldest.{
  RunDoc, SchedulableRun, SchedulableRunScan, find_oldest_content_ready_run,
}

-- What `enqueue_scheduled` answers, or raises.
pub data Enqueued : Type 0 where
  accepted refused : Enqueued
  enqueue_raised : Text → Enqueued

-- The settings that a tick reads.
pub record Settings : Type 0 where
  pub enabled : Bool
  pub interval_seconds : ℕ
  pub lease_seconds : ℕ
  pub max_attempts : ℕ
  pub maximum_pages : ℕ

-- How the body of the `try` ends: the run that was enqueued, the error, and the reason.
pub record TickEnd : Type 0 where
  pub run_id : Option Text
  pub error : Option Text
  pub selection_reason : Option Text

abbrev pub has_id : Text → List (Text × JobRow) → Bool
has_id run_id [] = false
has_id run_id ((k, row) ∷ rows) = text_eq k run_id || has_id run_id rows

-- `str` writes a number, and `enqueue` is `enqueue_scheduled` of the index service, on its job rows.
module _ (jobs : Collection JobRow) (scheduler : Collection SchedulerDoc) (str : ℕ → Text)
    (enqueue : jobs.Docs → Text → Enqueued × jobs.Docs) (count_pages : Text → ℕ) where
  -- `SchedulableRunScan.summary`
  unfoldable pub summary : SchedulableRunScan → Text
  summary scan = elim scan.candidate [
    | some c ↦ codes "candidate runId=" ++ c.id ++ codes " pages=" ++ str c.page_count
    | none ↦
        codes "no_candidate missing_ready_marker="
        ++ str scan.missing_ready_marker
        ++ codes " zero_pages="
        ++ str scan.zero_pages
        ++ codes " safety_cap="
        ++ str scan.safety_cap
        ++ codes " excluded="
        ++ str scan.excluded
  ]

  abbrev pub after_enqueue : SchedulableRunScan → SchedulableRun → Enqueued → TickEnd
  after_enqueue scan c accepted = record {
    run_id = some c.id;
    error = none;
    selection_reason = some (summary scan);
  }
  after_enqueue scan c refused = record {
    run_id = none;
    error = some (codes "Atomic index claim rejected for runId=" ++ c.id);
    selection_reason = some (codes "claim_rejected");
  }
  after_enqueue scan c (enqueue_raised message) = record {
    run_id = none;
    error = some message;
    selection_reason = none;
  }

  abbrev pub enqueue_candidate :
      SchedulableRunScan → Option SchedulableRun → jobs.Docs → TickEnd × jobs.Docs
  enqueue_candidate scan none d =
      (record { run_id = none; error = none; selection_reason = some (summary scan) }, d)
  enqueue_candidate scan (some c) d =
      let (how, d') = enqueue d c.id in (after_enqueue scan c how, d')

  -- Whether a job is active decides.
  abbrev pub look_for_run : Settings → Bool → List RunDoc → ℕ → jobs.Docs → TickEnd × jobs.Docs
  look_for_run settings true runs now d =
      (record { run_id = none; error = none; selection_reason = some (codes "active_job") }, d)
  look_for_run settings false runs now d =
      let excluded = excluded_run_ids jobs d now settings.max_attempts in
      let scan =
        find_oldest_content_ready_run count_pages (λ k. has_id k excluded) settings.maximum_pages
          runs in
      enqueue_candidate scan scan.candidate d

  -- The `finally`: the tick is completed, however the body ended.
  abbrev pub run_tick :
      Settings
      → Text
      → Bool
      → scheduler.Docs
      → List RunDoc
      → ℕ
      → ℕ
      → jobs.Docs
      → Option Text × scheduler.Docs × jobs.Docs
  run_tick settings owner false s runs now done d = (none, s, d)
  run_tick settings owner true s runs now done d =
      let (end_of, d') = look_for_run settings (has_active_job jobs d now) runs now d in
      (
        end_of.run_id,
        complete_scheduler_tick scheduler s owner settings.interval_seconds end_of.run_id
            end_of.error end_of.selection_reason done,
        d',
      )

  -- A tick that starts at `now` and ends at `done`.
  unfoldable pub tick :
      Settings
      → Text
      → scheduler.Docs
      → List RunDoc
      → ℕ
      → ℕ
      → jobs.Docs
      → Option Text × scheduler.Docs × jobs.Docs
  tick settings owner s runs now done d =
      let (claimed, s') =
        claim_scheduler_due scheduler s owner settings.lease_seconds settings.enabled
          settings.interval_seconds now in
      run_tick settings owner claimed s' runs now done d
