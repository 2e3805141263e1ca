-- ===== src/Index/Worker.antt =====
-- One turn of `IndexService._worker_loop` of src/geek_crawler_rag/indexer.py, with `_run_claimed_job`
-- and `IndexService.kill`. What the other tasks of the service do meanwhile is in `Meanwhile`.
pub mod Turns
pub mod Kills
use geek_crawler_rag.Base.{
  ℕ, Bool, true, false, ◌||◌, List, [], ◌∷◌, ◌++◌, Option, none, some, if◌then◌else◌, Text, codes,
  strip, is_empty,
}
use geek_crawler_rag.Mongo.Collection.{Collection}
use geek_crawler_rag.Jobs.Model.{IndexState, IndexStatus, JobRow, is_terminal}
use geek_crawler_rag.Jobs.Store.{get, is_owned, reacquire, release}
use geek_crawler_rag.Index.Admit.{Node}
use geek_crawler_rag.Index.Run.{World, RunEnd, Progress, fail_quarantined, index_run}

-- What became of a job that the worker took from the queue.
pub data TurnEnd : Type 0 where
  skipped_killed lease_lost ran : TurnEnd

pub data KillOutcome : Type 0 where
  absent already_terminal dequeued stopping : KillOutcome

-- What happens while a run goes on. `lost` is the run's progress where its heartbeat lost the lease
-- and cancelled it, if it did so before the run ended, and `loaded` the stored status that a status
-- request or a kill has put in the place of the run's own in `_statuses`.
pub record Meanwhile (Docs : Type 0) : Type 0 where
  pub lost : Option (Progress Docs)
  pub loaded : Option IndexStatus

-- A kill's answer, the operator's flag for the run, and what the service holds.
pub record Killing (Docs : Type 0) : Type 0 where
  pub outcome : KillOutcome
  pub flag : Option Text
  pub held : Option IndexStatus
  pub docs : Docs
  pub sent : List IndexStatus

module _ (jobs : Collection JobRow) (owner : Text) (stats : List Node → ℕ × ℕ)
    (str : ℕ → Text) where
  -- An exception fails a run that has not ended.
  abbrev pub fail_unended : Bool → Text → ℕ → Progress jobs.Docs → Progress jobs.Docs
  fail_unended true error now p = p
  fail_unended false error now p = fail_quarantined jobs owner stats str error now p

  abbrev pub killed_error : Text → ℕ → Text
  killed_error reason upserted =
      codes "Killed by operator mid-run: "
      ++ reason
      ++ codes ". "
      ++ str upserted
      ++ codes " already upserted points preserved."

  -- `self._statuses.get(run_id)`
  abbrev pub status_of : Option IndexStatus → Progress jobs.Docs → Progress jobs.Docs
  status_of none p = p
  status_of (some status) p = record p { status = status }

  -- The handlers of the loop's `try`.
  abbrev pub handle_end : ℕ → Option IndexStatus → RunEnd → Progress jobs.Docs → Progress jobs.Docs
  handle_end now loaded RunEnd.returned p = p
  handle_end now loaded (RunEnd.job_killed reason) p =
      let q = status_of loaded p in
      fail_unended (is_terminal q.status.state) (killed_error reason q.status.chunks_upserted) now q
  handle_end now loaded (RunEnd.unhandled message) p =
      let q = status_of loaded p in
      fail_unended (is_terminal q.status.state) (codes "Unhandled indexer exception") now q

  -- The run beside its heartbeat. A lease that is lost leaves the run where it was: nothing is failed.
  abbrev pub run_beating :
      ℕ
      → World
      → ℕ
      → Option IndexStatus
      → Option (Progress jobs.Docs)
      → Progress jobs.Docs
      → TurnEnd × Progress jobs.Docs
  run_beating batch w now loaded (some left) p = (TurnEnd.lease_lost, left)
  run_beating batch w now loaded none p =
      let (how, p') = index_run jobs owner stats str batch w p in
      (TurnEnd.ran, handle_end now loaded how p')

  -- The run itself, once the lease is known to be the worker's or not.
  abbrev pub run_leased :
      ℕ → World → ℕ → Meanwhile jobs.Docs → Bool → Progress jobs.Docs → TurnEnd × Progress jobs.Docs
  run_leased batch w now m false p = (TurnEnd.lease_lost, p)
  run_leased batch w now m true p = run_beating batch w now m.loaded m.lost p

  -- `_run_claimed_job`: the lease is taken back where it lapsed in the queue.
  unfoldable pub run_claimed_job :
      ℕ → World → ℕ → ℕ → Meanwhile jobs.Docs → Progress jobs.Docs → TurnEnd × Progress jobs.Docs
  run_claimed_job batch w now ls m p =
      let owned = is_owned jobs p.docs p.status.run_id owner now in
      let (taken, docs') = reacquire jobs p.docs p.status.run_id owner now ls in
      run_leased batch w now m (owned || taken)
        (record p { docs = if owned then p.docs else docs' })

  -- The killed run is not run; its flag is taken away with the turn.
  abbrev pub take_turn :
      ℕ
      → World
      → ℕ
      → ℕ
      → Meanwhile jobs.Docs
      → Option Text
      → Progress jobs.Docs
      → TurnEnd × Progress jobs.Docs
  take_turn batch w now ls m (some reason) p = (TurnEnd.skipped_killed, p)
  take_turn batch w now ls m none p = run_claimed_job batch w now ls m p

  -- A turn of the loop, with its `finally`: the lease is given up, however the run ended.
  unfoldable pub worker_turn :
      ℕ
      → World
      → ℕ
      → ℕ
      → Meanwhile jobs.Docs
      → Option Text
      → Progress jobs.Docs
      → TurnEnd × Progress jobs.Docs
  worker_turn batch w now ls m flag p =
      let (how, p') = take_turn batch w now ls m flag p in
      (how, record p' { docs = release jobs p'.docs p.status.run_id owner w.finished_at })

  abbrev pub fresh : IndexStatus → jobs.Docs → List IndexStatus → Progress jobs.Docs
  fresh status docs sent = record {
    status = status;
    docs = docs;
    sent = sent;
    owners = [];
    pending = [];
    offered = [];
  }

  -- A run that waits in the queue is failed at once.
  abbrev pub kill_pending : Text → ℕ → Progress jobs.Docs → Killing jobs.Docs
  kill_pending reason now p =
      let q =
        fail_quarantined jobs owner stats str
          (codes "Killed by operator before it started: " ++ reason) now p in
      record {
        outcome = KillOutcome.dequeued;
        flag = some reason;
        held = some q.status;
        docs = q.docs;
        sent = q.sent;
      }

  abbrev pub kill_in : IndexState → Text → ℕ → Option Text → Progress jobs.Docs → Killing jobs.Docs
  kill_in IndexState.pending reason now flag p = kill_pending reason now p
  kill_in IndexState.running reason now flag p = record {
    outcome = KillOutcome.stopping;
    flag = some reason;
    held = some p.status;
    docs = p.docs;
    sent = p.sent;
  }
  kill_in ended reason now flag p = record {
    outcome = KillOutcome.already_terminal;
    flag = flag;
    held = some p.status;
    docs = p.docs;
    sent = p.sent;
  }

  -- `get_status`: its answer, and what the service then holds of the run.
  abbrev pub get_status :
      Text → Option IndexStatus → jobs.Docs → Option IndexStatus × Option IndexStatus
  get_status run_id held docs =
      let loaded = get jobs docs run_id in
      (loaded, elim loaded [ none ↦ held | some status ↦ some status ])

  abbrev pub kill_found :
      Option IndexStatus × Option IndexStatus
      → Text
      → ℕ
      → Option Text
      → jobs.Docs
      → List IndexStatus
      → Killing jobs.Docs
  kill_found (none, held) reason now flag docs sent = record {
    outcome = KillOutcome.absent;
    flag = flag;
    held = held;
    docs = docs;
    sent = sent;
  }
  kill_found (some status, held) reason now flag docs sent =
      kill_in status.state reason now flag (fresh status docs sent)

  -- `kill` of a run whose id is not blank; `flag` and `held` are the run's entries in `_killed` and
  -- `_statuses`.
  unfoldable pub kill :
      Text
      → Text
      → ℕ
      → Option Text
      → Option IndexStatus
      → jobs.Docs
      → List IndexStatus
      → Killing jobs.Docs
  kill run_id reason now flag held docs sent =
      kill_found (get_status (strip run_id) held docs) reason now flag docs sent
