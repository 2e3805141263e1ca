-- ===== src/Index/Enqueue.antt =====
-- How a run enters the queue: `_enqueue`, `enqueue_scheduled` and `readiness_refusal` of
-- src/geek_crawler_rag/indexer.py, and the operator's pause of the intake in status_store.py. The
-- service has its status store, as it is deployed.
pub mod Laws
use geek_crawler_rag.Base.{
  ℕ, Bool, true, false, List, [], ◌∷◌, ◌++◌, Option, none, some, if◌then◌else◌, Text, codes,
  text_eq, strip, is_empty, or_text,
}
use geek_crawler_rag.Mongo.Field.{Field, missing, null, val, field_or}
use geek_crawler_rag.Mongo.Collection.{Collection}
use geek_crawler_rag.Jobs.Model.{IndexStatus, JobRow}
use geek_crawler_rag.Jobs.Store.{get, claim, save}

pub record IntakeDoc : Type 0 where
  pub paused : Field Bool
  pub paused_at_utc : Field ℕ
  pub paused_reason : Field Text

-- What `readiness_refusal` reads of a run.
pub record RunReady : Type 0 where
  pub content_ready_at : Option Text
  pub status : Option Text

-- A `ValueError`, the status with whether this call queued it, or a `RuntimeError`.
pub data EnqueueEnd : Type 0 where
  no_run_id : EnqueueEnd
  queued : IndexStatus → EnqueueEnd
  not_queued : IndexStatus → EnqueueEnd
  could_not_claim : EnqueueEnd

-- What the service holds: the job rows, the statuses by run, the operator's flags, the queue and the
-- statuses that were posted.
pub record Service (Docs : Type 0) : Type 0 where
  pub docs : Docs
  pub statuses : Text → Option IndexStatus
  pub killed : Text → Option Text
  pub queue : List Text
  pub sent : List IndexStatus

abbrev pub intake_id : Text
intake_id = codes "index-intake"

-- `d[key] = value`, and `d.pop(key, None)`.
abbrev pub put : {A : Type 0} → Text → Option A → (Text → Option A) → Text → Option A
put key value d k = if text_eq key k then value else d k

module _ (intake : Collection IntakeDoc) where
  abbrev pub pause_reason : Field Bool → Field Text → Option Text
  pause_reason missing reason = none
  pause_reason null reason = none
  pause_reason (val false) reason = none
  pause_reason (val true) reason = some (or_text (field_or [] reason) (codes "no reason recorded"))

  unfoldable pub intake_pause_reason : intake.Docs → Option Text
  intake_pause_reason d = elim (intake.find_one d intake_id) [
    | none ↦ none
    | some doc ↦ pause_reason doc.paused doc.paused_reason
  ]

  abbrev pub dump_reason : Option Text → Field Text
  dump_reason none = null
  dump_reason (some r) = val r

  abbrev pub intake_doc : Bool → Option Text → ℕ → IntakeDoc
  intake_doc true reason now = record {
    paused = val true;
    paused_at_utc = val now;
    paused_reason = dump_reason reason;
  }
  intake_doc false reason now = record {
    paused = val false;
    paused_at_utc = null;
    paused_reason = null;
  }

  unfoldable pub set_intake_paused :
      intake.Docs → Bool → Option Text → ℕ → (Bool × Option Text) × intake.Docs
  set_intake_paused d paused reason now = (
    (paused, if paused then reason else none),
    (intake.upsert_one d intake_id (λ doc. true) (λ doc. intake_doc paused reason now)
        (intake_doc paused reason now)).1,
  )

-- Why the run may not be indexed yet.
abbrev pub unready : Text → Option Text → Text
unready run_id status =
    codes "runId="
    ++ (run_id
        ++ (codes " has no ContentReadyAt (status="
            ++ (known status
                ++ codes "); its pages are not content-ready, so there is nothing indexable yet")))
  where
    known : Option Text → Text
    known none = codes "unknown"
    known (some s) = or_text s (codes "unknown")

abbrev pub marker_refusal : Text → Option Text → Option Text → Option Text
marker_refusal run_id status none = some (unready run_id status)
marker_refusal run_id status (some t) = if is_empty t then some (unready run_id status) else none

unfoldable pub readiness_refusal : (Text → Option RunReady) → Text → Option Text
readiness_refusal get_run run_id = elim (get_run (strip run_id)) [
  | none ↦ some (codes "Run not found: " ++ run_id)
  | some run ↦ marker_refusal run_id run.status run.content_ready_at
]

module _ (jobs : Collection JobRow) (owner : Text) (lease_seconds : ℕ) where
  -- The status that the service holds of the run, read where it holds none.
  abbrev pub remember : Option IndexStatus → Text → Service jobs.Docs → Service jobs.Docs
  remember (some s) run_id v = v
  remember none run_id v = record v { statuses = put run_id (get jobs v.docs run_id) v.statuses }

  -- `_persist`, with its notification.
  abbrev pub persist_queued : IndexStatus → Service jobs.Docs → Service jobs.Docs
  persist_queued status v =
      let (saved, docs') = save jobs v.docs status owner in
      record v { docs = docs'; sent = if saved then status ∷ v.sent else v.sent }

  abbrev pub refuse_claim :
      Option IndexStatus → Text → Service jobs.Docs → EnqueueEnd × Service jobs.Docs
  refuse_claim none run_id v = (EnqueueEnd.could_not_claim, v)
  refuse_claim (some s) run_id v =
      (EnqueueEnd.not_queued s, record v { statuses = put run_id (some s) v.statuses })

  -- What follows the claim: the kill flag goes, the status is written, and the run joins the queue.
  abbrev pub after_claim :
      Option IndexStatus → Text → Service jobs.Docs → EnqueueEnd × Service jobs.Docs
  after_claim none run_id v = refuse_claim (get jobs v.docs run_id) run_id v
  after_claim (some status) run_id v =
      let noted = record v {
        killed = put run_id none v.killed;
        statuses = put run_id (some status) v.statuses;
      } in
      let written = persist_queued status noted in
      (EnqueueEnd.queued status, record written { queue = written.queue ++ run_id ∷ [] })

  abbrev pub claim_and_queue :
      Text → ℕ → Text → Bool → Service jobs.Docs → EnqueueEnd × Service jobs.Docs
  claim_and_queue run_id now trigger force v =
      let (claimed, docs') = claim jobs v.docs run_id owner now lease_seconds trigger force in
      after_claim claimed run_id (record v { docs = docs' })

  -- `_enqueue`
  unfoldable pub enqueue_run :
      Text → ℕ → Text → Bool → Service jobs.Docs → EnqueueEnd × Service jobs.Docs
  enqueue_run run_id now trigger force v =
      if is_empty (strip run_id)
      then (EnqueueEnd.no_run_id, v)
      else claim_and_queue (strip run_id) now trigger force
          (remember (v.statuses (strip run_id)) (strip run_id) v)

  -- What follows the two refusals, the pause's and that of a run that is not ready.
  abbrev pub unless_refused :
      Option Text
      → Option Text
      → Text
      → ℕ
      → Service jobs.Docs
      → Option EnqueueEnd × Service jobs.Docs
  unless_refused (some reason) not_ready run_id now v = (none, v)
  unless_refused none (some reason) run_id now v = (none, v)
  unless_refused none none run_id now v =
      let (how, v') = enqueue_run run_id now (codes "scheduled") false v in (some how, v')

  -- `enqueue_scheduled`; `none` is a refusal before the claim.
  module _ (intake : Collection IntakeDoc) (get_run : Text → Option RunReady) where
    unfoldable pub enqueue_scheduled :
        intake.Docs → Text → ℕ → Service jobs.Docs → Option EnqueueEnd × Service jobs.Docs
    enqueue_scheduled d run_id now v =
        unless_refused (intake_pause_reason intake d) (readiness_refusal get_run run_id) run_id now
          v
