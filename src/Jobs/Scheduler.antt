-- ===== src/Jobs/Scheduler.antt =====
-- The scheduler's document in `IndexStatusStore`, src/geek_crawler_rag/status_store.py: its cadence,
-- the operator's pause, and the lease of a due tick.
use geek_crawler_rag.Base.{
  ℕ, suc, zero, ◌+◌, Bool, true, false, ◌&&◌, ◌||◌, not, Option, none, some, if◌then◌else◌, Text,
  codes, is_empty, ltb, ◌==◌,
}
use geek_crawler_rag.Mongo.Field.{
  Field, missing, null, val, to_option, is_missing, is_null, at_most,
}
use geek_crawler_rag.Mongo.Collection.{Collection}
use geek_crawler_rag.Jobs.Model.{dump}
use geek_crawler_rag.Jobs.Store.{seconds, owned_by}

pub record SchedulerDoc : Type 0 where
  pub enabled : Field Bool
  pub interval_seconds : Field ℕ
  pub next_run_at_utc : Field ℕ
  pub last_enqueued_at_utc : Field ℕ
  pub last_run_id : Field Text
  pub last_error : Field Text
  pub last_selection_reason : Field Text
  pub paused : Field Bool
  pub paused_at_utc : Field ℕ
  pub paused_reason : Field Text
  pub lease_owner : Field Text
  pub lease_until : Field ℕ

pub record IndexSchedulerStatus : Type 0 where
  pub enabled : Bool
  pub interval_seconds : ℕ
  pub next_run_at_utc : Option ℕ
  pub last_enqueued_at_utc : Option ℕ
  pub last_run_id : Option Text
  pub last_error : Option Text
  pub last_selection_reason : Option Text
  pub paused : Bool
  pub paused_at_utc : Option ℕ
  pub paused_reason : Option Text

-- `bool(doc.get(k, default))`
abbrev pub bool_or : Bool → Field Bool → Bool
bool_or d missing = d
bool_or d null = false
bool_or d (val b) = b

-- `int(doc.get(k) or default)`, where 0 counts as absent too
abbrev pub positive_or : ℕ → Field ℕ → ℕ
positive_or d missing = d
positive_or d null = d
positive_or d (val zero) = d
positive_or d (val (suc n)) = suc n

-- `_scheduler_from_doc`
unfoldable pub scheduler_from_doc : SchedulerDoc → Bool → ℕ → IndexSchedulerStatus
scheduler_from_doc doc enabled interval = record {
  enabled = bool_or enabled doc.enabled;
  interval_seconds = positive_or interval doc.interval_seconds;
  next_run_at_utc = to_option doc.next_run_at_utc;
  last_enqueued_at_utc = to_option doc.last_enqueued_at_utc;
  last_run_id = to_option doc.last_run_id;
  last_error = to_option doc.last_error;
  last_selection_reason = to_option doc.last_selection_reason;
  paused = bool_or false doc.paused;
  paused_at_utc = to_option doc.paused_at_utc;
  paused_reason = to_option doc.paused_reason;
}

-- The document that the first status call inserts.
abbrev pub initial_doc : Bool → ℕ → ℕ → SchedulerDoc
initial_doc enabled interval now = record {
  enabled = val enabled;
  interval_seconds = val interval;
  next_run_at_utc = val now;
  last_enqueued_at_utc = missing;
  last_run_id = missing;
  last_error = missing;
  last_selection_reason = missing;
  paused = val false;
  paused_at_utc = null;
  paused_reason = null;
  lease_owner = missing;
  lease_until = missing;
}

abbrev pub same_bool : Bool → Bool → Bool
same_bool true b = b
same_bool false b = not b

-- The stored cadence is not the configured one.
abbrev pub config_differs : SchedulerDoc → Bool → ℕ → Bool
config_differs doc enabled interval =
    not (same_bool (bool_or false doc.enabled) enabled)
    || not (positive_or 0 doc.interval_seconds == interval)

abbrev pub set_config : Bool → ℕ → SchedulerDoc → SchedulerDoc
set_config enabled interval doc = record doc {
  enabled = val enabled;
  interval_seconds = val interval;
}

-- The filter of `claim_scheduler_due`.
abbrev pub tick_claimable : ℕ → SchedulerDoc → Bool
tick_claimable now doc =
    bool_or false doc.enabled
    && not (bool_or false doc.paused)
    && at_most doc.next_run_at_utc now
    && (at_most doc.lease_until now || is_missing doc.lease_until || is_null doc.lease_until)

-- `status.next_run_at_utc and status.next_run_at_utc > now`
abbrev pub not_due : Option ℕ → ℕ → Bool
not_due none now = false
not_due (some t) now = ltb now t

-- `if run_id:`
abbrev pub has_text : Option Text → Bool
has_text none = false
has_text (some t) = not (is_empty t)

unfoldable pub scheduler_id : Text
scheduler_id = codes "index-scheduler"

module _ (scheduler : Collection SchedulerDoc) where
  open scheduler use {Docs, find_one, update_one, upsert_one}

  -- The document after a status call: inserted, or brought to the configured cadence.
  unfoldable pub sync_config : Docs → Bool → ℕ → ℕ → Docs
  sync_config d enabled interval now = elim (find_one d scheduler_id) [
    | none ↦
        (upsert_one d scheduler_id (λ _. true) (λ doc. doc) (initial_doc enabled interval now)).1
    | some doc ↦
        if config_differs doc enabled interval
        then (update_one d scheduler_id (λ _. true) (set_config enabled interval)).1
        else d
  ]

  -- `scheduler_status`; the document is there once the sync is done.
  unfoldable pub scheduler_status : Docs → Bool → ℕ → ℕ → IndexSchedulerStatus × Docs
  scheduler_status d enabled interval now =
      let d' = sync_config d enabled interval now in
      (
        elim (find_one d' scheduler_id) [
          | none ↦ scheduler_from_doc (initial_doc enabled interval now) enabled interval
          | some doc ↦ scheduler_from_doc doc enabled interval
        ],
        d',
      )

  -- The second round trip of `claim_scheduler_due`, one atomic update.
  unfoldable pub claim_tick : Docs → Text → ℕ → ℕ → Bool × Docs
  claim_tick d owner now lease_seconds =
      let (result, d') = update_one d scheduler_id (tick_claimable now) (λ doc. record doc {
        lease_owner = val owner;
        lease_until = val (now + seconds lease_seconds);
      }) in
      (result.matched, d')

  unfoldable pub claim_scheduler_due : Docs → Text → ℕ → Bool → ℕ → ℕ → Bool × Docs
  claim_scheduler_due d owner lease_seconds enabled interval now =
      let (status, d') = scheduler_status d enabled interval now in
      if not enabled || status.paused
      then (false, d')
      else if not_due status.next_run_at_utc now
      then (false, d')
      else claim_tick d' owner now lease_seconds

  abbrev pub set_pause : Bool → Option Text → ℕ → SchedulerDoc → SchedulerDoc
  set_pause paused reason now doc = record doc {
    paused = val paused;
    paused_at_utc = if paused then val now else null;
    paused_reason = if paused then dump reason else null;
  }

  unfoldable pub set_scheduler_paused :
      Docs → Bool → Option Text → Bool → ℕ → ℕ → IndexSchedulerStatus × Docs
  set_scheduler_paused d paused reason enabled interval now =
      let d1 = (scheduler_status d enabled interval now).1 in
      let d2 = (update_one d1 scheduler_id (λ _. true) (set_pause paused reason now)).1 in
      scheduler_status d2 enabled interval now

  abbrev pub finish_tick :
      ℕ → ℕ → Option Text → Option Text → Option Text → SchedulerDoc → SchedulerDoc
  finish_tick interval now run_id error selection_reason doc = record doc {
    next_run_at_utc = val (now + seconds interval);
    last_error = dump error;
    last_selection_reason = dump selection_reason;
    lease_owner = null;
    lease_until = val now;
    last_run_id = if has_text run_id then dump run_id else doc.last_run_id;
    last_enqueued_at_utc = if has_text run_id then val now else doc.last_enqueued_at_utc;
  }

  unfoldable pub complete_scheduler_tick :
      Docs → Text → ℕ → Option Text → Option Text → Option Text → ℕ → Docs
  complete_scheduler_tick d owner interval run_id error selection_reason now =
      (update_one d scheduler_id (λ doc. owned_by owner doc.lease_owner)
        (finish_tick interval now run_id error selection_reason)).1
