-- ===== src/Schedule/Tick/Laws.antt =====
-- What a tick that claimed its turn leaves behind.
use geek_crawler_rag.Base.{
  ℕ, ◌+◌, ◌<◌, ◌≡◌, refl, inl, inr, Bool, true, false, not, ◌||◌, List, Option, some, Text,
  text_eq_refl, arith, Bool-cases, Option-cases,
}
use geek_crawler_rag.Mongo.Field.{val, null}
use geek_crawler_rag.Mongo.Collection.{Collection}
use geek_crawler_rag.Jobs.Model.{JobRow}
use geek_crawler_rag.Jobs.Store.{seconds, has_active_job}
use geek_crawler_rag.Jobs.Scheduler.{
  SchedulerDoc, scheduler_id, claim_scheduler_due, claim_tick, scheduler_status, not_due,
  complete_scheduler_tick, finish_tick, tick_claimable,
}
use geek_crawler_rag.Jobs.Cadence.{complete_reschedules}
use geek_crawler_rag.Schedule.Oldest.{RunDoc}
use geek_crawler_rag.Schedule.Tick.{Enqueued, Settings, look_for_run, run_tick, tick}

module _ (scheduler : Collection SchedulerDoc) where
  -- The turn is given up: nobody has its lease, and the next one is an interval off.
  abbrev pub IsGivenUp : scheduler.Docs → ℕ → ℕ → Type 0
  IsGivenUp d interval done =
      (doc : SchedulerDoc) × (scheduler.find_one d scheduler_id ≡ some doc)
      × (doc.lease_owner ≡ null)
      × (doc.lease_until ≡ val done)
      × (doc.next_run_at_utc ≡ val (done + seconds interval))

  completed :
      (d : scheduler.Docs) (owner : Text) (interval now : ℕ) (run_id error reason : Option Text)
      (doc : SchedulerDoc)
      → scheduler.find_one d scheduler_id ≡ some doc
      → doc.lease_owner ≡ val owner
      → IsGivenUp
          (complete_scheduler_tick scheduler d owner interval run_id error reason now)
          interval
          now
  unfolding complete_scheduler_tick
  completed d owner interval now run_id error reason doc e o = (
    finish_tick scheduler interval now run_id error reason doc,
    rw
        (
          complete_scheduler_tick,
          scheduler.find_one-update_one,
          text_eq_refl scheduler_id,
          e,
          o,
          text_eq_refl owner,
        )
        refl,
    refl,
    refl,
    refl,
  )

  -- The document that a granted claim leaves is leased to the claimant.
  claim_tick-owner :
      (d : scheduler.Docs) (owner : Text) (now ls : ℕ)
      → (claim_tick scheduler d owner now ls).0 ≡ true
      → (doc : SchedulerDoc) × (scheduler.find_one
            (claim_tick scheduler d owner now ls).1
            scheduler_id
          ≡ some doc)
        × (doc.lease_owner ≡ val owner)
  unfolding claim_tick
  claim_tick-owner d owner now ls c = elim (Option-cases (scheduler.find_one d scheduler_id)) [
    | inl n ↦ absurd (
        ground (
          arith,
          c,
          n,
          scheduler.matched-update_one d scheduler_id (tick_claimable now)
              (λ doc. record doc { lease_owner = val owner; lease_until = val (now + seconds ls) }),
        ))
    | inr (doc, e) ↦
        let f : SchedulerDoc → SchedulerDoc =
          λ doc. record doc { lease_owner = val owner; lease_until = val (now + seconds ls) } in
        (
          f doc,
          ground (
            arith,
            c,
            e,
            text_eq_refl scheduler_id,
            scheduler.matched-update_one d scheduler_id (tick_claimable now) f,
            scheduler.find_one-update_one d scheduler_id (tick_claimable now) f scheduler_id,
          ),
          refl,
        )
  ]

  -- A granted claim of a due tick is a granted claim of the tick's lease.
  claim_scheduler_due-claim_tick :
      (d : scheduler.Docs) (owner : Text) (ls : ℕ) (enabled : Bool) (interval now : ℕ)
      → let (claimed, d') = claim_scheduler_due scheduler d owner ls enabled interval now in
        claimed ≡ true
        → (d1 : scheduler.Docs) × ((claim_tick scheduler d1 owner now ls).0 ≡ true)
          × (d' ≡ (claim_tick scheduler d1 owner now ls).1)
  unfolding claim_scheduler_due
  claim_scheduler_due-claim_tick d owner ls enabled interval now c =
      let s = scheduler_status scheduler d enabled interval now in
      elim (Bool-cases (not enabled || s.0.paused)) [
        | inl a ↦ absurd (ground (arith, a, c))
        | inr a ↦ elim (Bool-cases (not_due s.0.next_run_at_utc now)) [
          | inl b ↦ absurd (ground (arith, a, b, c))
          | inr b ↦ (s.1, ground (arith, a, b, c), ground (arith, a, b))
        ]
      ]

  module _ (jobs : Collection JobRow) (str : ℕ → Text)
      (enqueue : jobs.Docs → Text → Enqueued × jobs.Docs) (count_pages : Text → ℕ) where
    run_tick-reschedules :
        (settings : Settings) (owner who : Text) (claimed : Bool) (s : scheduler.Docs)
        (runs : List RunDoc) (now done later ls : ℕ) (d : jobs.Docs) (doc : SchedulerDoc)
        → claimed ≡ true
        → scheduler.find_one s scheduler_id ≡ some doc
        → doc.lease_owner ≡ val owner
        → later < done + seconds settings.interval_seconds
        → let after =
            run_tick jobs scheduler str enqueue count_pages settings owner claimed s runs now done
              d in
          IsGivenUp after.1 settings.interval_seconds done
          × ((claim_tick scheduler after.1 who later ls).0 ≡ false)
    run_tick-reschedules settings owner who false s runs now done later ls d doc c e o h = absurd cc
    run_tick-reschedules settings owner who true s runs now done later ls d doc c e o h =
        let end_of =
          (look_for_run jobs scheduler str enqueue count_pages settings (has_active_job jobs d now)
            runs now d).0 in
        (
          completed s owner settings.interval_seconds done end_of.run_id end_of.error
              end_of.selection_reason doc e o,
          complete_reschedules scheduler s owner who settings.interval_seconds done later ls
              end_of.run_id end_of.error end_of.selection_reason doc e o h,
        )

    -- A tick that claimed its turn gives the turn up again, whatever it met: a job that is active, no
    -- run to schedule, a refusal, or an exception of the enqueue. Its lease has no owner and ends at
    -- once, the next run is a whole interval off, and until then nobody claims a tick.
    pub tick_reschedules :
        (settings : Settings) (owner who : Text) (s : scheduler.Docs) (runs : List RunDoc)
        (now done later ls : ℕ) (d : jobs.Docs)
        → (claim_scheduler_due scheduler s owner settings.lease_seconds settings.enabled
            settings.interval_seconds now).0
          ≡ true
        → later < done + seconds settings.interval_seconds
        → let after =
            tick jobs scheduler str enqueue count_pages settings owner s runs now done d in
          IsGivenUp after.1 settings.interval_seconds done
          × ((claim_tick scheduler after.1 who later ls).0 ≡ false)
    unfolding tick
    tick_reschedules settings owner who s runs now done later ls d c h =
        let due =
          claim_scheduler_due scheduler s owner settings.lease_seconds settings.enabled
            settings.interval_seconds now in
        let (d1, t, q) =
          claim_scheduler_due-claim_tick s owner settings.lease_seconds settings.enabled
            settings.interval_seconds now c in
        let (doc, e, o) = claim_tick-owner d1 owner now settings.lease_seconds t in
        run_tick-reschedules settings owner who due.0 due.1 runs now done later ls d doc c (rw q e)
          o h
