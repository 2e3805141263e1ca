-- ===== src/Jobs/Cadence.antt =====
-- What holds of the scheduler's cadence, pause and tick lease.
use geek_crawler_rag.Base.{
  ℕ, ◌+◌, ◌<◌, ◌≡◌, ◌∙◌, refl, inl, inr, Bool, true, false, Option, none, some, if◌then◌else◌, Text,
  text_eq_refl, arith, Bool-cases, Option-cases,
}
use geek_crawler_rag.Mongo.Field.{val}
use geek_crawler_rag.Mongo.Collection.{Collection}
use geek_crawler_rag.Jobs.Store.{seconds}
use geek_crawler_rag.Jobs.Scheduler.{
  SchedulerDoc, scheduler_id, scheduler_status, sync_config, claim_tick, claim_scheduler_due,
  set_scheduler_paused, complete_scheduler_tick, config_differs, set_config, finish_tick,
  tick_claimable, initial_doc, set_pause, scheduler_from_doc,
}

module _ (scheduler : Collection SchedulerDoc) where
  open scheduler use {Docs, find_one, find_one-update_one, matched-update_one, find_one-upsert_one}

  sync_config_known :
      (d : Docs) (enabled : Bool) (interval now : ℕ) (doc : SchedulerDoc)
      → find_one d scheduler_id ≡ some doc
      → find_one (sync_config scheduler d enabled interval now) scheduler_id
        ≡ some
            (if config_differs doc enabled interval then set_config enabled interval doc else doc)
  unfolding sync_config
  sync_config_known d enabled interval now doc e =
      elim (Bool-cases (config_differs doc enabled interval)) [
        | inl y ↦ rw (sync_config, e, y, find_one-update_one, text_eq_refl scheduler_id, e)
        | inr n ↦ rw (sync_config, e, n, e)
      ]

  sync_config_new :
      (d : Docs) (enabled : Bool) (interval now : ℕ)
      → find_one d scheduler_id ≡ none
      → find_one (sync_config scheduler d enabled interval now) scheduler_id
        ≡ some (initial_doc enabled interval now)
  unfolding sync_config
  sync_config_new d enabled interval now e =
      rw (sync_config, e, find_one-upsert_one, text_eq_refl scheduler_id, e)

  -- The document after a status call, whatever was there before.
  synced :
      (d : Docs) (enabled : Bool) (interval now : ℕ)
      → (doc : SchedulerDoc) × (find_one (sync_config scheduler d enabled interval now) scheduler_id
          ≡ some doc)
  synced d enabled interval now = elim (Option-cases (find_one d scheduler_id)) [
    | inl n ↦ (_, sync_config_new d enabled interval now n)
    | inr (doc, e) ↦ (_, sync_config_known d enabled interval now doc e)
  ]

  synced_known :
      (d : Docs) (enabled : Bool) (interval now : ℕ) (doc : SchedulerDoc)
      → find_one d scheduler_id ≡ some doc
      → let after = (synced d enabled interval now).0 in
        (after.next_run_at_utc ≡ doc.next_run_at_utc)
        × (after.lease_owner ≡ doc.lease_owner)
        × (after.lease_until ≡ doc.lease_until)
  synced_known d enabled interval now doc e =
      let (after, a) = synced d enabled interval now in
      let k = sync_config_known d enabled interval now doc e in
      (ground (arith, a, k), ground (arith, a, k), ground (arith, a, k))

  paused_tick :
      (d : Docs) (doc : SchedulerDoc) (owner : Text) (now ls : ℕ)
      → find_one d scheduler_id ≡ some doc
      → doc.paused ≡ val true
      → (claim_tick scheduler d owner now ls).0 ≡ false
  unfolding claim_tick
  paused_tick d doc owner now ls e p = rw (matched-update_one, e) (ground (arith, p))

  paused_skips :
      (d : Docs) (doc : SchedulerDoc) (owner : Text) (ls : ℕ) (enabled : Bool) (interval now : ℕ)
      → find_one (sync_config scheduler d enabled interval now) scheduler_id ≡ some doc
      → doc.paused ≡ val true
      → claim_scheduler_due scheduler d owner ls enabled interval now
        ≡ (false, sync_config scheduler d enabled interval now)
  unfolding claim_scheduler_due scheduler_from_doc scheduler_status
  paused_skips d doc owner ls enabled interval now e p =
      rw (claim_scheduler_due, scheduler_status, e) (ground (arith, p))

  paused_due :
      (d : Docs) (doc : SchedulerDoc) (owner : Text) (ls : ℕ) (enabled : Bool) (interval now : ℕ)
      → find_one d scheduler_id ≡ some doc
      → doc.paused ≡ val true
      → let (claimed, d') = claim_scheduler_due scheduler d owner ls enabled interval now in
        (claimed ≡ false)
        × (doc' : SchedulerDoc) × (find_one d' scheduler_id ≡ some doc')
        × (doc'.paused ≡ val true)
        × (doc'.next_run_at_utc ≡ doc.next_run_at_utc)
  paused_due d doc owner ls enabled interval now e p =
      let doc' =
        if config_differs doc enabled interval then set_config enabled interval doc else doc in
      let e' = sync_config_known d enabled interval now doc e in
      let p' : doc'.paused ≡ val true = ground (arith, p) in
      let n' : doc'.next_run_at_utc ≡ doc.next_run_at_utc = ground arith in
      rw (paused_skips d doc' owner ls enabled interval now e' p') (refl, doc', e', p', n')

  -- What a pause or a resumption leaves: the cadence and the lease stay.
  set_scheduler_paused-find_one :
      (d : Docs) (paused : Bool) (reason : Option Text) (enabled : Bool) (interval now : ℕ)
      → let before = (synced d enabled interval now).0 in
        (doc : SchedulerDoc) × (find_one
            (set_scheduler_paused scheduler d paused reason enabled interval now).1
            scheduler_id
          ≡ some doc)
        × (doc.paused ≡ val paused)
        × (doc.next_run_at_utc ≡ before.next_run_at_utc)
        × (doc.lease_owner ≡ before.lease_owner)
        × (doc.lease_until ≡ before.lease_until)
  unfolding set_scheduler_paused scheduler_status
  set_scheduler_paused-find_one d paused reason enabled interval now =
      let (before, e) = synced d enabled interval now in
      let doc = set_pause scheduler paused reason now before in
      let d1 = sync_config scheduler d enabled interval now in
      let d2 =
        (scheduler.update_one d1 scheduler_id (λ _. true)
          (set_pause scheduler paused reason now)).1 in
      let e2 : find_one d2 scheduler_id ≡ some doc =
        rw (find_one-update_one, text_eq_refl scheduler_id, e) in
      (
        if config_differs doc enabled interval then set_config enabled interval doc else doc,
        sync_config_known d2 enabled interval now doc e2,
        ground arith,
        ground arith,
        ground arith,
        ground arith,
      )

  -- The stored document is paused.
  abbrev IsPaused : Docs → Type 0
  IsPaused d = (doc : SchedulerDoc) × (find_one d scheduler_id ≡ some doc) × (doc.paused ≡ val true)

  -- A call on the scheduler's document, of any worker, at any time and under any configuration, that
  -- is not a resumption.
  pub data Call (d : Docs) : Docs → Type 0 where
    reads :
        (enabled : Bool) (interval now : ℕ)
        → Call d (scheduler_status scheduler d enabled interval now).1
    claims_due :
        (owner : Text) (ls : ℕ) (enabled : Bool) (interval now : ℕ)
        → Call d (claim_scheduler_due scheduler d owner ls enabled interval now).1
    claims_tick : (owner : Text) (now ls : ℕ) → Call d (claim_tick scheduler d owner now ls).1
    completes :
        (owner : Text) (interval : ℕ) (run_id error reason : Option Text) (now : ℕ)
        → Call d (complete_scheduler_tick scheduler d owner interval run_id error reason now)
    pauses :
        (reason : Option Text) (enabled : Bool) (interval now : ℕ)
        → Call d (set_scheduler_paused scheduler d true reason enabled interval now).1

  -- Any number of those calls, in any order.
  pub data Calls (d : Docs) : Docs → Type 0 where
    none_yet : Calls d d
    then_call : {d1 d2 : Docs} → Calls d d1 → Call d1 d2 → Calls d d2

  -- An update that leaves the pause alone leaves a paused document paused.
  update_one-IsPaused :
      (d : Docs) (p : SchedulerDoc → Bool) (f : SchedulerDoc → SchedulerDoc)
      → ((doc : SchedulerDoc) → (f doc).paused ≡ doc.paused)
      → IsPaused d
      → IsPaused (scheduler.update_one d scheduler_id p f).1
  update_one-IsPaused d p f same (doc, e, h) =
      let after = find_one-update_one d scheduler_id p f scheduler_id in
      elim (Bool-cases (p doc)) [
        | inl y ↦ (f doc, rw (after, text_eq_refl scheduler_id, e, y) refl, same doc ∙ h)
        | inr n ↦ (doc, rw (after, text_eq_refl scheduler_id, e, n) refl, h)
      ]

  Call-IsPaused : {d d' : Docs} → Call d d' → IsPaused d → IsPaused d'
  unfolding scheduler_status claim_tick complete_scheduler_tick
  Call-IsPaused {d} (Call.reads enabled interval now) (doc, e, h) =
      (_, sync_config_known d enabled interval now doc e, ground (arith, h))
  Call-IsPaused {d} (Call.claims_due owner ls enabled interval now) (doc, e, h) =
      let (c, doc', e', h', n) = paused_due d doc owner ls enabled interval now e h in
      (doc', e', h')
  Call-IsPaused {d} (Call.claims_tick owner now ls) h =
      update_one-IsPaused d (tick_claimable now) _ (λ doc. refl) h
  Call-IsPaused {d} (Call.completes owner interval run_id error reason now) h =
      update_one-IsPaused d _ (finish_tick scheduler interval now run_id error reason) (λ doc. refl)
        h
  Call-IsPaused {d} (Call.pauses reason enabled interval now) h =
      let (doc, e, p, n, o, u) = set_scheduler_paused-find_one d true reason enabled interval now in
      (doc, e, p)

  Calls-IsPaused : {d d' : Docs} → Calls d d' → IsPaused d → IsPaused d'
  Calls-IsPaused Calls.none_yet h = h
  Calls-IsPaused (Calls.then_call cs c) h = Call-IsPaused c (Calls-IsPaused cs h)

  -- Once an operator has paused the scheduler, and whatever the workers and the operator then do in
  -- any order, short of a resumption (status calls, claims, completions of a tick, more pauses), no
  -- tick is claimed by any worker, under any configuration, at any time, not even where the pause
  -- comes between the check and the claim; and the scheduler's status says that it is paused.
  pub pause_refuses :
      (d : Docs) (reason : Option Text) (enabled : Bool) (interval now : ℕ) (d' : Docs)
      (owner : Text) (ls : ℕ) (enabled' : Bool) (interval' later : ℕ)
      → Calls (set_scheduler_paused scheduler d true reason enabled interval now).1 d'
      → ((claim_scheduler_due scheduler d' owner ls enabled' interval' later).0 ≡ false)
        × ((claim_tick scheduler d' owner later ls).0 ≡ false)
        × ((scheduler_status scheduler d' enabled' interval' later).0.paused ≡ true)
  unfolding scheduler_status scheduler_from_doc
  pause_refuses d reason enabled interval now d' owner ls enabled' interval' later calls =
      let (doc1, e1, p1, _, _, _) =
        set_scheduler_paused-find_one d true reason enabled interval now in
      let (doc, e, p) = Calls-IsPaused calls (doc1, e1, p1) in
      (
        (paused_due d' doc owner ls enabled' interval' later e p).0,
        paused_tick d' doc owner later ls e p,
        rw (sync_config_known d' enabled' interval' later doc e) (ground (arith, p)),
      )

  -- A pause and then a resumption leave an existing scheduler document unpaused, with the next run
  -- and the tick's lease where they were.
  pub resume_keeps_cadence :
      (d : Docs) (reason : Option Text) (enabled : Bool) (interval now later : ℕ)
      (doc : SchedulerDoc)
      → find_one d scheduler_id ≡ some doc
      → let d1 = (set_scheduler_paused scheduler d true reason enabled interval now).1 in
        let d2 = (set_scheduler_paused scheduler d1 false none enabled interval later).1 in
        (doc' : SchedulerDoc) × (find_one d2 scheduler_id ≡ some doc')
        × (doc'.paused ≡ val false)
        × (doc'.next_run_at_utc ≡ doc.next_run_at_utc)
        × (doc'.lease_owner ≡ doc.lease_owner)
        × (doc'.lease_until ≡ doc.lease_until)
  resume_keeps_cadence d reason enabled interval now later doc e =
      let (n0, o0, u0) = synced_known d enabled interval now doc e in
      let (doc1, e1, _, n1, o1, u1) =
        set_scheduler_paused-find_one d true reason enabled interval now in
      let d1 = (set_scheduler_paused scheduler d true reason enabled interval now).1 in
      let (n2, o2, u2) = synced_known d1 enabled interval later doc1 e1 in
      let (doc2, e2, p, n3, o3, u3) =
        set_scheduler_paused-find_one d1 false none enabled interval later in
      (doc2, e2, p, n3 ∙ n2 ∙ n1 ∙ n0, o3 ∙ o2 ∙ o1 ∙ o0, u3 ∙ u2 ∙ u1 ∙ u0)

  -- A tick that one worker has claimed is not claimed again while its lease lasts.
  pub claimed_tick_exclusive :
      (d : Docs) (owner who : Text) (now ls later : ℕ)
      → (claim_tick scheduler d owner now ls).0 ≡ true
      → later < now + seconds ls
      → (ls' : ℕ)
      → (claim_tick scheduler (claim_tick scheduler d owner now ls).1 who later ls').0 ≡ false
  unfolding claim_tick
  claimed_tick_exclusive d owner who now ls later c h ls' =
      elim (Option-cases (find_one d scheduler_id)) [
        | inl n ↦ rw (matched-update_one, find_one-update_one, text_eq_refl scheduler_id, n)
        | inr (doc, e) ↦
            let taken = matched-update_one d scheduler_id (tick_claimable now) (λ doc'.
              record doc' { lease_owner = val owner; lease_until = val (now + seconds ls) }) in
            rw (matched-update_one, find_one-update_one, text_eq_refl scheduler_id, e)
              (ground (arith, c, taken, e))
      ]

  -- Once the worker that holds a tick completes it, no worker claims the next one before a whole
  -- interval has passed.
  pub complete_reschedules :
      (d : Docs) (owner who : Text) (interval now later ls : ℕ) (run_id error reason : Option Text)
      (doc : SchedulerDoc)
      → find_one d scheduler_id ≡ some doc
      → doc.lease_owner ≡ val owner
      → later < now + seconds interval
      → let d' = complete_scheduler_tick scheduler d owner interval run_id error reason now in
        (claim_tick scheduler d' who later ls).0 ≡ false
  unfolding claim_tick complete_scheduler_tick
  complete_reschedules d owner who interval now later ls run_id error reason doc e o h =
      rw
        (
          matched-update_one,
          complete_scheduler_tick,
          find_one-update_one,
          text_eq_refl scheduler_id,
          e,
          o,
          text_eq_refl owner,
        )
        (ground arith)
