-- ===== src/Index/Worker/Turns.antt =====
-- What a turn of the worker leaves behind.
use geek_crawler_rag.Base.{
  ℕ, ◌+◌, ◌≡◌, ◌≢◌, ◌⊎◌, ◌&&◌, ◌∙◌, refl, sym, subst, inl, inr, Bool, true, false, ◌||◌, List,
  Option, none, some, if◌then◌else◌, Text, text_eq_refl, arith, Bool-cases, Option-cases,
}
use geek_crawler_rag.Mongo.Field.{null, val}
use geek_crawler_rag.Mongo.Collection.{Collection}
use geek_crawler_rag.Jobs.Model.{
  IndexState, IndexStatus, JobRow, dump, is_active, is_terminal, set_status,
}
use geek_crawler_rag.Jobs.Store.{
  get, seconds, active_field, lease_expired_or_missing, owned_by, is_failed, is_owned, reacquire,
  release, release_row,
}
use geek_crawler_rag.Index.Admit.{Node}
use geek_crawler_rag.Index.Run.{World, RunEnd, Progress, fail_quarantined, index_run}
use geek_crawler_rag.Index.Run.Stored.{IsMine, IsStored, end_run-IsStored, index_run-Ends}
use geek_crawler_rag.Index.Worker.{
  TurnEnd, Meanwhile, status_of, fail_unended, handle_end, run_beating, run_leased, run_claimed_job,
  take_turn, worker_turn,
}

active-not_terminal : (s : IndexState) → is_active s ≡ true → is_terminal s ≡ false
active-not_terminal IndexState.pending e = refl
active-not_terminal IndexState.running e = refl
active-not_terminal IndexState.complete e = cc
active-not_terminal IndexState.failed e = cc
active-not_terminal IndexState.skipped e = cc

-- The row once its lease is given up.
abbrev given_up : ℕ → Bool → JobRow → JobRow
given_up now failed row = record row {
  lease_owner = null;
  lease_until = val now;
  next_retry_at_utc = if failed then null else row.next_retry_at_utc;
}

-- A status of the run that was loaded while the run was under way.
abbrev pub IsUnderWay : Text → Option IndexStatus → Type 0
IsUnderWay run none = Unit
IsUnderWay run (some status) = (status.run_id ≡ run) × (is_active status.state ≡ true)

module _ (jobs : Collection JobRow) (owner : Text) (stats : List Node → ℕ × ℕ)
    (str : ℕ → Text) where
  abbrev Mine : Text → Progress jobs.Docs → Type 0
  Mine run p = IsMine jobs owner stats str run p

  abbrev Stored : Text → Progress jobs.Docs → Type 0
  Stored run p = IsStored jobs owner stats str run p

  fail_unended-IsStored :
      (run : Text) (ended : Bool) (error : Text) (now : ℕ) (p : Progress jobs.Docs)
      → is_terminal p.status.state ≡ ended
      → Mine run p
      → Stored run (fail_unended jobs owner stats str ended error now p)
  unfolding fail_quarantined
  fail_unended-IsStored run true error now p t h =
      absurd (ground (arith, t, active-not_terminal p.status.state h.1))
  fail_unended-IsStored run false error now p t h =
      end_run-IsStored jobs owner stats str run IndexState.failed (some error) now p (inr refl) h

  status_of-IsMine :
      (run : Text) (loaded : Option IndexStatus) (p : Progress jobs.Docs)
      → IsUnderWay run loaded
      → Mine run p
      → Mine run (status_of jobs owner stats str loaded p)
  status_of-IsMine run none p l h = h
  status_of-IsMine run (some status) p (r, a) (q, b, row, e, o) =
      (r, a, row, rw r (rw (sym q) e), o)

  handle_end-IsStored :
      (run : Text) (now : ℕ) (loaded : Option IndexStatus) (how : RunEnd) (p : Progress jobs.Docs)
      → IsUnderWay run loaded
      → ((how ≡ RunEnd.returned) × Stored run p) ⊎ ((how ≢ RunEnd.returned) × Mine run p)
      → Stored run (handle_end jobs owner stats str now loaded how p)
  handle_end-IsStored run now loaded RunEnd.returned p l (inl (e, s)) = s
  handle_end-IsStored run now loaded RunEnd.returned p l (inr (n, h)) = absurd (n refl)
  handle_end-IsStored run now loaded (RunEnd.job_killed reason) p l (inl (e, s)) = absurd cc
  handle_end-IsStored run now loaded (RunEnd.job_killed reason) p l (inr (n, h)) =
      fail_unended-IsStored run _ _ now (status_of jobs owner stats str loaded p) refl
        (status_of-IsMine run loaded p l h)
  handle_end-IsStored run now loaded (RunEnd.unhandled message) p l (inl (e, s)) = absurd cc
  handle_end-IsStored run now loaded (RunEnd.unhandled message) p l (inr (n, h)) =
      fail_unended-IsStored run _ _ now (status_of jobs owner stats str loaded p) refl
        (status_of-IsMine run loaded p l h)

  -- The lease that a worker runs under is its own, whether it had it or took it back.
  leased-owned :
      (d : jobs.Docs) (run : Text) (now ls : ℕ)
      → let owned = is_owned jobs d run owner now in
        let (taken, d') = reacquire jobs d run owner now ls in
        owned || taken ≡ true
        → (row : JobRow) × (jobs.find_one (if owned then d else d') run ≡ some row)
          × (owned_by owner row.lease_owner ≡ true)
  unfolding is_owned reacquire
  leased-owned d run now ls h = elim (Option-cases (jobs.find_one d run)) [
    | inl n ↦ absurd (ground (arith, h, n, jobs.matched-update_one d run filter taken))
    | inr (row, e) ↦ elim (Bool-cases (is_owned jobs d run owner now)) [
      | inl y ↦ (row, rw y e, ground (arith, y, e))
      | inr y ↦
          let match : filter row ≡ true =
            ground (arith, h, y, e, jobs.matched-update_one d run filter taken) in
          (
            taken row,
            rw y (
                jobs.find_one-update_one d run filter taken run
                ∙ rw (text_eq_refl run, e, match) refl),
            text_eq_refl owner,
          )
    ]
  ]
    where
      filter : JobRow → Bool
      filter row =
          active_field row.state
          && (lease_expired_or_missing now row || owned_by owner row.lease_owner)

      taken : JobRow → JobRow
      taken row = record row { lease_owner = val owner; lease_until = val (now + seconds ls) }

  module _ (batch : ℕ) (w : World) (now ls : ℕ) (m : Meanwhile jobs.Docs) where
    run_leased-IsStored :
        (run : Text) (leased : Bool) (p : Progress jobs.Docs)
        → IsUnderWay run m.loaded
        → (leased ≡ true → Mine run p)
        → let (how, q) = run_leased jobs owner stats str batch w now m leased p in
          how ≡ TurnEnd.ran → Stored run q
    run_leased-IsStored run false p l h e = absurd cc
    run_leased-IsStored run true p l h e = beating m.lost e
      where
        beating :
            (lost : Option (Progress jobs.Docs))
            → let (how, q) = run_beating jobs owner stats str batch w now m.loaded lost p in
              how ≡ TurnEnd.ran → Stored run q
        beating (some left) e = absurd cc
        beating none e =
            let r = index_run jobs owner stats str batch w p in
            handle_end-IsStored run now m.loaded r.0 r.1 l
              (index_run-Ends jobs owner stats str run batch w p (h refl))

    take_turn-IsStored :
        (flag : Option Text) (p : Progress jobs.Docs)
        → is_active p.status.state ≡ true
        → IsUnderWay p.status.run_id m.loaded
        → let (how, q) = take_turn jobs owner stats str batch w now ls m flag p in
          how ≡ TurnEnd.ran → Stored p.status.run_id q
    unfolding run_claimed_job
    take_turn-IsStored (some reason) p a l e = absurd cc
    take_turn-IsStored none p a l e =
        run_leased-IsStored p.status.run_id _ _ l
          (λ h.
            let (row, f, o) = leased-owned p.docs p.status.run_id now ls h in (refl, a, row, f, o))
          e

  -- A job that was under way, and that the worker ran without losing the lease, is complete or failed
  -- after the turn, also where the run was left by a kill or by another exception, and also where its
  -- status was loaded from the store meanwhile: the run's stored row has that state, with
  -- the status's error and the time of the end, and its lease is given up.
  pub worker_turn_ends :
      (batch : ℕ) (w : World) (now ls : ℕ) (m : Meanwhile jobs.Docs) (flag : Option Text)
      (p : Progress jobs.Docs)
      → is_active p.status.state ≡ true
      → IsUnderWay p.status.run_id m.loaded
      → (worker_turn jobs owner stats str batch w now ls m flag p).0 ≡ TurnEnd.ran
      → let q = (worker_turn jobs owner stats str batch w now ls m flag p).1 in
        ((q.status.state ≡ IndexState.complete) ⊎ (q.status.state ≡ IndexState.failed))
        × (row : JobRow) × (jobs.find_one q.docs p.status.run_id ≡ some row)
        × (row.state ≡ val q.status.state)
        × (row.error ≡ dump q.status.error)
        × (row.finished_at_utc ≡ dump q.status.finished_at_utc)
        × (row.lease_owner ≡ null)
        × (row.lease_until ≡ val w.finished_at)
  unfolding worker_turn release release_row set_status
  worker_turn_ends batch w now ls m flag p a l e =
      let (how, q) = take_turn jobs owner stats str batch w now ls m flag p in
      let run = p.status.run_id in
      let (r, s, row, f, o) = take_turn-IsStored batch w now ls m flag p a l e in
      let there : jobs.find_one q.docs run ≡ some (set_status q.status row) =
        subst (λ x. jobs.find_one q.docs x ≡ some (set_status q.status row)) r f in
      let failed = is_failed (get jobs q.docs run) in
      let after =
        jobs.find_one-update_one q.docs run (λ row. owned_by owner row.lease_owner)
          (given_up w.finished_at failed) run in
      (
        s,
        given_up w.finished_at failed (set_status q.status row),
        after ∙ rw (text_eq_refl run, there, o) refl,
        refl,
        refl,
        refl,
        refl,
        refl,
      )
