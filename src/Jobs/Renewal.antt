-- ===== src/Jobs/Renewal.antt =====
-- Taking a lapsed lease back, renewing it, giving it up, and what the scheduler reads of leases.
use geek_crawler_rag.Base.{
  ℕ, ◌+◌, ◌≤◌, ◌≡◌, ◌≢◌, ◌↔◌, refl, inl, inr, Bool, true, false, ◌&&◌, List, [], ◌∷◌, none, some,
  if◌then◌else◌, Text, text_eq_refl, arith, Option-cases, MemOf,
}
use geek_crawler_rag.Mongo.Field.{val}
use geek_crawler_rag.Mongo.Collection.{Collection}
use geek_crawler_rag.Jobs.Model.{JobRow}
use geek_crawler_rag.Jobs.Store.{
  seconds, claim, reacquire, heartbeat, release_row, release, is_owned, active_field, owned_by,
  excluded, excluded_run_ids, has_active_job, live_job, any_found,
}
use geek_crawler_rag.Jobs.Lease.{
  available, availability, Availability, grants, claim_result, held, lapsed, finished, idle,
}

-- Who may take the lease back: its owner while it lasts, anybody once it has lapsed, and nobody
-- where the run is not under way.
abbrev pub may_reacquire : Text → JobRow → Availability → Bool
may_reacquire owner row held = owned_by owner row.lease_owner
may_reacquire owner row lapsed = true
may_reacquire owner row finished = false
may_reacquire owner row idle = false

refused-excluded :
    (now max_attempts : ℕ) (row : JobRow)
    → grants false (availability now row) ≡ false
    → excluded now max_attempts row ≡ true
unfolding availability
refused-excluded now max_attempts row h = ground arith

live_job_iff : (now : ℕ) (row : JobRow) → (live_job now row ≡ true) ↔ (availability now row ≡ held)
unfolding availability
live_job_iff now row = ground arith

any_found_iff : {A : Type 0} (xs : List A) → (any_found xs ≡ true) ↔ ((x : A) × MemOf x xs)
any_found_iff [] = (λ e. cc, λ (x, m). absurd m)
any_found_iff (x ∷ xs) = (λ _. (x, inl refl), λ _. refl)

module _ (jobs : Collection JobRow) where
  open jobs use {
    Docs, find_one, find, update_one, find_one-update_one, matched-update_one, modified-update_one,
    find_iff,
  }

  -- `reacquire` gives a lapsed lease to anybody and a live one back to its owner alone; it changes
  -- the lease and nothing else, so not the state and not the number of attempts.
  pub reacquire_lem :
      (d : Docs) (run_id owner : Text) (now ls : ℕ) (row : JobRow)
      → find_one d run_id ≡ some row
      → let (taken, d') = reacquire jobs d run_id owner now ls in
        (taken ≡ may_reacquire owner row (availability now row))
        × (find_one d' run_id
            ≡ some (
                if may_reacquire owner row (availability now row)
                then record row { lease_owner = val owner; lease_until = val (now + seconds ls) }
                else row))
  unfolding reacquire availability
  reacquire_lem d run_id owner now ls row e = (
    rw (matched-update_one, e) (ground arith),
    rw (find_one-update_one, text_eq_refl run_id, e) (ground arith),
  )

  -- A heartbeat renews the lease of its own owner alone, while the run is under way. It reports
  -- true exactly where it moved the end of the lease.
  pub heartbeat_lem :
      (d : Docs) (run_id owner : Text) (now ls : ℕ) (row : JobRow)
      → find_one d run_id ≡ some row
      → let (renewed, d') = heartbeat jobs d run_id owner now ls in
        let mine = owned_by owner row.lease_owner && active_field row.state in
        (find_one d' run_id
          ≡ some (if mine then record row { lease_until = val (now + seconds ls) } else row))
        × ((renewed ≡ true) ↔ ((mine ≡ true) × (row.lease_until ≢ val (now + seconds ls))))
  unfolding heartbeat
  heartbeat_lem d run_id owner now ls row e =
      let p = λ (r : JobRow). owned_by owner r.lease_owner && active_field r.state in
      let f = λ (r : JobRow). record r { lease_until = val (now + seconds ls) } in
      let change = modified-update_one d run_id p f in
      (
        rw (find_one-update_one, text_eq_refl run_id, e) (ground arith),
        (
          λ t.
              let (m, n) = change.0 t in
              (ground (arith, e, m), λ same. n (rw e (ground (arith, same)))),
          λ (m, n). change.1 (rw e m, λ q. n (moved (rw e at q) m)),
        ),
      )
    where
      moved :
          (if owned_by owner row.lease_owner && active_field row.state
              then some (record row { lease_until = val (now + seconds ls) })
              else some row)
            ≡ some row
          → (owned_by owner row.lease_owner && active_field row.state) ≡ true
          → row.lease_until ≡ val (now + seconds ls)
      moved q m = ground (arith, q, m)

  -- After its owner gave it up, a lease holds for nobody, at that time or later.
  pub release_frees :
      (d : Docs) (run_id owner : Text) (now later : ℕ) (row : JobRow)
      → find_one d run_id ≡ some row
      → row.lease_owner ≡ val owner
      → now ≤ later
      → (available later (find_one (release jobs d run_id owner now) run_id) ≢ held)
        × ((who : Text) → is_owned jobs (release jobs d run_id owner now) run_id who later ≡ false)
  unfolding release is_owned availability
  release_frees d run_id owner now later row e o h =
      let o' : owned_by owner row.lease_owner ≡ true = rw o (text_eq_refl owner) in
      (
        rw (release_row, find_one-update_one, text_eq_refl run_id, e, o') (ground arith),
        λ who.
            rw (is_owned, release_row, find_one-update_one, text_eq_refl run_id, e, o')
              (ground arith),
      )

  -- A run none of whose rows the scheduler excludes is one that an unforced claim at that time gets.
  pub excluded-claim :
      (d : Docs) (run_id owner trigger : Text) (now ls max_attempts : ℕ)
      → ((row : JobRow) → ¬ MemOf (run_id, row) (excluded_run_ids jobs d now max_attempts))
      → (claim jobs d run_id owner now ls trigger false).0 ≢ none
  unfolding excluded_run_ids
  excluded-claim d run_id owner trigger now ls max_attempts h refused =
      elim (Option-cases (find_one d run_id)) [
        | inl n ↦ ground (arith, n, claim_result jobs d run_id owner now ls trigger false)
        | inr (row, s) ↦
            let ungranted : grants false (availability now row) ≡ false =
              ground (arith, s, refused, claim_result jobs d run_id owner now ls trigger false) in
            h row (
              (find_iff d (excluded now max_attempts) run_id row).1
                (s, refused-excluded now max_attempts row ungranted))
      ]

  -- The scheduler sees a job as active exactly where some run is held.
  pub has_active_job_iff :
      (d : Docs) (now : ℕ)
      → (has_active_job jobs d now ≡ true) ↔ (
          (run_id : Text) × (row : JobRow) × (find_one d run_id ≡ some row)
          × (availability now row ≡ held))
  unfolding has_active_job
  has_active_job_iff d now =
      let seen = any_found_iff (find d (live_job now)) in
      (
        λ t.
            let ((run_id, row), m) = seen.0 t in
            let (e, live) = (find_iff d (live_job now) run_id row).0 m in
            (run_id, row, e, (live_job_iff now row).0 live),
        λ (run_id, row, e, h). seen.1 (
          (run_id, row),
          (find_iff d (live_job now) run_id row).1 (e, (live_job_iff now row).1 h),
        ),
      )
