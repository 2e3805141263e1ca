-- ===== src/Index/Enqueue/Laws.antt =====
-- What an enqueue leaves behind, and what stops one.
use geek_crawler_rag.Base.{
  ℕ, ◌+◌, ◌<◌, ◌≡◌, ◌∙◌, refl, subst, Bool, true, false, ◌&&◌, [], ◌∷◌, ◌++◌, Option, none, some,
  inl, inr, Text, codes, text_eq_refl, strip, is_empty, or_text, arith, Option-cases,
}
use geek_crawler_rag.Mongo.Field.{val, greater, field_or}
use geek_crawler_rag.Mongo.Collection.{Collection}
use geek_crawler_rag.Jobs.Model.{IndexState, IndexStatus, JobRow, from_doc, set_status, is_active}
use geek_crawler_rag.Jobs.Store.{
  seconds, get, claim, claim_insert, claim_update, save, is_owned, owned_by, active_field,
}
use geek_crawler_rag.Jobs.Lease.{
  get_row, grants, available, claimed, claimed_fields, claim-find_one, claim_result, claim_lem,
}
use geek_crawler_rag.Index.Enqueue.{
  IntakeDoc, RunReady, EnqueueEnd, Service, intake_id, intake_doc, dump_reason, intake_pause_reason,
  set_intake_paused, readiness_refusal, remember, claim_and_queue, enqueue_run, unless_refused,
  enqueue_scheduled,
}

module _ (jobs : Collection JobRow) (owner : Text) where
  owned_row :
      (d : jobs.Docs) (run_id : Text) (row : JobRow) (t : ℕ)
      → jobs.find_one d run_id ≡ some row
      → is_owned jobs d run_id owner t
        ≡ (owned_by owner row.lease_owner && greater row.lease_until t && active_field row.state)
  unfolding is_owned
  owned_row d run_id row t e = rw (e, is_owned) refl

  saved_row :
      (d : jobs.Docs) (row : JobRow) (status : IndexStatus)
      → jobs.find_one d status.run_id ≡ some row
      → owned_by owner row.lease_owner ≡ true
      → jobs.find_one (save jobs d status owner).1 status.run_id ≡ some (set_status status row)
  unfolding save
  saved_row d row status e mine =
      jobs.find_one-update_one d status.run_id (λ r. owned_by owner r.lease_owner)
        (set_status status) status.run_id
      ∙ rw (text_eq_refl status.run_id, e, mine) refl

  -- A row whose lease the owner holds is written, and the owner keeps it while the status is active.
  save_owned :
      (d : jobs.Docs) (row : JobRow) (until : ℕ) (status : IndexStatus)
      → jobs.find_one d status.run_id ≡ some row
      → row.lease_owner ≡ val owner
      → row.lease_until ≡ val until
      → is_active status.state ≡ true
      → ((save jobs d status owner).0 ≡ true)
        × ((t : ℕ)
            → t < until
            → is_owned jobs (save jobs d status owner).1 status.run_id owner t ≡ true)
  unfolding save set_status
  save_owned d row until status e o u a =
      let mine : owned_by owner row.lease_owner ≡ true = rw o (text_eq_refl owner) in
      let done =
        jobs.matched-update_one d status.run_id (λ r. owned_by owner r.lease_owner)
          (set_status status) in
      (
        done ∙ rw (e, mine) refl,
        λ t h.
            owned_row (save jobs d status owner).1 status.run_id (set_status status row) t
              (saved_row d row status e mine)
            ∙ rw (mine, u, a) (ground (arith, h)),
      )

true_not_false : true ≡ false → ⊥
true_not_false e = cc

claimed-run_id :
    (run_id owner : Text) (now ls : ℕ) (trigger : Text) (o : Option JobRow)
    → (claimed run_id owner now ls trigger o).run_id ≡ run_id
unfolding claim_insert claim_update
claimed-run_id run_id owner now ls trigger none = refl
claimed-run_id run_id owner now ls trigger (some row) = refl

-- What an enqueue that is granted leaves, and one that is refused.
abbrev pub IsQueued :
    (jobs : Collection JobRow)
    → Text
    → ℕ
    → Text
    → ℕ
    → Service jobs.Docs
    → EnqueueEnd × Service jobs.Docs
    → Type 0
IsQueued jobs owner ls run_id now v (how, v') =
    (status : IndexStatus) × (how ≡ EnqueueEnd.queued status)
    × (status.state ≡ IndexState.pending)
    × (v'.queue ≡ v.queue ++ run_id ∷ [])
    × (v'.killed run_id ≡ none)
    × (v'.sent ≡ status ∷ v.sent)
    × ((t : ℕ) → t < now + seconds ls → is_owned jobs v'.docs run_id owner t ≡ true)

abbrev pub IsRefused :
    (jobs : Collection JobRow) → Text → Service jobs.Docs → EnqueueEnd × Service jobs.Docs → Type 0
IsRefused jobs run_id v (how, v') =
    (status : IndexStatus) × (how ≡ EnqueueEnd.not_queued status)
    × (get jobs v.docs run_id ≡ some status)
    × (v'.queue ≡ v.queue)
    × (v'.killed ≡ v.killed)
    × (v'.sent ≡ v.sent)
    × (jobs.find_one v'.docs run_id ≡ jobs.find_one v.docs run_id)

module _ (jobs : Collection JobRow) (owner : Text) (ls : ℕ) (run_id : Text) (now : ℕ)
    (trigger : Text) (force : Bool) where
  granted :
      (v : Service jobs.Docs)
      → grants force (available now (jobs.find_one v.docs run_id)) ≡ true
      → IsQueued jobs owner ls run_id now v
          (claim_and_queue jobs owner ls run_id now trigger force v)
  unfolding from_doc
  granted v g =
      let o : Option JobRow = jobs.find_one v.docs run_id in
      let row : JobRow = claimed run_id owner now ls trigger o in
      let d' : jobs.Docs = (claim jobs v.docs run_id owner now ls trigger force).1 in
      let result : (claim jobs v.docs run_id owner now ls trigger force).0 ≡ some (from_doc row) =
        claim_result jobs v.docs run_id owner now ls trigger force ∙ rw g refl in
      let there : jobs.find_one d' run_id ≡ some row =
        claim-find_one jobs v.docs run_id owner now ls trigger force run_id
        ∙ rw (text_eq_refl run_id, g) refl in
      let (state, holder, until, attempt) = claimed_fields run_id owner now ls trigger force o in
      let same : row.run_id ≡ run_id = claimed-run_id run_id owner now ls trigger o in
      let waits : (from_doc row).state ≡ IndexState.pending = rw state refl in
      let (saved, kept) =
        save_owned jobs owner d' row (now + seconds ls) (from_doc row) (rw same there) holder until
          (rw waits refl) in
      rw result (
        from_doc row,
        refl,
        waits,
        refl,
        rw (text_eq_refl run_id) refl,
        rw saved refl,
        λ t h.
            subst (λ r. is_owned jobs (save jobs d' (from_doc row) owner).1 r owner t ≡ true) same
              (kept t h),
      )

  declined :
      (v : Service jobs.Docs)
      → grants force (available now (jobs.find_one v.docs run_id)) ≡ false
      → IsRefused jobs run_id v (claim_and_queue jobs owner ls run_id now trigger force v)
  unfolding get
  declined v g =
      let (result, same) = (claim_lem jobs v.docs run_id owner now ls trigger force).1 g in
      elim (Option-cases (jobs.find_one v.docs run_id)) [
        | inl n ↦ absurd (true_not_false (rw n at g))
        | inr (row, e) ↦
            let known =
              get_row jobs (claim jobs v.docs run_id owner now ls trigger force).1 run_id row
                (same ∙ e) in
            rw (result, known)
              (from_doc row, refl, get_row jobs v.docs run_id row e, refl, refl, refl, same)
      ]

  -- The status that the service remembers makes no difference to the claim.
  granted_from :
      (known : Option IndexStatus) (v : Service jobs.Docs)
      → grants force (available now (jobs.find_one v.docs run_id)) ≡ true
      → IsQueued jobs owner ls run_id now v (
          claim_and_queue jobs owner ls run_id now trigger force
            (remember jobs owner ls known run_id v))
  granted_from none v g = granted (remember jobs owner ls none run_id v) g
  granted_from (some s) v g = granted v g

  declined_from :
      (known : Option IndexStatus) (v : Service jobs.Docs)
      → grants force (available now (jobs.find_one v.docs run_id)) ≡ false
      → IsRefused jobs run_id v (
          claim_and_queue jobs owner ls run_id now trigger force
            (remember jobs owner ls known run_id v))
  declined_from none v g = declined (remember jobs owner ls none run_id v) g
  declined_from (some s) v g = declined v g

-- An enqueue of a run with an id is granted exactly where the claim is: the run is then pending, at
-- the end of the queue, without an operator's flag, its status posted, and the service owns it until
-- the lease ends. Otherwise its row, the queue, the flags and the posts stay as they were, and the
-- answer is the status that is stored.
pub enqueue_run_lem :
    (jobs : Collection JobRow) (owner : Text) (ls : ℕ) (run_id : Text) (now : ℕ) (trigger : Text)
    (force : Bool) (v : Service jobs.Docs)
    → is_empty (strip run_id) ≡ false
    → let r = enqueue_run jobs owner ls run_id now trigger force v in
      (grants force (available now (jobs.find_one v.docs (strip run_id))) ≡ true
        → IsQueued jobs owner ls (strip run_id) now v r)
      × (grants force (available now (jobs.find_one v.docs (strip run_id))) ≡ false
          → IsRefused jobs (strip run_id) v r)
unfolding enqueue_run
enqueue_run_lem jobs owner ls run_id now trigger force v filled = (
  λ g.
      rw filled (
        granted_from jobs owner ls (strip run_id) now trigger force (v.statuses (strip run_id)) v
          g),
  λ g. rw filled (
      declined_from jobs owner ls (strip run_id) now trigger force (v.statuses (strip run_id)) v g),
)

paused_reason :
    (intake : Collection IntakeDoc) (d : intake.Docs) (reason : Option Text) (time : ℕ)
    → (why : Text) × (intake_pause_reason intake (set_intake_paused intake d true reason time).1
        ≡ some why)
unfolding intake_pause_reason set_intake_paused
paused_reason intake d reason time =
    let after =
      intake.find_one-upsert_one d intake_id (λ doc. true)
        (λ doc. intake_doc intake true reason time) (intake_doc intake true reason time)
        intake_id in
    let why : Text =
      or_text (field_or [] (dump_reason intake reason)) (codes "no reason recorded") in
    elim (Option-cases (intake.find_one d intake_id)) [
      | inl e ↦ (why, rw (intake_pause_reason, after, text_eq_refl intake_id, e) refl)
      | inr (doc, e) ↦ (why, rw (intake_pause_reason, after, text_eq_refl intake_id, e) refl)
    ]

unless_refused-paused :
    (jobs : Collection JobRow) (owner : Text) (ls : ℕ) (paused not_ready : Option Text)
    (reason run_id : Text) (now : ℕ) (v : Service jobs.Docs)
    → paused ≡ some reason
    → unless_refused jobs owner ls paused not_ready run_id now v ≡ (none, v)
unless_refused-paused jobs owner ls none not_ready reason run_id now v e = cc
unless_refused-paused jobs owner ls (some r) not_ready reason run_id now v e = refl

-- Once an operator has paused the intake, with or without a reason, no scheduled enqueue reaches a
-- claim: nothing of the service changes.
pub intake_pause_refuses :
    (jobs : Collection JobRow) (owner : Text) (ls : ℕ) (intake : Collection IntakeDoc)
    (get_run : Text → Option RunReady) (d : intake.Docs) (reason : Option Text) (time : ℕ)
    (run_id : Text) (now : ℕ) (v : Service jobs.Docs)
    → enqueue_scheduled jobs owner ls intake get_run
        (set_intake_paused intake d true reason time).1
        run_id
        now
        v
      ≡ (none, v)
unfolding enqueue_scheduled
intake_pause_refuses jobs owner ls intake get_run d reason time run_id now v =
    let (why, e) = paused_reason intake d reason time in
    unless_refused-paused jobs owner ls _ (readiness_refusal get_run run_id) why run_id now v e
