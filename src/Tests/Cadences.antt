-- ===== src/Tests/Cadences.antt =====
-- The scheduler's document in a collection held in memory.
use native.Mathlib.Decide.{ℕ_discrete}
use geek_crawler_rag.Base.{
  ◌≡◌, refl, true, false, [], ◌∷◌, Option, none, some, arith, Text, text_eq, codes,
}
use geek_crawler_rag.Mongo.Field.{val}
use geek_crawler_rag.Mongo.Collection.{Collection}
use geek_crawler_rag.Mongo.Memory.{memory}
use geek_crawler_rag.Jobs.Scheduler.{
  SchedulerDoc, scheduler_id, initial_doc, set_scheduler_paused, claim_scheduler_due, claim_tick,
  scheduler_status, complete_scheduler_tick,
}
use geek_crawler_rag.Jobs.Cadence.{
  Call, Calls, pause_refuses, resume_keeps_cadence, claimed_tick_exclusive, complete_reschedules,
}

pub SchedulerDoc-discrete : Discrete SchedulerDoc
SchedulerDoc-discrete = hlevel ℕ_discrete

abbrev pub scheduler : Collection SchedulerDoc
scheduler = memory SchedulerDoc-discrete

abbrev pub owner_a : Text
owner_a = codes "owner-a"

abbrev pub owner_b : Text
owner_b = codes "owner-b"

-- Due at 1000, and leased to owner-a.
abbrev pub leased_doc : SchedulerDoc
leased_doc = record (initial_doc true 7200 1000) {
  lease_owner = val owner_a;
  lease_until = val 1500;
}

abbrev pub docs : scheduler.Docs
unfolding memory
docs = (scheduler_id, some leased_doc) ∷ []

found : scheduler.find_one docs scheduler_id ≡ some leased_doc
unfolding memory text_eq scheduler_id
found = refl

abbrev incident : Option Text
incident = some (codes "incident")

-- Paused, then completed by the worker that held the tick.
abbrev completed_docs : scheduler.Docs
completed_docs =
    complete_scheduler_tick scheduler
      (set_scheduler_paused scheduler docs true incident true 7200 2000).1 owner_a 7200 none none
      none 2500

pause_refuses_example :
    ((claim_scheduler_due scheduler completed_docs owner_b 900 false 60 10000000).0 ≡ false)
    × ((claim_tick scheduler completed_docs owner_b 10000000 900).0 ≡ false)
    × ((scheduler_status scheduler completed_docs false 60 10000000).0.paused ≡ true)
pause_refuses_example =
    pause_refuses scheduler docs incident true 7200 2000 completed_docs owner_b 900 false 60
      10000000 (Calls.then_call Calls.none_yet (Call.completes owner_a 7200 none none none 2500))

resume_keeps_cadence_example :
    let d1 = (set_scheduler_paused scheduler docs true incident true 7200 2000).1 in
    let d2 = (set_scheduler_paused scheduler d1 false none true 7200 3000).1 in
    (doc : SchedulerDoc) × (scheduler.find_one d2 scheduler_id ≡ some doc)
    × (doc.paused ≡ val false)
    × (doc.next_run_at_utc ≡ leased_doc.next_run_at_utc)
    × (doc.lease_owner ≡ leased_doc.lease_owner)
    × (doc.lease_until ≡ leased_doc.lease_until)
resume_keeps_cadence_example =
    resume_keeps_cadence scheduler docs incident true 7200 2000 3000 leased_doc found

claimed : (claim_tick scheduler docs owner_b 2000 900).0 ≡ true
unfolding claim_tick memory text_eq scheduler_id
claimed = refl

claimed_tick_exclusive_example :
    (claim_tick scheduler (claim_tick scheduler docs owner_b 2000 900).1 owner_a 3000 900).0 ≡ false
claimed_tick_exclusive_example =
    claimed_tick_exclusive scheduler docs owner_b owner_a 2000 900 3000 claimed (omega arith) 900

complete_reschedules_example :
    (claim_tick scheduler
      (complete_scheduler_tick scheduler docs owner_a 7200 none none none 2000)
      owner_b
      9000
      900).0
    ≡ false
complete_reschedules_example =
    complete_reschedules scheduler docs owner_a owner_b 7200 2000 9000 900 none none none leased_doc
      found refl (omega arith)
